-- ===== src/Http.antt =====
-- What the source uses of net/http: header maps with canonical keys.
use trino_goway.Base.{
  ℕ, Bool, true, false, ◌&&◌, ◌||◌, ◌==◌, leb, Option, none, some, List, [], ◌∷◌, if◌then◌else◌,
  Text, codes, upper_byte, lower_byte,
}
use trino_goway.Dict.{lookup, put}

abbrev pub Header : Type 0
Header = List (Text × List Text)

abbrev is_one_of : Text → ℕ → Bool
is_one_of [] c = false
is_one_of (a ∷ s) c = a == c || is_one_of s c

-- RFC 7230 token bytes
unfoldable pub is_token_byte : ℕ → Bool
is_token_byte c =
    (leb b'0' c && leb c b'9')
    || (leb b'a' c && leb c b'z')
    || (leb b'A' c && leb c b'Z')
    || is_one_of (codes "!#$%&'*+-.^_`|~") c

unfoldable pub all_token_bytes : Text → Bool
all_token_bytes [] = true
all_token_bytes (c ∷ s) = is_token_byte c && all_token_bytes s

-- the flag says that a word begins here
unfoldable pub canonical_from : Bool → Text → Text
canonical_from b [] = []
canonical_from b (c ∷ s) = (if b then upper_byte c else lower_byte c) ∷ canonical_from (c == b'-') s

-- http.CanonicalHeaderKey
unfoldable pub canonical_key : Text → Text
canonical_key s = if all_token_bytes s then canonical_from true s else s

abbrev first_or_empty : Option (List Text) → Text
first_or_empty none = []
first_or_empty (some []) = []
first_or_empty (some (v ∷ vs)) = v

-- Header.Get and Header.Set
unfoldable pub header_get : Text → Header → Text
header_get name h = first_or_empty (lookup (canonical_key name) h)

unfoldable pub header_set : Text → Text → Header → Header
header_set name v h = put (canonical_key name) (v ∷ []) h
