-- ===== src/Routing/QueryId.antt =====
-- The query ids that internal/routing/router.go reads from a body and from a path. `killQueryRE` is
-- the matcher below: no part of the expression can match in two ways before what follows it, so
-- there is no backtracking, and the first position with a match is the leftmost match.
pub mod Kill
pub mod Path
use trino_goway.Base.{
  ℕ, Bool, true, false, ◌&&◌, ◌||◌, ◌==◌, leb, Option, none, some, List, [], ◌∷◌, ◌++◌,
  if◌then◌else◌, Text, codes, upper_byte, is_empty, has_prefix, drop,
}

-- the Kelvin sign U+212A, which folds to K
abbrev is_kelvin : Text → Bool
is_kelvin s = has_prefix s (226 ∷ 132 ∷ 170 ∷ [])

-- a word in upper case, matched under (?i)
unfoldable pub match_word : Text → Text → Option Text
match_word [] s = some s
match_word (p ∷ ps) [] = none
match_word (p ∷ ps) (c ∷ s) =
    let plain = match_word ps s in
    let folded = match_word ps (drop 2 s) in
    if upper_byte c == p then plain else if p == b'K' && is_kelvin (c ∷ s) then folded else none

-- the bytes of \s
abbrev pub is_blank : ℕ → Bool
is_blank c = c == 32 || c == 9 || c == 10 || c == 12 || c == 13

abbrev pub is_digit : ℕ → Bool
is_digit c = leb b'0' c && leb c b'9'

-- the bytes of \w
abbrev pub is_word : ℕ → Bool
is_word c = is_digit c || (leb b'a' c && leb c b'z') || (leb b'A' c && leb c b'Z') || c == b'_'

abbrev push : ℕ → Text × Text → Text × Text
push c r = (c ∷ r.0, r.1)

-- the longest run of bytes of a class, and what is behind it
unfoldable pub span : (ℕ → Bool) → Text → Text × Text
span p [] = ([], [])
span p (c ∷ s) = let rest = push c (span p s) in if p c then rest else ([], c ∷ s)

-- one or more bytes of a class
abbrev pub some_of : (ℕ → Bool) → Text → Option (Text × Text)
some_of p s = let r = span p s in if is_empty r.0 then none else some r

abbrev pub expect : ℕ → Text → Option Text
expect b [] = none
expect b (c ∷ s) = if c == b then some s else none

infixl 5 ◌>>=◌
abbrev pub ◌>>=◌ {ℓ κ} : {A : Type ℓ} {B : Type κ} → Option A → (A → Option B) → Option B
none >>= f = none
some a >>= f = f a

-- [0-9]+_[0-9]+_[0-9]+_\w+, then a quote
unfoldable pub match_id : Text → Option Text
match_id s = do
  (a, s) ← some_of is_digit s
  s ← expect b'_' s
  (b, s) ← some_of is_digit s
  s ← expect b'_' s
  (c, s) ← some_of is_digit s
  s ← expect b'_' s
  (d, s) ← some_of is_word s
  s ← expect 39 s
  some (a ++ (b'_' ∷ (b ++ (b'_' ∷ (c ++ (b'_' ∷ d))))))

-- killQueryRE at this position: the first group
unfoldable pub kill_at : Text → Option Text
kill_at s = do
  s ← match_word (codes "KILL") s
  (blank, s) ← some_of is_blank s
  s ← match_word (codes "QUERY") s
  (blank, s) ← some_of is_blank s
  s ← expect 39 s
  match_id s

unfoldable pub extract_kill_query_id : Text → Text
extract_kill_query_id [] = []
extract_kill_query_id (c ∷ s) =
    let later = extract_kill_query_id s in elim (kill_at (c ∷ s)) [ some id ↦ id | none ↦ later ]

abbrev pub query_prefix : Text
query_prefix = codes "/v1/query/"

-- up to the next '/' or '?'
unfoldable pub until_delimiter : Text → Text
until_delimiter [] = []
until_delimiter (c ∷ s) =
    let rest = c ∷ until_delimiter s in if c == b'/' || c == b'?' then [] else rest

unfoldable pub extract_query_id : Text → Text
extract_query_id uri = if has_prefix uri query_prefix then until_delimiter (drop 10 uri) else []
