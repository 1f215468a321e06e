-- ===== src/Sqlmeta/Names.antt =====
-- Name qualification and the string sets of routing-service/internal/sqlmeta/heuristic.go.
pub mod Sorted
use trino_goway.Base.{
  ℕ, Bool, true, false, not, ◌&&◌, ◌||◌, List, [], ◌∷◌, ◌++◌, if◌then◌else◌, Text, text_eq, text_lt,
  contains, is_empty, to_lower, trim_space,
}
use trino_goway.Sqlmeta.Refs.{RawRef}

pub record Name : Type 0 where
  pub catalog : Text
  pub schema : Text
  pub table : Text

abbrev pub last_three : Text → Text → Text → List Text → Name
last_three a b c [] = record { catalog = a; schema = b; table = c }
last_three a b c (d ∷ r) = last_three b c d r

-- the cases of qualify, over defaults that are trimmed and in lower case
abbrev pub qualify_parts : Text → Text → Text → List Text → Name
qualify_parts dc ds a [] = record { catalog = dc; schema = ds; table = a }
qualify_parts dc ds a (b ∷ []) = record { catalog = dc; schema = a; table = b }
qualify_parts dc ds a (b ∷ (c ∷ r)) = last_three a b c r

unfoldable pub qualify : RawRef → Text → Text → Name
qualify ref default_catalog default_schema =
    qualify_parts (to_lower (trim_space default_catalog)) (to_lower (trim_space default_schema))
      ref.first ref.more

abbrev pub prefix_with : Text → Text → Text
prefix_with [] t = t
prefix_with (a ∷ s) t = a ∷ (s ++ (b'.' ∷ t))

-- joinName: the parts that are not empty, joined by dots; the table stays
unfoldable pub join_name : Text → Text → Text → Text
join_name catalog schema table = prefix_with catalog (prefix_with schema table)

-- stringSet: the members in the reverse order of insertion
abbrev pub StringSet : Type 0
StringSet = List Text

unfoldable pub set_add : Text → StringSet → StringSet
set_add v m = if is_empty v || contains m v then m else v ∷ m

unfoldable pub insert_sorted : Text → List Text → List Text
insert_sorted x [] = x ∷ []
insert_sorted x (y ∷ l) =
    let later = insert_sorted x l in if text_lt y x then y ∷ later else x ∷ (y ∷ l)

-- sort.Strings
unfoldable pub sorted : StringSet → List Text
sorted [] = []
sorted (x ∷ m) = insert_sorted x (sorted m)
