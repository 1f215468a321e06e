-- ===== src/Sqlmeta/Refs.antt =====
-- Table references: extractTableRefs, readRef, skipAlias and partText of
-- routing-service/internal/sqlmeta/heuristic.go. An index into the tokens is the list from there on.
pub mod Fuel
use trino_goway.Base.{
  ℕ, zero, suc, Bool, true, false, not, ◌&&◌, ◌||◌, Option, none, some, List, [], ◌∷◌, ◌++◌,
  if◌then◌else◌, length, Text, codes, text_eq, contains, to_upper, to_lower,
}
use trino_goway.Sqlmeta.Lexer.{Token}
use trino_goway.Sqlmeta.Statement.{tail_of}

abbrev pub table_keywords : List Text
table_keywords = codes "FROM" ∷ codes "JOIN" ∷ codes "INTO" ∷ codes "UPDATE" ∷ codes "TABLE" ∷ []

abbrev pub ref_stop_keywords : List Text
ref_stop_keywords =
    codes "WHERE"
    ∷ codes "ON"
    ∷ codes "USING"
    ∷ codes "GROUP"
    ∷ codes "ORDER"
    ∷ codes "HAVING"
    ∷ codes "LIMIT"
    ∷ codes "UNION"
    ∷ codes "INTERSECT"
    ∷ codes "EXCEPT"
    ∷ codes "AS"
    ∷ codes "SET"
    ∷ codes "VALUES"
    ∷ codes "SELECT"
    ∷ codes "WITH"
    ∷ codes "LEFT"
    ∷ codes "RIGHT"
    ∷ codes "INNER"
    ∷ codes "OUTER"
    ∷ codes "CROSS"
    ∷ codes "FULL"
    ∷ codes "NATURAL"
    ∷ codes "AND"
    ∷ codes "OR"
    ∷ codes "OFFSET"
    ∷ codes "FETCH"
    ∷ codes "WINDOW"
    ∷ codes "QUALIFY"
    ∷ codes "TABLESAMPLE"
    ∷ []

-- the parts of a reference, the first one apart: a reference has at least one
pub record RawRef : Type 0 where
  pub first : Text
  pub more : List Text

unfoldable pub is_anchor : Text → Bool
is_anchor = contains table_keywords

unfoldable pub is_stop : Text → Bool
is_stop = contains ref_stop_keywords

unfoldable pub has_text : Text → Token → Bool
has_text s t = text_eq t.text s

-- the token at the index, if any, has this text
unfoldable pub next_is : Text → List Token → Bool
next_is s [] = false
next_is s (t ∷ ts) = has_text s t

unfoldable pub part_text : Token → Text
part_text t = if t.quoted then t.text else to_lower t.text

-- the parts behind dots
unfoldable pub dotted : List Token → List Text × List Token
dotted [] = ([], [])
dotted (d ∷ []) = ([], d ∷ [])
dotted (d ∷ (x ∷ ts)) =
    let more = dotted ts in
    if has_text (codes ".") d then (part_text x ∷ more.0, more.1) else ([], d ∷ (x ∷ ts))

-- the token cannot begin a reference
unfoldable pub blocks_ref : Token → Bool
blocks_ref t =
    not t.quoted
    && (has_text (codes "(") t
        || has_text (codes ",") t
        || has_text (codes ")") t
        || is_stop (to_upper t.text))

unfoldable pub read_ref : List Token → Option (RawRef × List Token)
read_ref [] = none
read_ref (t ∷ ts) =
    let r = dotted ts in
    if blocks_ref t then none else some (record { first = part_text t; more = r.0 }, r.1)

unfoldable pub skip_alias : List Token → List Token
skip_alias [] = []
skip_alias (t ∷ ts) =
    let w = to_upper t.text in
    if not t.quoted && text_eq w (codes "AS")
    then tail_of ts
    else if has_text (codes ",") t
        || has_text (codes "(") t
        || has_text (codes ")") t
        || has_text (codes ".") t
    then t ∷ ts
    else if not t.quoted && (is_stop w || is_anchor w)
    then t ∷ ts
    else ts

-- the loop past ONLY
unfoldable pub skip_only : List Token → List Token
skip_only [] = []
skip_only (t ∷ ts) =
    let rest = skip_only ts in
    if not t.quoted && text_eq (to_upper t.text) (codes "ONLY") then rest else t ∷ ts

abbrev pub after_ref : List Token → Bool × List Token
after_ref ts =
    if next_is (codes ",") ts
    then (if next_is (codes "(") (tail_of ts) then (false, tail_of ts) else (true, tail_of ts))
    else (false, ts)

abbrev pub add_ref : RawRef → List RawRef × List Token → List RawRef × List Token
add_ref r l = (r ∷ l.0, l.1)

-- the comma-separated references at an anchor; one unit of fuel for each
unfoldable pub read_refs : ℕ → List Token → List RawRef × List Token
read_refs zero ts = ([], ts)
read_refs (suc f) ts = elim (read_ref ts) [
  | none ↦ ([], ts)
  | some (ref, next) ↦
      let (goes_on, rest) = after_ref (skip_alias next) in
      elim goes_on [ true ↦ add_ref ref (read_refs f rest) | false ↦ (ref ∷ [], rest) ]
]

-- what one round of the outer loop collects, and where it goes on
unfoldable pub refs_step : Token → List Token → List RawRef × List Token
refs_step t ts =
    if t.quoted || not (is_anchor (to_upper t.text))
    then ([], ts)
    else let rest = skip_only ts in
      let found = read_refs (length rest) rest in
      if next_is (codes "(") rest then ([], rest) else found

-- the outer loop; one unit of fuel for each round
unfoldable pub refs_loop : ℕ → List Token → List RawRef
refs_loop zero ts = []
refs_loop (suc f) [] = []
refs_loop (suc f) (t ∷ ts) =
    let (refs, rest) = refs_step t ts in let later = refs_loop f rest in refs ++ later

unfoldable pub extract_table_refs : List Token → List RawRef
extract_table_refs toks = refs_loop (length toks) toks
