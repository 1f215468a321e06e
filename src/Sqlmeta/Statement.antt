-- ===== src/Sqlmeta/Statement.antt =====
-- The statement's kind: statementType, mainAfterWith, keywordAt and categoryFor of
-- routing-service/internal/sqlmeta/heuristic.go.
use trino_goway.Base.{
  ℕ, suc, Bool, Option, none, some, List, [], ◌∷◌, ltb, if◌then◌else◌, ◌||◌, ◌-◌, Text, codes,
  text_eq, contains, to_upper, trim_space,
}
use trino_goway.Sqlmeta.Lexer.{Token}

pub data Category : Type 0 where
  read write ddl dml explain other : Category

abbrev pub statement_keywords : List Text
statement_keywords =
    codes "SELECT"
    ∷ codes "INSERT"
    ∷ codes "UPDATE"
    ∷ codes "DELETE"
    ∷ codes "MERGE"
    ∷ codes "CREATE"
    ∷ codes "DROP"
    ∷ codes "ALTER"
    ∷ codes "TRUNCATE"
    ∷ codes "EXPLAIN"
    ∷ codes "SHOW"
    ∷ codes "DESCRIBE"
    ∷ codes "USE"
    ∷ codes "CALL"
    ∷ codes "SET"
    ∷ codes "RESET"
    ∷ codes "GRANT"
    ∷ codes "REVOKE"
    ∷ codes "COMMENT"
    ∷ codes "ANALYZE"
    ∷ codes "REFRESH"
    ∷ codes "VALUES"
    ∷ codes "PREPARE"
    ∷ codes "EXECUTE"
    ∷ codes "DEALLOCATE"
    ∷ codes "START"
    ∷ codes "COMMIT"
    ∷ codes "ROLLBACK"
    ∷ []

unfoldable pub is_statement_keyword : Text → Bool
is_statement_keyword = contains statement_keywords

-- keywordAt at index 0, the one index that the source passes
unfoldable pub keyword_at : List Token → Text
keyword_at [] = []
keyword_at (t ∷ ts) = let later = keyword_at ts in if t.quoted then later else to_upper t.text

abbrev is_text : Text → Token → Bool
is_text s t = text_eq t.text s

-- The scan of mainAfterWith over the tokens behind WITH. A quoted "(" counts as a parenthesis, as in
-- the source.
unfoldable pub main_after_with : ℕ → List Token → Option Text
main_after_with depth [] = none
main_after_with depth (t ∷ ts) =
    let inside = main_after_with (suc depth) ts in
    let outside = main_after_with (depth - 1) ts in
    let on = main_after_with depth ts in
    let kw = to_upper t.text in
    if is_text (codes "(") t
    then inside
    else if is_text (codes ")") t
    then outside
    else if ltb 0 depth || t.quoted
    then on
    else if is_statement_keyword kw
    then some kw
    else on

abbrev pub tail_of : List Token → List Token
tail_of [] = []
tail_of (t ∷ ts) = ts

abbrev select_or : Option Text → Option Text
select_or none = some (codes "SELECT")
select_or (some kw) = some kw

unfoldable pub statement_type : List Token → Option Text
statement_type toks =
    let first = keyword_at toks in
    if text_eq first (codes "EXPLAIN")
    then some (codes "EXPLAIN")
    else if text_eq first (codes "WITH")
    then select_or (main_after_with 0 (tail_of toks))
    else if is_statement_keyword first
    then some first
    else none

abbrev read_keywords : List Text
read_keywords = codes "SELECT" ∷ codes "VALUES" ∷ codes "DESCRIBE" ∷ codes "SHOW" ∷ []

abbrev write_keywords : List Text
write_keywords =
    codes "INSERT" ∷ codes "UPDATE" ∷ codes "DELETE" ∷ codes "MERGE" ∷ codes "TRUNCATE" ∷ []

abbrev ddl_keywords : List Text
ddl_keywords =
    codes "CREATE"
    ∷ codes "DROP"
    ∷ codes "ALTER"
    ∷ codes "COMMENT"
    ∷ codes "REFRESH"
    ∷ codes "ANALYZE"
    ∷ []

unfoldable pub category_for : Text → Category
category_for kw =
    if contains read_keywords kw
    then read
    else if contains write_keywords kw
    then write
    else if contains ddl_keywords kw
    then ddl
    else if text_eq kw (codes "EXPLAIN")
    then explain
    else other

unfoldable pub category_for_type : Text → Category
category_for_type kw = category_for (to_upper (trim_space kw))
