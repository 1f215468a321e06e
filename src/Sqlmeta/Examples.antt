-- ===== src/Sqlmeta/Examples.antt =====
-- Runs of the analysis of routing-service/internal/sqlmeta on small bodies.
use trino_goway.Base.{
  ◌≡◌, refl, text_eq, text_lt, to_upper, to_lower, trim_space, false, some, List, [], ◌∷◌, arith,
  Text, codes, contains,
}
use trino_goway.Sqlmeta.Lexer.{
  Token, is_ident_char, skip_line, scan_delimited, span_ident, lex_step, tokenize_loop, tokenize,
}
use trino_goway.Sqlmeta.Statement.{
  is_statement_keyword, keyword_at, main_after_with, statement_type,
}
use trino_goway.Sqlmeta.Refs.{
  is_anchor, is_stop, has_text, next_is, part_text, dotted, blocks_ref, read_ref, skip_alias,
  skip_only, read_refs, refs_step, refs_loop, extract_table_refs,
}
use trino_goway.Sqlmeta.Refs.Fuel.{extract_table_refs_fuel}
use trino_goway.Sqlmeta.Names.{qualify, join_name, set_add, insert_sorted, sorted}
use trino_goway.Sqlmeta.Analyze.{add_name, collect, analyze_tokens, analyze}
use trino_goway.Sqlmeta.Analyze.Meta.{IsTidy, analyze-IsTidy}
use trino_goway.Sqlmeta.Analyze.Contents.{
  contains-analyze_tokens, mentions, has_catalog, has_schema, has_catalog_schema, has_table,
}

abbrev word : Text → Token
word t = record { text = t; quoted = false }

-- SELECT a FROM x.t
abbrev one_table : List Token
one_table =
    word (codes "SELECT")
    ∷ word (codes "a")
    ∷ word (codes "FROM")
    ∷ word (codes "x")
    ∷ word (codes ".")
    ∷ word (codes "t")
    ∷ []

one_table_tokens : tokenize (codes "SELECT a FROM x.t -- all") ≡ one_table
unfolding tokenize tokenize_loop lex_step span_ident is_ident_char skip_line
one_table_tokens = refl

one_table_type : statement_type one_table ≡ some (codes "SELECT")
unfolding statement_type keyword_at is_statement_keyword text_eq to_upper contains
one_table_type = refl

two_references :
    (analyze_tokens
      (tokenize (codes "WITH c AS (SELECT 1) SELECT * FROM a.b.c AS x JOIN \"Old t\" ON 1=1"))
      (codes "cat")
      (codes "sch")).tables
    ≡ codes "a.b.c" ∷ codes "cat.sch.Old t" ∷ []
unfolding tokenize tokenize_loop lex_step span_ident is_ident_char scan_delimited analyze_tokens
    statement_type keyword_at main_after_with is_statement_keyword extract_table_refs refs_loop
    refs_step read_refs is_anchor is_stop has_text next_is part_text dotted blocks_ref read_ref
    skip_alias skip_only qualify join_name add_name collect set_add insert_sorted sorted text_eq
    to_upper contains to_lower trim_space text_lt
two_references = refl

contains-analyze_tokens_example :
    (contains (analyze_tokens one_table (codes "c") []).catalogs (codes "c")
      ≡ mentions (has_catalog (codes "c")) (codes "c") [] (extract_table_refs one_table))
    × (contains (analyze_tokens one_table (codes "c") []).schemas (codes "c")
        ≡ mentions (has_schema (codes "c")) (codes "c") [] (extract_table_refs one_table))
    × (contains (analyze_tokens one_table (codes "c") []).catalog_schemas (codes "c")
        ≡ mentions (has_catalog_schema (codes "c")) (codes "c") [] (extract_table_refs one_table))
    × (contains (analyze_tokens one_table (codes "c") []).tables (codes "c")
        ≡ mentions (has_table (codes "c")) (codes "c") [] (extract_table_refs one_table))
contains-analyze_tokens_example =
    contains-analyze_tokens one_table (codes "c") [] (codes "c") one_table_type

analyze-IsTidy_example : IsTidy (analyze 0 (codes "SELECT * FROM b, a, b") [] []).0
analyze-IsTidy_example = analyze-IsTidy 0 (codes "SELECT * FROM b, a, b") [] []

extract_table_refs_fuel_example :
    (read_refs 6 one_table ≡ read_refs 9 one_table)
    × (refs_loop 6 one_table ≡ extract_table_refs one_table)
extract_table_refs_fuel_example = extract_table_refs_fuel 6 9 one_table (omega arith) (omega arith)
