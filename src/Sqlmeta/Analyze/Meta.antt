-- ===== src/Sqlmeta/Analyze/Meta.antt =====
-- What a query's metadata holds.
use trino_goway.Base.{
  IsDistinct, ℕ, inl, inr, List, [], ◌∷◌, arith, ltb, if◌then◌else◌, length, Text, Bool-cases,
  Option-cases,
}
use trino_goway.Sqlmeta.Lexer.{Token}
use trino_goway.Sqlmeta.Statement.{statement_type}
use trino_goway.Sqlmeta.Refs.{RawRef, extract_table_refs}
use trino_goway.Sqlmeta.Names.{Name, qualify, join_name}
use trino_goway.Sqlmeta.Names.Sorted.{IsAscending, sorted-IsAscending, set_add-IsDistinct}
use trino_goway.Sqlmeta.Analyze.{
  QueryMeta, empty_meta, default_max_body_bytes, Sets, no_sets, dot, add_name, collect, meta_of,
  analyze_tokens, analyze,
}

-- the sets of the loop hold nothing twice
record AreDistinct (s : Sets) : Type 0 where
  catalogs : IsDistinct s.catalogs
  schemas : IsDistinct s.schemas
  catalog_schemas : IsDistinct s.catalog_schemas
  tables : IsDistinct s.tables

add_name-AreDistinct : (n : Name) (s : Sets) → AreDistinct s → AreDistinct (add_name n s)
unfolding add_name
add_name-AreDistinct n s d = ground (
  arith,
  set_add-IsDistinct n.catalog s.catalogs,
  set_add-IsDistinct n.schema s.schemas,
  set_add-IsDistinct (dot n.catalog n.schema) s.catalog_schemas,
  set_add-IsDistinct (join_name n.catalog n.schema n.table) s.tables,
)

collect-AreDistinct :
    (dc ds : Text) (s : Sets) (refs : List RawRef)
    → AreDistinct s
    → AreDistinct (collect dc ds s refs)
unfolding collect
collect-AreDistinct dc ds s [] d = d
collect-AreDistinct dc ds s (ref ∷ refs) d =
    collect-AreDistinct dc ds (add_name (qualify ref dc ds) s) refs
      (add_name-AreDistinct (qualify ref dc ds) s d)

-- Every list of the metadata is in ascending order with nothing twice.
pub record IsTidy (m : QueryMeta) : Type 0 where
  pub catalogs : IsAscending m.catalogs
  pub schemas : IsAscending m.schemas
  pub catalog_schemas : IsAscending m.catalog_schemas
  pub tables : IsAscending m.tables

empty_meta-IsTidy : IsTidy empty_meta
empty_meta-IsTidy = record { catalogs = tt; schemas = tt; catalog_schemas = tt; tables = tt }

meta_of-IsTidy : (kind : Text) (s : Sets) → AreDistinct s → IsTidy (meta_of kind s)
meta_of-IsTidy kind s d = record {
  catalogs = sorted-IsAscending s.catalogs d.catalogs;
  schemas = sorted-IsAscending s.schemas d.schemas;
  catalog_schemas = sorted-IsAscending s.catalog_schemas d.catalog_schemas;
  tables = sorted-IsAscending s.tables d.tables;
}

analyze_tokens-IsTidy : (ts : List Token) (dc ds : Text) → IsTidy (analyze_tokens ts dc ds)
unfolding analyze_tokens
analyze_tokens-IsTidy [] dc ds = empty_meta-IsTidy
analyze_tokens-IsTidy (t ∷ ts) dc ds = elim (Option-cases (statement_type (t ∷ ts))) [
  | inl e ↦ rw (e, analyze_tokens) empty_meta-IsTidy
  | inr (kind, e) ↦
      rw (e, analyze_tokens)
        (meta_of-IsTidy kind _ (
          collect-AreDistinct dc ds no_sets (extract_table_refs (t ∷ ts))
            (record { catalogs = tt; schemas = tt; catalog_schemas = tt; tables = tt })))
]

-- Whatever the body, the four lists are strictly ascending: sorted, with nothing twice.
pub analyze-IsTidy : (limit : ℕ) (sql dc ds : Text) → IsTidy (analyze limit sql dc ds).0
unfolding analyze
analyze-IsTidy limit sql dc ds =
    elim (Bool-cases (ltb (if ltb 0 limit then limit else default_max_body_bytes) (length sql))) [
      | inl e ↦ rw e (analyze_tokens-IsTidy _ dc ds)
      | inr e ↦ rw e (analyze_tokens-IsTidy _ dc ds)
    ]
