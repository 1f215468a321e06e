-- ===== src/Sqlmeta/Analyze.antt =====
-- The analysis of a SQL body: Heuristic.analyze of routing-service/internal/sqlmeta/heuristic.go, and
-- QueryMeta and Noop of analyzer.go.
pub mod Meta
pub mod Contents
use trino_goway.Base.{
  ℕ, Bool, true, false, ◌&&◌, not, Option, none, some, List, [], ◌∷◌, ◌++◌, ltb, leb, if◌then◌else◌,
  length, take, Text, is_empty,
}
use trino_goway.Sqlmeta.Lexer.{Token, tokenize}
use trino_goway.Sqlmeta.Statement.{Category, other, statement_type, category_for}
use trino_goway.Sqlmeta.Refs.{RawRef, extract_table_refs}
use trino_goway.Sqlmeta.Names.{Name, StringSet, qualify, join_name, set_add, sorted}

pub record QueryMeta : Type 0 where
  pub query_type : Text
  pub category : Category
  pub catalogs : List Text
  pub schemas : List Text
  pub catalog_schemas : List Text
  pub tables : List Text
  pub parse_ok : Bool

abbrev pub empty_meta : QueryMeta
empty_meta = record {
  query_type = [];
  category = other;
  catalogs = [];
  schemas = [];
  catalog_schemas = [];
  tables = [];
  parse_ok = false;
}

abbrev pub default_max_body_bytes : ℕ
default_max_body_bytes = 262144

-- the four sets of the loop over the references
pub record Sets : Type 0 where
  pub catalogs : StringSet
  pub schemas : StringSet
  pub catalog_schemas : StringSet
  pub tables : StringSet

abbrev pub no_sets : Sets
no_sets = record { catalogs = []; schemas = []; catalog_schemas = []; tables = [] }

abbrev pub dot : Text → Text → Text
dot c s = c ++ (b'.' ∷ s)

-- the body of the loop
unfoldable pub add_name : Name → Sets → Sets
add_name n sets = if is_empty n.table then sets else record {
  catalogs = if is_empty n.catalog then sets.catalogs else set_add n.catalog sets.catalogs;
  schemas = if is_empty n.schema then sets.schemas else set_add n.schema sets.schemas;
  catalog_schemas =
      if not (is_empty n.catalog) && not (is_empty n.schema)
      then set_add (dot n.catalog n.schema) sets.catalog_schemas
      else sets.catalog_schemas;
  tables = set_add (join_name n.catalog n.schema n.table) sets.tables;
}

unfoldable pub collect : Text → Text → Sets → List RawRef → Sets
collect dc ds sets [] = sets
collect dc ds sets (ref ∷ refs) = collect dc ds (add_name (qualify ref dc ds) sets) refs

abbrev pub meta_of : Text → Sets → QueryMeta
meta_of kind sets = record {
  query_type = kind;
  category = category_for kind;
  catalogs = sorted sets.catalogs;
  schemas = sorted sets.schemas;
  catalog_schemas = sorted sets.catalog_schemas;
  tables = sorted sets.tables;
  parse_ok = true;
}

-- what the tokens say; no token gives no statement type, which is the source's first test
unfoldable pub analyze_tokens : List Token → Text → Text → QueryMeta
analyze_tokens [] dc ds = empty_meta
analyze_tokens (t ∷ ts) dc ds = elim (statement_type (t ∷ ts)) [
  | none ↦ empty_meta
  | some kind ↦ meta_of kind (collect dc ds no_sets (extract_table_refs (t ∷ ts)))
]

-- `max_body_bytes` is the field of Heuristic; the second component says that the body was truncated
unfoldable pub analyze : ℕ → Text → Text → Text → QueryMeta × Bool
analyze max_body_bytes sql dc ds =
    let limit = if ltb 0 max_body_bytes then max_body_bytes else default_max_body_bytes in
    if ltb limit (length sql)
    then (analyze_tokens (tokenize (take limit sql)) dc ds, true)
    else (analyze_tokens (tokenize sql) dc ds, false)
