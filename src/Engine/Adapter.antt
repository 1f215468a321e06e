-- ===== src/Engine/Adapter.antt =====
-- routing-service/internal/engine/adapter.go: the evaluator behind the gRPC server. The observer's
-- duration is left out; a call of the observer is a value returned beside the input.
pub mod Authority
use trino_goway.Base.{
  ℕ, Bool, true, false, not, ◌&&◌, ◌||◌, Option, none, some, if◌then◌else◌, Text, is_empty,
}
use trino_goway.Sqlmeta.Statement.{category_for_type}
use trino_goway.Sqlmeta.Analyze.{QueryMeta, empty_meta, analyze}
use trino_goway.Engine.Method.{RouteInput}
use trino_goway.Engine.Input.{RouteRequest, from_proto, has_parsed_sql}
use trino_goway.Engine.Pipeline.{Pipeline, EvalResult, evaluate, evaluate_result, summarize}

-- the implementations of SQLAnalyzer; `backend` stands for any other one
pub data Analyzer : Type 0 where
  noop : Analyzer
  heuristic : ℕ → Analyzer
  backend : (Text → Text → Text → QueryMeta) → Analyzer

-- the metadata, and whether the body was truncated, which only the heuristic reports
unfoldable pub analyze_with : Analyzer → Text → Text → Text → QueryMeta × Bool
analyze_with noop sql dc ds = (empty_meta, false)
analyze_with (heuristic cap) sql dc ds = analyze cap sql dc ds
analyze_with (backend f) sql dc ds = (f sql dc ds, false)

pub data SqlResult : Type 0 where
  parsed nothing_found : SqlResult

abbrev pub sql_result : QueryMeta → SqlResult
sql_result m = if m.parse_ok then parsed else nothing_found

abbrev pub Observation : Type 0
Observation = Option (SqlResult × Bool)

abbrev pub with_meta : QueryMeta → RouteInput → RouteInput
with_meta m i = record i {
  query_type = m.query_type;
  query_category = some m.category;
  catalogs = m.catalogs;
  schemas = m.schemas;
  catalog_schemas = m.catalog_schemas;
  tables = m.tables;
  parse_ok = m.parse_ok;
}

unfoldable pub fill_sql_meta : Analyzer → RouteInput → RouteInput × Observation
fill_sql_meta a i =
    if not i.is_new || is_empty i.body || has_parsed_sql i
    then (i, none)
    else let (m, truncated) = analyze_with a i.body i.catalog i.schema in
      (with_meta m i, some (sql_result m, truncated))

abbrev pub no_category : RouteInput → Bool
no_category i = elim i.query_category [ none ↦ true | some c ↦ false ]

unfoldable pub with_category : RouteInput → RouteInput
with_category i =
    if has_parsed_sql i && (not (is_empty i.query_type) && no_category i)
    then record i { query_category = some (category_for_type i.query_type) }
    else i

unfoldable pub input_from_proto : Analyzer → Option RouteRequest → RouteInput × Observation
input_from_proto a req = fill_sql_meta a (with_category (from_proto req))

unfoldable pub evaluator_evaluate : Analyzer → Pipeline → Option RouteRequest → Text
evaluator_evaluate a p req = evaluate p (input_from_proto a req).0

unfoldable pub evaluator_result : Analyzer → Pipeline → Option RouteRequest → EvalResult
evaluator_result a p req =
    let i = (input_from_proto a req).0 in record (evaluate_result p i) { sql = summarize i }
