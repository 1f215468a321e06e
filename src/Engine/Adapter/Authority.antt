-- ===== src/Engine/Adapter/Authority.antt =====
-- What the gateway has parsed is not parsed again.
use trino_goway.Base.{◌≡◌, refl, true, not, ◌||◌, Option, none, arith, is_empty}
use trino_goway.Engine.Method.{RouteInput}
use trino_goway.Engine.Input.{RouteRequest, from_proto, has_parsed_sql}
use trino_goway.Engine.Pipeline.{Pipeline}
use trino_goway.Engine.Adapter.{
  Analyzer, fill_sql_meta, with_category, input_from_proto, evaluator_evaluate,
}

with_category_same :
    (i : RouteInput)
    → (has_parsed_sql (with_category i) ≡ has_parsed_sql i)
      × ((with_category i).is_new ≡ i.is_new)
      × ((with_category i).body ≡ i.body)
unfolding with_category has_parsed_sql
with_category_same i = ground arith

skipped :
    (a : Analyzer) (req : Option RouteRequest)
    → (let i = from_proto req in not i.is_new || is_empty i.body || has_parsed_sql i) ≡ true
    → fill_sql_meta a (with_category (from_proto req)) ≡ (with_category (from_proto req), none)
unfolding fill_sql_meta
skipped a req h = ground (arith, with_category_same (from_proto req))

-- A request that is no new submission, has no body, or came with parsed fields is not analysed: the
-- observer is not called, the input is that of the proto with at most its category filled in, and no
-- choice of the analyzer changes the group.
pub no_analysis :
    (a b : Analyzer) (p : Pipeline) (req : Option RouteRequest)
    → (let i = from_proto req in not i.is_new || is_empty i.body || has_parsed_sql i) ≡ true
    → (input_from_proto a req ≡ (with_category (from_proto req), none))
      × (evaluator_evaluate a p req ≡ evaluator_evaluate b p req)
unfolding input_from_proto evaluator_evaluate
no_analysis a b p req h = rw (skipped a req h, skipped b req h) (refl, refl)
