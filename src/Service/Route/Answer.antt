-- ===== src/Service/Route/Answer.antt =====
-- What the routing service answers, and what it reports of it.
use trino_goway.Base.{
  ◌≡◌, refl, ap, ◌∙◌, Bool, true, false, ◌&&◌, Option, List, [], ◌∷◌, ◌++◌, arith, if◌then◌else◌,
  Text, is_empty, All, Bool-cases, inl, inr, All-append,
}
use trino_goway.Engine.Pipeline.{Pipeline, EvalResult}
use trino_goway.Engine.Pipeline.Agree.{entry_points_agree}
use trino_goway.Engine.Pipeline.First.{evaluate-ne_nil}
use trino_goway.Engine.Input.{RouteRequest}
use trino_goway.Engine.Adapter.{Analyzer, input_from_proto, evaluator_evaluate, evaluator_result}
use trino_goway.Service.Route.{
  Server, Report, DecisionFields, fields, should_log, log_decision, requests_total, fallback_total,
  decision, config_version_set, route, respond, is_evaluated, group_of, classify_outcome,
  record_decision, DecisionOutcome, fallback, decided, error,
}

-- The report names this group.
abbrev pub Names : Text → Report → Type 0
Names g (requests_total source group method o) = group ≡ g
Names g fallback_total = Unit
Names g (decision f) = f.routing_group ≡ g
Names g (config_version_set hash) = Unit

abbrev pub decisions : List Report → List Bool
decisions [] = []
decisions (decision f ∷ rs) = f.is_fallback ∷ decisions rs
decisions (requests_total source group method o ∷ rs) = decisions rs
decisions (fallback_total ∷ rs) = decisions rs
decisions (config_version_set hash ∷ rs) = decisions rs

record_decision-Names :
    (source g method : Text) (o : DecisionOutcome)
    → All (Names g) (record_decision source g method o)
unfolding record_decision
record_decision-Names source g method decided = (refl, tt)
record_decision-Names source g method fallback = (refl, (tt, tt))
record_decision-Names source g method error = (refl, tt)

decisions-record_decision :
    (source g method : Text) (o : DecisionOutcome) (rs : List Report)
    → decisions (record_decision source g method o ++ rs) ≡ decisions rs
unfolding record_decision
decisions-record_decision source g method decided rs = refl
decisions-record_decision source g method fallback rs = refl
decisions-record_decision source g method error rs = refl

log_decision-Names :
    (sampled : Bool) (f : DecisionFields) → All (Names f.routing_group) (log_decision sampled f)
unfolding log_decision
log_decision-Names sampled f = elim (Bool-cases (should_log sampled f.is_fallback)) [
  | inl e ↦ rw e (refl, tt)
  | inr e ↦ rw e tt
]

decisions-log :
    (s : Server) (sampled : Bool) (req : Option RouteRequest) (res : EvalResult)
    → decisions (log_decision sampled (fields s req res))
      ≡ (if res.decided then (if sampled then false ∷ [] else []) else true ∷ [])
unfolding log_decision should_log
decisions-log s sampled req res = ground arith

respond-Names :
    (s : Server) (sampled : Bool) (req : Option RouteRequest) (res : EvalResult)
    → All (Names (group_of s res)) (respond s sampled req res).1
unfolding respond
respond-Names s sampled req res = elim (Bool-cases s.has_metrics) [
  | inl e ↦ rw e (
      All-append _ (record_decision _ _ _ (classify_outcome res)) _
        (record_decision-Names _ _ _ (classify_outcome res)) (log_decision-Names sampled _))
  | inr e ↦ rw e (log_decision-Names sampled _)
]

decisions-respond :
    (s : Server) (sampled : Bool) (req : Option RouteRequest) (res : EvalResult)
    → decisions (respond s sampled req res).1
      ≡ (if res.decided then (if sampled then false ∷ [] else []) else true ∷ [])
unfolding respond
decisions-respond s sampled req res = elim (Bool-cases s.has_metrics) [
  | inl e ↦
      rw e
        (decisions-record_decision _ _ _ (classify_outcome res) _ ∙ decisions-log s sampled req res)
  | inr e ↦ rw e (decisions-log s sampled req res)
]

evaluator_result-group :
    (a : Analyzer) (p : Pipeline) (req : Option RouteRequest)
    → (evaluator_result a p req).routing_group ≡ evaluator_evaluate a p req
unfolding evaluator_result evaluator_evaluate
evaluator_result-group a p req = (entry_points_agree p (input_from_proto a req).0).0

evaluator_evaluate-ne_nil :
    (a : Analyzer) (p : Pipeline) (req : Option RouteRequest)
    → is_empty p.default_group ≡ false
    → is_empty (evaluator_evaluate a p req) ≡ false
unfolding evaluator_evaluate
evaluator_evaluate-ne_nil a p req h = evaluate-ne_nil p (input_from_proto a req).0 h

-- The service answers a new submission with the group that the pipeline evaluates to, or the server's
-- default group if that is empty, and everything else with no group. All that it reports names the group
-- of the answer. For an evaluation in which no method decided one decision is logged, marked as a
-- fallback; for one in which a method did, one that is not so marked, if the sampler draws it; and none
-- without an evaluation.
pub route_answer :
    (a : Analyzer) (p : Pipeline) (s : Server) (sampled : Bool) (req : Option RouteRequest)
    → let r = route s sampled (evaluator_result a p) req in
      let g = evaluator_evaluate a p req in
      (r.0 ≡ (if is_evaluated req then (if is_empty g then s.default_routing_group else g) else []))
      × All (Names r.0) r.1
      × (decisions r.1 ≡ (
          if is_evaluated req
          then (if (evaluator_result a p req).decided
              then (if sampled then false ∷ [] else [])
              else true ∷ [])
          else []))
unfolding route respond evaluator_result
route_answer a p s sampled req = elim (Bool-cases (is_evaluated req)) [
  | inl e ↦ rw e (
    ap (λ (g : Text). if is_empty g then s.default_routing_group else g)
        (evaluator_result-group a p req),
    respond-Names s sampled req (evaluator_result a p req),
    decisions-respond s sampled req (evaluator_result a p req),
  )
  | inr e ↦ rw e (refl, tt, refl)
]

-- With a default group that is not empty, at the pipeline or at the server, the answer to a new
-- submission is a group that is not empty, whatever the methods do.
pub route_names_group :
    (a : Analyzer) (p : Pipeline) (s : Server) (sampled : Bool) (req : Option RouteRequest)
    → is_evaluated req ≡ true
    → (is_empty p.default_group && is_empty s.default_routing_group) ≡ false
    → is_empty (route s sampled (evaluator_result a p) req).0 ≡ false
unfolding route respond
route_names_group a p s sampled req h k =
    ground (arith, evaluator_result-group a p req, evaluator_evaluate-ne_nil a p req)
