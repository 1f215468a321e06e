-- ===== src/Engine/Pipeline/Agree.antt =====
-- The three entry points of the pipeline give one answer.
use trino_goway.Base.{◌≡◌, refl, Bool, true, false, List, [], ◌∷◌, arith, Text}
use trino_goway.Engine.Method.{RouteInput, RoutingMethod}
use trino_goway.Engine.Pipeline.{
  Pipeline, load, evaluate_loop, evaluate, result_loop, evaluate_result, full_loop, evaluate_full,
}

evaluate_loop-result_loop :
    (dg : Text) (input : RouteInput) (had_err : Bool) (ms : List RoutingMethod)
    → (result_loop dg input had_err ms).routing_group ≡ evaluate_loop dg input ms
unfolding evaluate_loop result_loop
evaluate_loop-result_loop dg input e [] = refl
evaluate_loop-result_loop dg input e (m ∷ ms) =
    ground
      (arith, evaluate_loop-result_loop dg input e ms, evaluate_loop-result_loop dg input true ms)

evaluate_loop-full_loop :
    (dg : Text) (input : RouteInput) (had_err : Bool) (ms : List RoutingMethod)
    → ((full_loop dg input ms).routing_group ≡ evaluate_loop dg input ms)
      × ((full_loop dg input ms).decided ≡ (result_loop dg input had_err ms).decided)
unfolding evaluate_loop full_loop result_loop
evaluate_loop-full_loop dg input e [] = (refl, refl)
evaluate_loop-full_loop dg input e (m ∷ ms) =
    ground (arith, evaluate_loop-full_loop dg input e ms, evaluate_loop-full_loop dg input true ms)

-- Evaluate, EvaluateResult and EvaluateFull choose the same group, and the latter two say alike
-- whether a method decided.
pub entry_points_agree :
    (p : Pipeline) (input : RouteInput)
    → ((evaluate_result p input).routing_group ≡ evaluate p input)
      × ((evaluate_full p input).routing_group ≡ evaluate p input)
      × ((evaluate_full p input).decided ≡ (evaluate_result p input).decided)
unfolding evaluate evaluate_result evaluate_full
entry_points_agree p input =
    let full = evaluate_loop-full_loop p.default_group input false (load p) in
    (evaluate_loop-result_loop p.default_group input false (load p), full.0, full.1)
