-- ===== src/Engine/Pipeline/First.antt =====
-- The first method that decides wins; errors and panics only leave a flag.
use trino_goway.Base.{
  ◌≡◌, ◌∙◌, ap, Bool, true, false, not, ◌&&◌, ◌||◌, none, some, List, [], ◌∷◌, ◌++◌, arith, Text,
  All, is_empty,
}
use trino_goway.Engine.Method.{Decision, RouteInput, RoutingMethod}
use trino_goway.Engine.Pipeline.{
  Pipeline, load, group_or, decided_result, evaluate_loop, evaluate, result_loop, evaluate_result,
  safe_evaluate, is_disabled, type_of,
}

-- The method is asked, and fails.
unfoldable pub errs : RouteInput → RoutingMethod → Bool
errs input m = not (is_disabled m) && elim (safe_evaluate m input) [ none ↦ true | some d ↦ false ]

pub any_errs : RouteInput → List RoutingMethod → Bool
any_errs input [] = false
any_errs input (m ∷ ms) = errs input m || any_errs input ms

-- The method is switched off, fails, or has no opinion.
pub data PassesOn (input : RouteInput) (m : RoutingMethod) : Type 0 where
  off : is_disabled m ≡ true → PassesOn input m
  fails : safe_evaluate m input ≡ none → PassesOn input m
  undecided : (d : Decision) → safe_evaluate m input ≡ some d → d.decided ≡ false → PassesOn input m

-- The method is asked and decides `d`.
pub record Decides (input : RouteInput) (m : RoutingMethod) (d : Decision) : Type 0 where
  pub on : is_disabled m ≡ false
  pub answer : safe_evaluate m input ≡ some d
  pub final : d.decided ≡ true

result_loop_skip :
    (dg : Text) (input : RouteInput) (e : Bool) (m : RoutingMethod) (ms : List RoutingMethod)
    → PassesOn input m
    → result_loop dg input e (m ∷ ms) ≡ result_loop dg input (e || errs input m) ms
unfolding result_loop errs
result_loop_skip dg input e m ms (off h) = ground arith
result_loop_skip dg input e m ms (fails h) = ground arith
result_loop_skip dg input e m ms (undecided d h k) = ground arith

result_loop_pass :
    (dg : Text) (input : RouteInput) (e : Bool) (pre ms : List RoutingMethod)
    → All (PassesOn input) pre
    → result_loop dg input e (pre ++ ms) ≡ result_loop dg input (e || any_errs input pre) ms
unfolding any_errs
result_loop_pass dg input e [] ms h = ap (λ (b : Bool). result_loop dg input b ms) (ground arith)
result_loop_pass dg input e (m ∷ pre) ms h =
    result_loop_skip dg input e m (pre ++ ms) h.0
    ∙ result_loop_pass dg input (e || errs input m) pre ms h.1
    ∙ ap (λ (b : Bool). result_loop dg input b ms) (ground arith)

-- The answer is that of the first method that decides: the methods before it are off, fail or have no
-- opinion, and leave only the flag that one of them failed; those behind it have no say. An empty
-- group in the decision stands for the default group.
pub evaluate_result_first :
    (p : Pipeline) (input : RouteInput) (pre : List RoutingMethod) (m : RoutingMethod)
    (post : List RoutingMethod) (d : Decision)
    → load p ≡ pre ++ (m ∷ post)
    → All (PassesOn input) pre
    → Decides input m d
    → evaluate_result p input
      ≡ decided_result (group_or p.default_group d.routing_group) (type_of m) (any_errs input pre)
unfolding evaluate_result
evaluate_result_first p input pre m post d e h k =
    ap (result_loop p.default_group input false) e
    ∙ result_loop_pass p.default_group input false pre (m ∷ post) h
    ∙ (unfold result_loop in ground (arith, k.on, k.answer, k.final))

evaluate_loop-ne_nil :
    (dg : Text) (input : RouteInput) (ms : List RoutingMethod)
    → is_empty dg ≡ false
    → is_empty (evaluate_loop dg input ms) ≡ false
unfolding evaluate_loop
evaluate_loop-ne_nil dg input [] h = h
evaluate_loop-ne_nil dg input (m ∷ ms) h = ground (arith, evaluate_loop-ne_nil dg input ms h)

-- With a default group that is not empty, the chosen group is not empty, whatever the methods do.
pub evaluate-ne_nil :
    (p : Pipeline) (input : RouteInput)
    → is_empty p.default_group ≡ false
    → is_empty (evaluate p input) ≡ false
unfolding evaluate
evaluate-ne_nil p input h = evaluate_loop-ne_nil p.default_group input (load p) h
