-- ===== src/Engine/Examples.antt =====
-- Runs of the pipeline and the adapter of routing-service/internal/engine.
use trino_goway.Base.{
  ◌≡◌, refl, true, false, none, some, List, [], ◌∷◌, ◌++◌, Text, codes, text_eq, contains,
}
use trino_goway.Engine.Method.{
  Decision, no_decision, Outcome, returned, panicked, RoutingMethod, provider, hash_pct,
}
use trino_goway.Engine.Pipeline.{
  Pipeline, update_first, result_loop, load, type_of, is_disabled, safe_evaluate, evaluate_method,
  evaluate, evaluate_result, evaluate_full, decided_result, update_method, disable_method,
  enable_method, disable_one,
}
use trino_goway.Engine.Pipeline.First.{
  PassesOn, fails, undecided, Decides, any_errs, evaluate_result_first,
}
use trino_goway.Engine.Pipeline.Agree.{entry_points_agree}
use trino_goway.Engine.Pipeline.Switches.{IsFirst, last_of, update_method_interleaved}
use trino_goway.Engine.Pipeline.Disabled.{
  Switch, turned_off, turned_on, switched_all, disabled_never_decides,
}
use trino_goway.Engine.Input.{RouteRequest, zero_input}

abbrev answering : Text → Outcome → RoutingMethod
answering name o = provider (record { type_name = name; evaluate = λ i. o })

abbrev to_group : Text → Decision
to_group g = record no_decision { routing_group = g; decided = true }

-- a method that panics, one with no opinion, and one that decides
abbrev broken : RoutingMethod
broken = answering (codes "script") panicked

abbrev silent : RoutingMethod
silent = answering (codes "expr") (returned no_decision)

abbrev decisive : RoutingMethod
decisive = answering (codes "rules") (returned (to_group (codes "etl")))

abbrev pipeline : Pipeline
pipeline = record {
  methods = some (broken ∷ silent ∷ decisive ∷ []);
  default_group = codes "adhoc";
  ready = true;
}

broken-PassesOn : PassesOn zero_input broken
unfolding safe_evaluate evaluate_method
broken-PassesOn = fails refl

silent-PassesOn : PassesOn zero_input silent
unfolding safe_evaluate evaluate_method
silent-PassesOn = undecided no_decision refl refl

decisive-Decides : Decides zero_input decisive (to_group (codes "etl"))
unfolding safe_evaluate evaluate_method is_disabled
decisive-Decides = record { on = refl; answer = refl; final = refl }

evaluate_result_first_example :
    evaluate_result pipeline zero_input
    ≡ decided_result (codes "etl") (type_of decisive) (any_errs zero_input (broken ∷ silent ∷ []))
evaluate_result_first_example =
    evaluate_result_first pipeline zero_input (broken ∷ silent ∷ []) decisive []
      (to_group (codes "etl")) refl (broken-PassesOn, (silent-PassesOn, tt)) decisive-Decides

entry_points_agree_example :
    ((evaluate_result pipeline zero_input).routing_group ≡ evaluate pipeline zero_input)
    × ((evaluate_full pipeline zero_input).routing_group ≡ evaluate pipeline zero_input)
    × ((evaluate_full pipeline zero_input).decided ≡ (evaluate_result pipeline zero_input).decided)
entry_points_agree_example = entry_points_agree pipeline zero_input

update_method_interleaved_example :
    (before : List RoutingMethod) × (m : RoutingMethod) × (after : List RoutingMethod) × IsFirst
      (codes "rules")
      before
      m
      after
      (last_of (load pipeline) ((decisive ∷ []) ∷ []))
    × (update_method (codes "rules") disable_one ((decisive ∷ []) ∷ []) pipeline
        ≡ record pipeline { methods = some (before ++ disable_one m ∷ after) })
unfolding contains type_of text_eq
update_method_interleaved_example =
    update_method_interleaved (codes "rules") disable_one ((decisive ∷ []) ∷ []) pipeline
      (refl, (refl, tt))

abbrev two_deciders : Pipeline
two_deciders = record pipeline {
  methods = some (answering (codes "expr") (returned (to_group (codes "bi"))) ∷ decisive ∷ []);
}

-- another method is turned off and on
abbrev later : List Switch
later = turned_off (codes "rules") ∷ turned_on (codes "rules") ∷ []

disabled_never_decides_example :
    text_eq
      (evaluate_result
        (switched_all later (disable_method (codes "expr") two_deciders))
        zero_input).method_type
      (codes "expr")
    ≡ false
unfolding text_eq type_of contains evaluate_result disable_method enable_method update_method
    update_first result_loop is_disabled safe_evaluate evaluate_method
disabled_never_decides_example =
    disabled_never_decides (codes "expr") two_deciders later zero_input (refl, (refl, tt))
      (refl, (refl, tt)) refl

abbrev old_query : RouteRequest
old_query = record {
  trino_query_properties = none;
  trino_request_user = some (codes "alice");
  method = codes "GET";
  request_uri = codes "/v1/query/1";
  remote_addr = [];
  parameter_map = [];
  trino_source = codes "cli";
  client_tags = [];
}

hash_of_alice : hash_pct (codes "alice") ≡ 83
unfolding hash_pct
hash_of_alice = refl
