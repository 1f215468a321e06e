-- ===== src/Engine/Pipeline.antt =====
-- routing-service/internal/engine/pipeline.go. The atomic pointer to the method slice is a field of
-- the state; a panic that safeEvaluate recovers is an error like any other.
pub mod Agree
pub mod First
pub mod Switches
pub mod Disabled
use trino_goway.Base.{
  ℕ, Bool, true, false, Option, none, some, List, [], ◌∷◌, if◌then◌else◌, length, Text, text_eq,
  is_empty,
}
use trino_goway.Sqlmeta.Statement.{Category}
use trino_goway.Engine.Method.{
  Decision, no_decision, RouteInput, Outcome, returned, failed, panicked, Provider, RoutingMethod,
  provider, disabled,
}

pub record Pipeline : Type 0 where
  pub methods : Option (List RoutingMethod)
  pub default_group : Text
  pub ready : Bool

unfoldable pub type_of : RoutingMethod → Text
type_of (provider m) = m.type_name
type_of (disabled m) = type_of m

unfoldable pub is_disabled : RoutingMethod → Bool
is_disabled (provider m) = false
is_disabled (disabled m) = true

-- Evaluate of the method, by dynamic dispatch
unfoldable pub evaluate_method : RoutingMethod → RouteInput → Outcome
evaluate_method (provider m) input = m.evaluate input
evaluate_method (disabled m) input = returned no_decision

abbrev pub recovered : Outcome → Option Decision
recovered (returned d) = some d
recovered failed = none
recovered panicked = none

-- `none` is an error
unfoldable pub safe_evaluate : RoutingMethod → RouteInput → Option Decision
unfolding evaluate_method
safe_evaluate m input = recovered (evaluate_method m input)

abbrev pub load : Pipeline → List RoutingMethod
load p = elim p.methods [ none ↦ [] | some ms ↦ ms ]

abbrev pub group_or : Text → Text → Text
group_or default_group g = if is_empty g then default_group else g

unfoldable pub evaluate_loop : Text → RouteInput → List RoutingMethod → Text
evaluate_loop dg input [] = dg
evaluate_loop dg input (m ∷ ms) =
    let rest = evaluate_loop dg input ms in
    if is_disabled m then rest else elim (safe_evaluate m input) [
      | none ↦ rest
      | some d ↦ if d.decided then group_or dg d.routing_group else rest
    ]

unfoldable pub evaluate : Pipeline → RouteInput → Text
evaluate p input = evaluate_loop p.default_group input (load p)

pub record SqlSummary : Type 0 where
  pub query_type : Text
  pub query_category : Option Category
  pub parse_ok : Bool
  pub catalog_count : ℕ
  pub schema_count : ℕ
  pub table_count : ℕ

abbrev pub no_summary : SqlSummary
no_summary = record {
  query_type = [];
  query_category = none;
  parse_ok = false;
  catalog_count = 0;
  schema_count = 0;
  table_count = 0;
}

unfoldable pub summarize : RouteInput → SqlSummary
summarize i = record {
  query_type = i.query_type;
  query_category = i.query_category;
  parse_ok = i.parse_ok;
  catalog_count = length i.catalogs;
  schema_count = length i.schemas;
  table_count = length i.tables;
}

pub record EvalResult : Type 0 where
  pub routing_group : Text
  pub method_type : Text
  pub decided : Bool
  pub had_error : Bool
  pub sql : SqlSummary

abbrev pub fallback_result : Text → Bool → EvalResult
fallback_result dg had_err = record {
  routing_group = dg;
  method_type = [];
  decided = false;
  had_error = had_err;
  sql = no_summary;
}

abbrev pub decided_result : Text → Text → Bool → EvalResult
decided_result g type_name had_err = record {
  routing_group = g;
  method_type = type_name;
  decided = true;
  had_error = had_err;
  sql = no_summary;
}

unfoldable pub result_loop : Text → RouteInput → Bool → List RoutingMethod → EvalResult
result_loop dg input had_err [] = fallback_result dg had_err
result_loop dg input had_err (m ∷ ms) =
    let on = result_loop dg input had_err ms in
    let on_err = result_loop dg input true ms in
    if is_disabled m then on else elim (safe_evaluate m input) [
      | none ↦ on_err
      | some d ↦
          if d.decided then decided_result (group_or dg d.routing_group) (type_of m) had_err else on
    ]

unfoldable pub evaluate_result : Pipeline → RouteInput → EvalResult
evaluate_result p input = result_loop p.default_group input false (load p)

unfoldable pub full_loop : Text → RouteInput → List RoutingMethod → Decision
full_loop dg input [] = record no_decision { routing_group = dg }
full_loop dg input (m ∷ ms) =
    let rest = full_loop dg input ms in
    if is_disabled m then rest else elim (safe_evaluate m input) [
      | none ↦ rest
      | some d ↦
          if d.decided then record d { routing_group = group_or dg d.routing_group } else rest
    ]

unfoldable pub evaluate_full : Pipeline → RouteInput → Decision
evaluate_full p input = full_loop p.default_group input (load p)

-- Swap and swap
unfoldable pub swap : Pipeline → List RoutingMethod → Pipeline
swap p ms = record p { methods = some ms; ready = true }

unfoldable pub new_pipeline : List RoutingMethod → Text → Pipeline
new_pipeline ms dg = record { methods = some ms; default_group = dg; ready = true }

abbrev pub disable_one : RoutingMethod → RoutingMethod
disable_one (provider m) = disabled (provider m)
disable_one (disabled m) = disabled m

abbrev pub enable_one : RoutingMethod → RoutingMethod
enable_one (provider m) = provider m
enable_one (disabled m) = m

-- the copy of the slice with `fn` applied to the first method of the type; `none` is `!found`
unfoldable pub update_first :
    Text → (RoutingMethod → RoutingMethod) → List RoutingMethod → Option (List RoutingMethod)
update_first name fn [] = none
update_first name fn (m ∷ ms) =
    let rest = update_first name fn ms in
    if text_eq (type_of m) name
    then some (fn m ∷ ms)
    else elim rest [ none ↦ none | some l ↦ some (m ∷ l) ]

-- One call of updateMethod. The list holds what other goroutines store between the load and the
-- compare-and-swap, one entry for each attempt that they spoil.
unfoldable pub update_method :
    Text → (RoutingMethod → RoutingMethod) → List (List RoutingMethod) → Pipeline → Pipeline
update_method name fn [] p = elim (update_first name fn (load p)) [
  | none ↦ p
  | some ms ↦ record p { methods = some ms }
]
update_method name fn (other ∷ others) p =
    let retry = update_method name fn others (record p { methods = some other }) in
    elim (update_first name fn (load p)) [ none ↦ p | some ms ↦ retry ]

unfoldable pub disable_method : Text → Pipeline → Pipeline
disable_method name p = update_method name disable_one [] p

unfoldable pub enable_method : Text → Pipeline → Pipeline
enable_method name p = update_method name enable_one [] p

unfoldable pub disabled_types : List RoutingMethod → List Text
disabled_types [] = []
disabled_types (m ∷ ms) =
    let rest = disabled_types ms in if is_disabled m then type_of m ∷ rest else rest

unfoldable pub disabled_methods : Pipeline → List Text
disabled_methods p = disabled_types (load p)
