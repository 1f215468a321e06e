-- ===== src/Reload/Examples.antt =====
-- Runs of the watcher of routing-service/internal/reload.
use trino_goway.Base.{
  ◌≡◌, refl, true, false, none, some, Option, [], ◌∷◌, ◌+◌, Text, codes, text_eq,
}
use trino_goway.Engine.Method.{RoutingMethod, provider, returned, no_decision}
use trino_goway.Engine.Pipeline.{swap}
use trino_goway.Engine.Registry.{Registry, build, find_factory}
use trino_goway.Reload.Config.{Config, load, validate, apply_defaults}
use trino_goway.Reload.Watcher.{Watcher, build_all, apply, fail, reload, Loop, FileEvent, u64}
use trino_goway.Reload.Watcher.Outcome.{good, reload_outcome}

abbrev method : RoutingMethod
method = provider (record { type_name = codes "expr"; evaluate = λ i. returned no_decision })

-- one factory, and a file with one method of its type
abbrev registry : Registry
registry = (codes "expr", λ text. some method) ∷ []

abbrev unmarshal : Text → Config → Option Config
unmarshal bytes c = some (record c {
  default_routing_group = bytes;
  methods =
      record { type_name = codes "expr"; program = codes "true"; file = []; refresh = none } ∷ [];
})

abbrev watcher : Watcher
watcher = record {
  pipeline = record { methods = none; default_group = codes "adhoc"; ready = false };
  registry = registry;
  reload_success_total = 0;
  reload_error_total = 0;
  reload_count = 0;
  last_hash = none;
  audits = [];
  reload_sink = some [];
  version_sink = none;
}

reload_swaps :
    (reload (λ b. b) unmarshal (some (codes "g")) (some (codes "g")) watcher).pipeline.methods
    ≡ some (method ∷ [])
unfolding reload load validate apply_defaults build_all build find_factory text_eq apply swap
reload_swaps = refl

reload_keeps :
    (reload (λ b. b) unmarshal (some (codes "g")) (some []) watcher).reload_error_total ≡ 1
unfolding reload load validate apply_defaults fail
reload_keeps = refl

reload_outcome_example :
    let w' = reload (λ b. b) unmarshal (some (codes "g")) (some (codes "g")) watcher in
    let g = good (λ b. b) unmarshal (some (codes "g")) (some (codes "g")) watcher in
    (w'.pipeline ≡ elim g [ none ↦ watcher.pipeline | some (h, ms) ↦ swap watcher.pipeline ms ])
    × (w'.last_hash ≡ elim g [ none ↦ watcher.last_hash | some (h, ms) ↦ some h ])
    × (w'.reload_success_total ≡ elim g [
      | none ↦ watcher.reload_success_total
      | some r ↦ u64 (watcher.reload_success_total + 1)
    ])
    × (w'.reload_error_total ≡ elim g [
      | none ↦ u64 (watcher.reload_error_total + 1)
      | some r ↦ watcher.reload_error_total
    ])
    × (w'.reload_count ≡ u64 (watcher.reload_count + 1))
    × (w'.registry ≡ watcher.registry)
    × (w'.pipeline.default_group ≡ watcher.pipeline.default_group)
reload_outcome_example =
    reload_outcome (λ b. b) unmarshal (some (codes "g")) (some (codes "g")) watcher

abbrev start : Loop
start = record { watcher = watcher; is_armed = false }

abbrev written : FileEvent
written = record { is_write = true; is_create = false; is_rename = false }
