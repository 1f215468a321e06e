-- ===== src/Reload/Watcher/Outcome.antt =====
-- A reload changes everything or nothing.
use trino_goway.Base.{◌+◌, ◌≡◌, Option, none, some, List, arith, Text, Option-cases, inl, inr}
use trino_goway.Engine.Method.{RoutingMethod}
use trino_goway.Engine.Pipeline.{swap}
use trino_goway.Reload.Config.{Config, load}
use trino_goway.Reload.Watcher.{Watcher, u64, fail, apply, build_all, reload}

module _ (hash_bytes : Text → Text) (unmarshal : Text → Config → Option Config) where
  -- The hash and the methods of a file whose two reads succeed and whose every method builds.
  abbrev pub good : Option Text → Option Text → Watcher → Option (Text × List RoutingMethod)
  good none second w = none
  good (some bytes) second w = elim (load unmarshal second) [
    | none ↦ none
    | some cfg ↦ elim (build_all w.registry cfg.methods) [
      | none ↦ none
      | some ms ↦ some (hash_bytes bytes, ms)
    ]
  ]

  -- A reload of a file that is good throughout puts its methods into the pipeline, takes the hash of
  -- the first read and counts a success. Any other reload leaves the pipeline and the hash as they
  -- were and counts an error. The registry and the default group stay as they were, and each reload is
  -- counted once.
  pub reload_outcome :
      (first second : Option Text) (w : Watcher)
      → let w' = reload hash_bytes unmarshal first second w in
        let g = good first second w in
        (w'.pipeline ≡ elim g [ none ↦ w.pipeline | some (h, ms) ↦ swap w.pipeline ms ])
        × (w'.last_hash ≡ elim g [ none ↦ w.last_hash | some (h, ms) ↦ some h ])
        × (w'.reload_success_total
            ≡ elim g [ none ↦ w.reload_success_total | some r ↦ u64 (w.reload_success_total + 1) ])
        × (w'.reload_error_total
            ≡ elim g [ none ↦ u64 (w.reload_error_total + 1) | some r ↦ w.reload_error_total ])
        × (w'.reload_count ≡ u64 (w.reload_count + 1))
        × (w'.registry ≡ w.registry)
        × (w'.pipeline.default_group ≡ w.pipeline.default_group)
  unfolding reload fail apply swap
  reload_outcome none second w = ground arith
  reload_outcome (some bytes) second w = elim (Option-cases (load unmarshal second)) [
    | inl e ↦ ground arith
    | inr (cfg, e) ↦ elim (Option-cases (build_all w.registry cfg.methods)) [
      | inl n ↦ ground arith
      | inr (ms, n) ↦ ground arith
    ]
  ]
