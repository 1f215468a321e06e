-- ===== src/Stats/Examples.antt =====
-- The metrics of a cluster whose numbers have one digit, and a session that the UI no longer takes.
use trino_goway.Base.{
  ℕ, ◌+◌, ◌-◌, ◌≡◌, refl, ◌⊎◌, inl, inr, false, ltb, Option, none, some, List, [], ◌∷◌, ◌++◌, Text,
  codes, is_empty, pos,
}
use trino_goway.Monitor.Probe.{healthy}
use trino_goway.Stats.Collector.{Backend, Attempts, stats_builder, first_answer}
use trino_goway.Stats.Metrics.{
  MetricsConfig, Floats, collect, parse_lines, split_lines, unhealthy_stats,
}
use trino_goway.Stats.Metrics.Verdict.{IsAccepted, metrics_verdict}

abbrev digit : Text → Option ℕ
digit [] = none
digit (c ∷ s) = some (c - 48)

abbrev floats : Floats ℕ
floats = record { less = ltb; parse_float = digit; to_int = pos }

abbrev cfg : MetricsConfig ℕ
cfg = record {
  running_name = codes "r";
  queued_name = codes "q";
  minimum = (codes "a", 1) ∷ [];
  maximum = (codes "q", 5) ∷ [];
  retries = 1;
}

abbrev cluster : Backend
cluster = record { name = codes "c"; url = codes "http://c"; external_url = []; routing_group = [] }

-- the first attempt fails
abbrev answers : Text → Attempts
answers nodes = none ∷ some (codes "r 3" ++ (10 ∷ codes "q 2" ++ (10 ∷ nodes)), 200) ∷ []

accepted : collect floats cfg cluster (answers (codes "a 1")) ≡ record (stats_builder cluster) {
  trino_status = healthy;
  running_query_count = pos 3;
  queued_query_count = pos 2;
}
unfolding collect trino_goway.Base.contains trino_goway.Dict.lookup trino_goway.Base.has_prefix
    trino_goway.Base.trim_space trino_goway.Dict.put
accepted = refl

below : collect floats cfg cluster (answers (codes "a 0")) ≡ unhealthy_stats floats cluster
unfolding collect trino_goway.Base.contains trino_goway.Dict.lookup trino_goway.Base.has_prefix
    trino_goway.Base.trim_space trino_goway.Dict.put
below = refl

absent : collect floats cfg cluster (answers []) ≡ unhealthy_stats floats cluster
unfolding collect trino_goway.Base.contains trino_goway.Dict.lookup trino_goway.Base.has_prefix
    trino_goway.Base.trim_space trino_goway.Dict.put
absent = refl

metrics_verdict_example :
    (collect floats cfg cluster (answers (codes "a 1")) ≡ unhealthy_stats floats cluster)
    ⊎ ((body : Text) × (first_answer 2 (answers (codes "a 1")) ≡ (body, 200))
        × IsAccepted floats cfg cluster
            (parse_lines floats [] (split_lines body))
            (collect floats cfg cluster (answers (codes "a 1"))))
metrics_verdict_example = metrics_verdict floats cfg cluster (answers (codes "a 1")) refl refl
