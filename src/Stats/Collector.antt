-- ===== src/Stats/Collector.antt =====
-- internal/clusterstats: the statistics of stats.go, the store of store.go, the choice of a collector in
-- collector.go, the collectors of noop.go and infoapi.go, and the attempts of a request with the backoff
-- of http.go.
use trino_goway.Base.{
  ℕ, suc, zero, ◌||◌, Option, none, some, List, [], ◌∷◌, if◌then◌else◌, Text, codes, is_empty,
  text_eq, ℤ, pos,
}
use trino_goway.Dict.{lookup}
use trino_goway.Monitor.Probe.{Status, unknown}

pub record ClusterStats : Type 0 where
  pub cluster_id : Text
  pub running_query_count : ℤ
  pub queued_query_count : ℤ
  pub num_worker_nodes : ℤ
  pub trino_status : Status
  pub proxy_to : Text
  pub external_url : Text
  pub routing_group : Text
  pub user_queued_count : List (Text × ℕ)

-- what a collector needs of a backend
pub record Backend : Type 0 where
  pub name : Text
  pub url : Text
  pub external_url : Text
  pub routing_group : Text

-- statsBuilder
abbrev pub stats_builder : Backend → ClusterStats
stats_builder b = record {
  cluster_id = b.name;
  running_query_count = pos 0;
  queued_query_count = pos 0;
  num_worker_nodes = pos 0;
  trino_status = unknown;
  proxy_to = b.url;
  external_url = b.external_url;
  routing_group = b.routing_group;
  user_queued_count = [];
}

pub data Kind : Type 0 where
  noop info_api ui_api metrics : Kind

-- NewCollector; `none` for a type that is not supported
unfoldable pub new_collector : Text → Option Kind
new_collector type =
    if text_eq type (codes "NOOP")
    then some noop
    else if is_empty type || text_eq type (codes "INFO_API")
    then some info_api
    else if text_eq type (codes "UI_API")
    then some ui_api
    else if text_eq type (codes "METRICS")
    then some metrics
    else none

-- the collectors noop and infoAPI; the function is the monitor's Status, if there is one
unfoldable pub collect_status : Option (Text → Status) → Backend → ClusterStats
collect_status none b = stats_builder b
collect_status (some status) b = record (stats_builder b) { trino_status = status b.url }

-- ObserveStats replaces the snapshot, and Stats reads it
abbrev pub observe_stats :
    List (Text × ClusterStats) → List (Text × ClusterStats) → List (Text × ClusterStats)
observe_stats stats snapshot = stats

abbrev or_uncollected : Text → Option ClusterStats → ClusterStats
or_uncollected name none =
    stats_builder (record { name = name; url = []; external_url = []; routing_group = [] })
or_uncollected name (some cs) = cs

unfoldable pub stats_of : Text → List (Text × ClusterStats) → ClusterStats
stats_of name snapshot = or_uncollected name (lookup name snapshot)

-- One answer for each attempt: `none` when the transport fails, else the body and the status. The answers
-- end where a request cannot be made or the context is done in the backoff.
abbrev pub Attempts : Type 0
Attempts = List (Option (Text × ℕ))

-- the loop over the attempts; no body and the status 0 when it gives up
unfoldable pub first_answer : ℕ → Attempts → Text × ℕ
first_answer zero answers = ([], 0)
first_answer (suc n) [] = ([], 0)
first_answer (suc n) (some a ∷ answers) = a
first_answer (suc n) (none ∷ answers) = first_answer n answers
