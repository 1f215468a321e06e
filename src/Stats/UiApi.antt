-- ===== src/Stats/UiApi.antt =====
-- internal/clusterstats/uiapi.go. J is a cookie jar. The transport is a parameter: what a login gives (a
-- jar, unless the transport fails), and the answers to the attempts of a GET with a jar.
pub mod Session
use trino_goway.Base.{
  ℕ, ◌+◌, Bool, true, false, ◌==◌, Option, none, some, List, [], ◌∷◌, ◌++◌, if◌then◌else◌, Text,
  codes, is_empty, ℤ, pos, negsuc,
}
use trino_goway.Dict.{lookup, put}
use trino_goway.Monitor.Probe.{Status, healthy, unhealthy}
use trino_goway.Stats.Collector.{ClusterStats, Backend, stats_builder, Attempts, first_answer}

pub record UiStats : Type 0 where
  pub active_workers : ℤ
  pub running_queries : ℤ
  pub queued_queries : ℤ

-- the jar of the session; there is one while loggedIn is set
abbrev pub Session : Type 0 → Type 0
Session J = Option J

pub record Transport (J : Type 0) : Type 0 where
  pub login : Text → Option J
  pub attempts : Option J → Text → Attempts
  pub decode_stats : Text → Option UiStats
  pub decode_users : Text → Option (List Text)

-- a 401 drops the session
abbrev pub after_status : {J : Type 0} → ℕ → Session J → Session J
after_status status session = if status == 401 then none else session

abbrev is_some_work : ℤ → Bool
is_some_work (negsuc n) = false
is_some_work (pos n) = if n == 0 then false else true

abbrev pub with_stats : UiStats → ClusterStats → ClusterStats
with_stats s cs = record cs {
  num_worker_nodes = s.active_workers;
  running_query_count = s.running_queries;
  queued_query_count = s.queued_queries;
  trino_status = if is_some_work s.active_workers then healthy else unhealthy;
}

abbrev pub count_or_zero : Option ℕ → ℕ
count_or_zero none = 0
count_or_zero (some n) = n

-- userQueued[q.SessionUser]++
unfoldable pub tally_users : List (Text × ℕ) → List Text → List (Text × ℕ)
tally_users counts [] = counts
tally_users counts (u ∷ us) = tally_users (put u (count_or_zero (lookup u counts) + 1) counts) us

abbrev pub with_users : Option (List Text) → ClusterStats → ClusterStats
with_users none cs = cs
with_users (some us) cs = record cs { user_queued_count = tally_users [] us }

module _ {J : Type 0} (t : Transport J) (retries : ℕ) where
  -- get
  unfoldable pub get : Session J → Text → Text × ℕ
  get session target = first_answer (retries + 1) (t.attempts session target)

  -- the second part of Collect: the queued queries of each user
  unfoldable pub collect_users : Backend → Session J → ClusterStats → Session J × ClusterStats
  unfolding tally_users get
  collect_users b session cs =
      let (body, status) = get session (b.url ++ codes "/ui/api/query?state=QUEUED") in
      (
        after_status status session,
        if is_empty body then cs else with_users (t.decode_users body) cs,
      )

  abbrev pub decoded :
      Backend → Session J → ClusterStats → Option UiStats → Session J × ClusterStats
  decoded b session cs none = (session, cs)
  decoded b session cs (some s) = collect_users b session (with_stats s cs)

  -- the first part: the statistics of the cluster
  unfoldable pub collect_stats : Backend → Session J → Session J × ClusterStats
  unfolding get collect_users
  collect_stats b session =
      let (body, status) = get session (b.url ++ codes "/ui/api/stats") in
      let kept = after_status status session in
      if is_empty body
      then (kept, stats_builder b)
      else decoded b kept (stats_builder b) (t.decode_stats body)

  -- ensureLogin
  unfoldable pub ensure_login : Session J → Text → Option J
  ensure_login (some j) proxy_to = some j
  ensure_login none proxy_to = t.login (proxy_to ++ codes "/ui/login")

  -- Collect
  unfoldable pub collect : Backend → Session J → Session J × ClusterStats
  unfolding ensure_login collect_stats
  collect b session = elim (ensure_login session b.url) [
    | none ↦ (session, stats_builder b)
    | some j ↦ collect_stats b (some j)
  ]
