-- ===== src/Admin/Webapp.antt =====
-- The handlers of internal/admin/webapp.go. A failure is an envelope with status 200. The line chart asks
-- for the rows of the last hours; the averages of the distribution are left out.
pub mod Totals
use trino_goway.Base.{
  ℕ, ◌+◌, ◌-◌, ◌*◌, Bool, true, false, not, Option, none, some, List, [], ◌∷◌, ◌++◌, if◌then◌else◌,
  Text, codes, map, ℤ, length,
}
use trino_goway.Dict.{lookup, put}
use trino_goway.Monitor.Probe.{Status, healthy, unhealthy, unknown, pending}
use trino_goway.Auth.Roles.{Principal}
use trino_goway.Store.Backends.{Backend, Table, list, delete}
use trino_goway.Store.History.{
  QueryRecord, HistoryFilter, DistributionBucket, find_by_filter, find_distribution, positive_or,
}
use trino_goway.Admin.Wire.{
  ProxyBackend, FindQueryHistoryRequest, ChartPoint, TimePoint, DistributionResponse,
  backend_statuses, query_table, distribution, ui_configuration, no_rules, saved, done, empty,
  result_ok, result_err, Response, respond, Request, World, Outside, Config, decode_json, status_at,
  query_detail_from_record,
}
use trino_goway.Admin.Backends.{backend_response_from_persistence, stored, upserted}
use trino_goway.Admin.Queries.{is_admin, rows_of, user_filter, count_or_zero}

abbrev pub fail : Text → Response
fail msg = respond 200 (result_err msg)

abbrev statuses_shown : Config → World → Option Table → Response
statuses_shown cfg w none = fail (codes "failed to list backends")
statuses_shown cfg w (some bs) =
    respond 200 (result_ok (backend_statuses (map (backend_response_from_persistence cfg w) bs)))

-- webappGetAllBackends
unfoldable pub webapp_get_all_backends : Config → Outside → World → Response
unfolding list
webapp_get_all_backends cfg io w = statuses_shown cfg w (list io.backends_answer w.backends)

abbrev table_shown : Option (List QueryRecord × ℕ) → Response
table_shown none = fail (codes "failed to query history")
table_shown (some (rows, total)) =
    respond 200 (result_ok (query_table total (map query_detail_from_record rows)))

-- the user that the filter gets: the own name where there is a principal and no admin role
abbrev pub forced_user : Bool → Option Principal → Text → Text
forced_user true p asked = asked
forced_user false none asked = asked
forced_user false (some p) asked = p.name

abbrev pub filter_from : Text → FindQueryHistoryRequest → HistoryFilter
filter_from user_name req = record {
  user_name = user_name;
  backend_url = req.backend_url;
  query_id = req.query_id;
  source = req.source;
  page = req.page;
  page_size = req.page_size;
}

module _ (match : Text → Text → Option Bool) (cfg : Config) (io : Outside) where
  -- the rows that webappFindQueryHistory gets for a request that decodes
  unfoldable pub search :
      Option Principal → FindQueryHistoryRequest → World → Option (List QueryRecord × ℕ)
  unfolding is_admin
  search p req w =
      find_by_filter io.sql io.count_answers io.select_answers
        (filter_from (forced_user (is_admin match cfg io p) p req.user_name) req) w.history

  -- webappFindQueryHistory
  unfoldable pub webapp_find_query_history :
      (Text → Option FindQueryHistoryRequest) → Request → World → Response
  unfolding decode_json search
  webapp_find_query_history decode r w = elim (decode_json decode r.body) [
    | none ↦ fail (codes "bad request")
    | some req ↦ table_shown (search r.principal req w)
  ]

-- one pass of the loop of webappGetDistribution over the backends
unfoldable pub number_of : (Backend → Bool) → Table → ℕ
number_of p [] = 0
number_of p (b ∷ bs) = (if p b then 1 else 0) + number_of p bs

abbrev pub is_healthy : Status → Bool
is_healthy healthy = true
is_healthy unhealthy = false
is_healthy unknown = false
is_healthy pending = false

unfoldable pub zero_counts : List (Text × ℕ) → Table → List (Text × ℕ)
zero_counts dist [] = dist
zero_counts dist (b ∷ bs) = zero_counts (put b.url 0 dist) bs

unfoldable pub url_to_name : List (Text × Text) → Table → List (Text × Text)
url_to_name m [] = m
url_to_name m (b ∷ bs) = url_to_name (put b.url b.name m) bs

abbrev bump : Text → Option ℕ → List (Text × ℕ) → List (Text × ℕ)
bump url none dist = dist
bump url (some n) dist = put url (n + 1) dist

-- only a URL that is there is counted
unfoldable pub count_known : List (Text × ℕ) → List QueryRecord → List (Text × ℕ)
count_known dist [] = dist
count_known dist (r ∷ rs) = count_known (bump r.backend_url (lookup r.backend_url dist) dist) rs

unfoldable pub counted_or_zero : List (Text × ℕ) → Option (List QueryRecord) → List (Text × ℕ)
unfolding count_known
counted_or_zero dist none = dist
counted_or_zero dist (some rows) = count_known dist rows

unfoldable pub total_of : List (Text × ℕ) → ℕ
total_of [] = 0
total_of ((url, n) ∷ dist) = n + total_of dist

abbrev pub chart_point : List (Text × ℕ) → Backend → ChartPoint
chart_point dist b = record {
  backend_url = b.url;
  name = b.name;
  query_count = count_or_zero (lookup b.url dist);
}

abbrev points_or_none : Option (List TimePoint) → List TimePoint
points_or_none none = []
points_or_none (some ps) = ps

abbrev pub time_point : Text → DistributionBucket → TimePoint
time_point name b = record {
  epoch_millis = b.minute * 60000;
  backend_url = b.backend_url;
  name = name;
  query_count = b.query_count;
}

abbrev add_point :
    DistributionBucket → Option Text → List (Text × List TimePoint) → List (Text × List TimePoint)
add_point b none chart = chart
add_point b (some name) chart =
    put name (points_or_none (lookup name chart) ++ time_point name b ∷ []) chart

unfoldable pub chart_lines :
    List (Text × Text)
    → List (Text × List TimePoint)
    → List DistributionBucket
    → List (Text × List TimePoint)
unfolding add_point
chart_lines names chart [] = chart
chart_lines names chart (b ∷ bs) =
    chart_lines names (add_point b (lookup b.backend_url names) chart) bs

unfoldable pub lines_or_none :
    List (Text × Text) → Option (List DistributionBucket) → List (Text × List TimePoint)
unfolding chart_lines
lines_or_none names none = []
lines_or_none names (some bs) = chart_lines names [] bs

abbrev pub hour : ℕ
hour = 3600000000000

-- buildLineChart
unfoldable pub build_line_chart :
    Config → Outside → ℕ → List (Text × Text) → World → List (Text × List TimePoint)
unfolding lines_or_none
build_line_chart cfg io latest_hour names w =
    lines_or_none names
      (find_distribution cfg.driver io.group_answers (io.now - latest_hour * hour) w.history)

-- the queries of each URL of a backend, of all users
unfoldable pub query_counts : Outside → World → Table → List (Text × ℕ)
unfolding zero_counts counted_or_zero
query_counts io w bs = counted_or_zero (zero_counts [] bs) (
    rows_of
      (find_by_filter io.sql io.count_answers io.select_answers (user_filter [] 10000) w.history))

-- the response of webappGetDistribution for the backends of the table
unfoldable pub distribution_of : Config → Outside → ℕ → World → Table → DistributionResponse
unfolding number_of query_counts url_to_name total_of build_line_chart
distribution_of cfg io latest_hour w bs =
    let dist = query_counts io w bs in
    record {
      total_backend_count = length bs;
      online_backend_count = number_of (λ b. b.active) bs;
      offline_backend_count = number_of (λ b. not b.active) bs;
      healthy_backend_count = number_of (λ b. is_healthy (status_at b.url w)) bs;
      unhealthy_backend_count = number_of (λ b. not (is_healthy (status_at b.url w))) bs;
      total_query_count = total_of dist;
      distribution_chart = map (chart_point dist) bs;
      line_chart = build_line_chart cfg io latest_hour (url_to_name [] bs) w;
    }

abbrev latest_hour_or_one : Option ℤ → ℕ
latest_hour_or_one none = 1
latest_hour_or_one (some n) = positive_or 1 n

-- webappGetDistribution; a body that does not decode counts as one without the hours
unfoldable pub webapp_get_distribution :
    (Text → Option ℤ) → Config → Outside → Request → World → Response
unfolding decode_json list distribution_of
webapp_get_distribution decode cfg io r w = elim (list io.backends_answer w.backends) [
  | none ↦ fail (codes "failed to list backends")
  | some bs ↦ respond 200 (
      result_ok (
        distribution
          (distribution_of cfg io (latest_hour_or_one (decode_json decode r.body)) w bs)))
]

-- webappGetUIConfig
unfoldable pub webapp_get_ui_config : Config → Response
webapp_get_ui_config cfg =
    respond 200 (result_ok (ui_configuration cfg.auth_type cfg.disable_pages))

-- webappGetRoutingRules, webappUpdateRoutingRules
abbrev pub webapp_get_routing_rules : Response
webapp_get_routing_rules = respond 204 empty

abbrev pub webapp_update_routing_rules : Response
webapp_update_routing_rules = respond 200 (result_ok no_rules)

module _ (decode : Text → Option ProxyBackend) (cfg : Config) (io : Outside) where
  -- webappSaveBackend, webappUpdateBackend
  unfoldable pub webapp_save_backend : Request → World → Response × World
  unfolding upserted decode_json
  webapp_save_backend r w = elim (decode_json decode r.body) [
    | none ↦ (fail (codes "bad request"), w)
    | some pb ↦
        upserted decode cfg io w pb (fail (codes "failed to save backend"))
          (respond 200 (result_ok (saved pb)))
  ]

  unfoldable pub webapp_update_backend : Request → World → Response × World
  unfolding upserted decode_json
  webapp_update_backend r w = elim (decode_json decode r.body) [
    | none ↦ (fail (codes "bad request"), w)
    | some pb ↦
        upserted decode cfg io w pb (fail (codes "failed to update backend"))
          (respond 200 (result_ok (saved pb)))
  ]

  -- webappDeleteBackend
  unfoldable pub webapp_delete_backend : Request → World → Response × World
  unfolding delete decode_json
  webapp_delete_backend r w = elim (decode_json decode r.body) [
    | none ↦ (fail (codes "bad request"), w)
    | some pb ↦
        stored w (delete io.backends_answer pb.name w.backends)
          (fail (codes "failed to delete backend")) (respond 200 (result_ok done))
  ]
