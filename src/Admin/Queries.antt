-- ===== src/Admin/Queries.antt =====
-- The handlers of internal/admin/query.go.
pub mod Scope
use trino_goway.Base.{
  ℕ, ◌+◌, Bool, true, false, Option, none, some, List, [], ◌∷◌, if◌then◌else◌, Text, codes, map, ℤ,
  pos,
}
use trino_goway.Dict.{lookup, put}
use trino_goway.Auth.Roles.{Principal, has_role, role_admin}
use trino_goway.Store.History.{QueryRecord, HistoryFilter, list_recent, find_by_filter}
use trino_goway.Admin.Wire.{
  Payload, details, counts, Response, respond, Request, World, Outside, Config,
  query_detail_from_record,
}
use trino_goway.Admin.Backends.{server_error}

-- a filter by user alone
abbrev pub user_filter : Text → ℕ → HistoryFilter
user_filter user_name size = record {
  user_name = user_name;
  backend_url = [];
  query_id = [];
  source = [];
  page = pos 1;
  page_size = pos size;
}

abbrev pub name_or_empty : Option Principal → Text
name_or_empty none = []
name_or_empty (some p) = p.name

abbrev pub rows_of : Option (List QueryRecord × ℕ) → Option (List QueryRecord)
rows_of none = none
rows_of (some (rows, total)) = some rows

abbrev pub detailed : Option (List QueryRecord) → Response
detailed none = server_error
detailed (some rows) = respond 200 (details (map query_detail_from_record rows))

abbrev pub count_or_zero : Option ℕ → ℕ
count_or_zero none = 0
count_or_zero (some n) = n

-- dist[rec.BackendURL]++ over the records
unfoldable pub count_urls : List (Text × ℕ) → List QueryRecord → List (Text × ℕ)
count_urls dist [] = dist
count_urls dist (r ∷ rs) =
    count_urls (put r.backend_url (count_or_zero (lookup r.backend_url dist) + 1) dist) rs

unfoldable pub distributed : Option (List QueryRecord) → Response
unfolding count_urls
distributed none = server_error
distributed (some rows) = respond 200 (counts (count_urls [] rows))

module _ (match : Text → Text → Option Bool) (cfg : Config) (io : Outside) where
  unfoldable pub is_admin : Option Principal → Bool
  is_admin p = has_role match p role_admin cfg.authorization

  -- the records that queryHistory shows
  unfoldable pub history_shown : Option Principal → World → Option (List QueryRecord)
  unfolding is_admin
  history_shown p w =
      if is_admin p
      then list_recent io.sql cfg.driver io.select_answers (pos 100) w.history
      else rows_of (
          find_by_filter io.sql io.count_answers io.select_answers
            (user_filter (name_or_empty p) 100) w.history)

  -- queryHistory
  unfoldable pub query_history : Request → World → Response
  unfolding history_shown
  query_history r w = detailed (history_shown r.principal w)

  -- the records that queryHistoryDistribution counts
  unfoldable pub distribution_shown : Option Principal → World → Option (List QueryRecord)
  unfolding is_admin
  distribution_shown p w = rows_of (
      find_by_filter io.sql io.count_answers io.select_answers
        (user_filter (if is_admin p then [] else name_or_empty p) 10000) w.history)

  -- queryHistoryDistribution
  unfoldable pub query_history_distribution : Request → World → Response
  unfolding distribution_shown distributed
  query_history_distribution r w = distributed (distribution_shown r.principal w)
