-- ===== src/Store/Examples.antt =====
-- Runs of the statements of internal/persistence on small tables.
use trino_goway.Base.{
  ℕ, ◌≡◌, refl, ◌*◌, ◌-◌, if◌then◌else◌, not, ◌&&◌, true, false, some, List, [], ◌∷◌, arith, Text,
  codes, text_eq, map, take, pos,
}
use trino_goway.Store.Backends.{Backend, Table, active_rows, is_supported}
use trino_goway.Store.Backends.Abstract.{
  Command, upserts, deletes, sets_active, execute_all, meaning_all, view, statements_refine_map,
}
use trino_goway.Store.Backends.Names.{names}
use trino_goway.Store.History.{
  QueryRecord, Row, Sql, History, HistoryFilter, columns, scanned, insert, by_time, matching,
  find_by_filter,
}
use trino_goway.Store.History.Pages.{first_pages, NoTie, pages_joined}
use trino_goway.Store.Migrate.{Answers, open_database}
use trino_goway.Store.Migrate.Locked.{free, stuck, perform, migration_locked}

abbrev backend : Text → Text → Backend
backend name url = record {
  name = name;
  url = url;
  external_url = [];
  routing_group = codes "adhoc";
  active = true;
  created_at = 1;
  updated_at = 1;
}

abbrev table : Table
table = backend (codes "a") (codes "http://a") ∷ backend (codes "b") (codes "http://b") ∷ []

abbrev statements : List Command
statements =
    upserts (backend (codes "a") (codes "http://a2"))
    ∷ sets_active (codes "b") false 7
    ∷ upserts (backend (codes "c") (codes "http://c"))
    ∷ deletes (codes "c")
    ∷ []

statements_refine_map_example :
    view (execute_all statements table) ≡ meaning_all statements (view table)
statements_refine_map_example = statements_refine_map statements table

only_first_active : names (active_rows (execute_all statements table)) ≡ codes "a" ∷ []
unfolding names active_rows execute_all trino_goway.Store.Backends.delete_rows
    trino_goway.Store.Backends.upsert_row trino_goway.Store.Backends.set_active_rows text_eq
only_first_active = refl

abbrev query : Text → Text → ℕ → QueryRecord
query id user time = record {
  query_id = id;
  backend_url = codes "http://a";
  external_url = [];
  user_name = user;
  source = [];
  routing_group = codes "adhoc";
  query_text = codes "SELECT 1";
  created_at = time;
}

abbrev history : History
history = map columns (
    query (codes "q1") (codes "eve") 3
    ∷ query (codes "q2") (codes "bob") 5
    ∷ query (codes "q3") (codes "eve") 9
    ∷ [])

abbrev filter : HistoryFilter
filter = record {
  user_name = codes "eve";
  backend_url = [];
  query_id = [];
  source = [];
  page = pos 1;
  page_size = pos 1;
}

abbrev sql : Sql
sql = record { same_text = text_eq; rank = λ row. 0 }

newest_first :
    find_by_filter sql true true filter history
    ≡ some (map scanned (columns (query (codes "q3") (codes "eve") 9) ∷ []), 2)
unfolding find_by_filter text_eq
newest_first = refl

abbrev tied : History
tied = map columns (query (codes "q1") (codes "eve") 3 ∷ query (codes "q3") (codes "eve") 3 ∷ [])

-- the rank of the second page is another one than that of the first
abbrev turned : ℕ → Row → ℕ
turned n row = if text_eq row.query_id (codes "q1") then n else 1 - n

given_twice :
    first_pages sql turned filter tied 2
    ≡ some (
        map scanned (
          columns (query (codes "q1") (codes "eve") 3)
          ∷ columns (query (codes "q1") (codes "eve") 3)
          ∷ []))
unfolding first_pages find_by_filter text_eq
given_twice = refl

untied : NoTie (matching sql filter history)
unfolding matching text_eq
untied = ground arith

pages_joined_example :
    first_pages sql turned filter history 2
    ≡ some (map scanned (take (2 * 1) (by_time sql.rank (matching sql filter history))))
unfolding text_eq
pages_joined_example =
    pages_joined sql turned filter history 1 2 untied refl (omega arith) (omega arith)

abbrev again : QueryRecord
again = record (query (codes "q1") (codes "mal") 8) { backend_url = codes "http://b" }

not_inserted : insert (codes "postgres") true again history ≡ some history
unfolding insert is_supported text_eq
not_inserted = refl

-- the schema is brought up, and the release of the lock fails
abbrev unreleased : Answers
unreleased = record {
  connects = true;
  takes = true;
  pg_locks = false;
  get_lock = some (some (pos 1));
  provider = true;
  up = true;
  unlocks = false;
}

migration_locked_example :
    perform
      (open_database (codes "mysql") true unreleased).0
      (record { pool = false; connection = false; lock_state = free })
    ≡ some (record {
      pool = (open_database (codes "mysql") true unreleased).1;
      connection = false;
      lock_state =
          if (open_database (codes "mysql") true unreleased).1 && (true && not unreleased.unlocks)
          then stuck
          else free;
    })
migration_locked_example = migration_locked (codes "mysql") true unreleased
