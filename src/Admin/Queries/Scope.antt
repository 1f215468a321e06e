-- ===== src/Admin/Queries/Scope.antt =====
-- Whose queries the history endpoints show.
use trino_goway.Base.{
  ◌≡◌, sym, ◌∙◌, refl, inl, inr, Bool, true, false, Option, some, List, arith, Text, is_empty, All,
  Option-cases,
}
use trino_goway.Auth.Roles.{Principal}
use trino_goway.Store.History.{QueryRecord, HistoryFilter, History, Sql, find_by_filter}
use trino_goway.Store.History.Owners.{found_owner}
use trino_goway.Admin.Wire.{World, Outside, Config, FindQueryHistoryRequest}
use trino_goway.Admin.Queries.{is_admin, history_shown, distribution_shown, rows_of, user_filter}
use trino_goway.Admin.Webapp.{filter_from, search}

rows_of_owner :
    (sql : Sql) (f : HistoryFilter) (h : History) (counts selects : Bool) (rows : List QueryRecord)
    → rows_of (find_by_filter sql counts selects f h) ≡ some rows
    → is_empty f.user_name ≡ false
    → All (λ q. sql.same_text q.user_name f.user_name ≡ true) rows
rows_of_owner sql f h counts selects rows e n =
    elim (Option-cases (find_by_filter sql counts selects f h)) [
      | inl k ↦ ground arith
      | inr ((rs, total), k) ↦ found_owner sql f h counts selects rows total (ground arith) n
    ]

distribution_filter :
    (match : Text → Text → Option Bool) (cfg : Config) (io : Outside) (p : Principal) (w : World)
    → is_admin match cfg io (some p) ≡ false
    → distribution_shown match cfg io (some p) w
      ≡ rows_of (
          find_by_filter io.sql io.count_answers io.select_answers
            (user_filter p.name 10000)
            w.history)
unfolding distribution_shown
distribution_filter match cfg io p w a = rw (a) refl

-- A caller without the role ADMIN whose name is not empty sees none but its own queries, as the database
-- compares user names: in queryHistory, in the counts of queryHistoryDistribution, and in a search with
-- findQueryHistory, whatever user and other fields it asks for. The counts of getDistribution are those
-- of all users, and are not meant here.
pub own_queries :
    (match : Text → Text → Option Bool) (cfg : Config) (io : Outside) (p : Principal) (w : World)
    (req : FindQueryHistoryRequest) (shown counted searched : List QueryRecord)
    → is_admin match cfg io (some p) ≡ false
    → is_empty p.name ≡ false
    → history_shown match cfg io (some p) w ≡ some shown
    → distribution_shown match cfg io (some p) w ≡ some counted
    → rows_of (search match cfg io (some p) req w) ≡ some searched
    → All (λ q. io.sql.same_text q.user_name p.name ≡ true) shown
      × All (λ q. io.sql.same_text q.user_name p.name ≡ true) counted
      × All (λ q. io.sql.same_text q.user_name p.name ≡ true) searched
unfolding history_shown search
own_queries match cfg io p w req shown counted searched a n e1 e2 e3 = (
  rows_of_owner io.sql (user_filter p.name 100) w.history io.count_answers io.select_answers shown
      (ground arith) n,
  rows_of_owner io.sql (user_filter p.name 10000) w.history io.count_answers io.select_answers
      counted (sym (distribution_filter match cfg io p w a) ∙ e2) n,
  rows_of_owner io.sql (filter_from p.name req) w.history io.count_answers io.select_answers
      searched (ground arith) n,
)
