-- ===== src/Store/History/Owners.antt =====
-- The owners of the rows that FindByFilter gives.
use trino_goway.Base.{ℕ, ◌≡◌, Bool, true, false, some, List, [], ◌∷◌, arith, is_empty, map, All}
use trino_goway.Store.History.{
  QueryRecord, Sql, History, HistoryFilter, scanned, matches, find_by_filter,
}
use trino_goway.Store.History.Pages.{page_rows, page_rows-matches}

found-page_rows :
    (sql : Sql) (f : HistoryFilter) (h : History) (counts selects : Bool) (rows : List QueryRecord)
    (total : ℕ)
    → find_by_filter sql counts selects f h ≡ some (rows, total)
    → rows ≡ map scanned (page_rows sql f h)
unfolding find_by_filter
found-page_rows sql f h counts selects rows total e = ground arith

scanned_owner :
    (sql : Sql) (f : HistoryFilter) (rs : History)
    → is_empty f.user_name ≡ false
    → All (λ r. matches sql f r ≡ true) rs
    → All (λ q. sql.same_text q.user_name f.user_name ≡ true) (map scanned rs)
unfolding matches
scanned_owner sql f [] n a = tt
scanned_owner sql f (r ∷ rs) n (m, a) = (ground arith, scanned_owner sql f rs n a)

-- With a user in the filter, every record that is found is one of that user, as the database
-- compares names.
pub found_owner :
    (sql : Sql) (f : HistoryFilter) (h : History) (counts selects : Bool) (rows : List QueryRecord)
    (total : ℕ)
    → find_by_filter sql counts selects f h ≡ some (rows, total)
    → is_empty f.user_name ≡ false
    → All (λ q. sql.same_text q.user_name f.user_name ≡ true) rows
found_owner sql f h counts selects rows total e n =
    rw (found-page_rows sql f h counts selects rows total e)
      (scanned_owner sql f (page_rows sql f h) n (page_rows-matches sql f h))
