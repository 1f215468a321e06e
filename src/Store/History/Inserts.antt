-- ===== src/Store/History/Inserts.antt =====
-- What the history says of a query after an insertion.
use trino_goway.Base.{
  ◌≡◌, Bool, true, false, not, ◌&&◌, ◌||◌, some, [], ◌∷◌, arith, if◌then◌else◌, Text, text_eq,
  text_eq_iff,
}
use trino_goway.Store.History.{
  QueryRecord, Row, History, columns, insert_row, insert, lookup_by_query_id, backend_of_query,
}
use trino_goway.Store.Backends.{is_supported}

unfoldable pub has_query : Text → History → Bool
has_query id [] = false
has_query id (r ∷ h) = text_eq r.query_id id || has_query id h

backend_of_query-insert_row :
    (r : Row) (h : History) (id : Text)
    → backend_of_query id (insert_row r h) ≡ (
        if text_eq r.query_id id && not (has_query id h)
        then r.backend_url
        else backend_of_query id h)
unfolding backend_of_query insert_row has_query
backend_of_query-insert_row r [] id = ground arith
backend_of_query-insert_row r (s ∷ h) id = ground (
  arith,
  text_eq_iff s.query_id r.query_id,
  text_eq_iff s.query_id id,
  text_eq_iff r.query_id id,
  backend_of_query-insert_row r h id,
)

-- An insertion succeeds only with a supported driver and a database that answers. Then the lookup of a
-- query finds the backend of the record if the record is of that query and the table had none of it;
-- otherwise it finds what it found before: the first record of a query stays, and no other is touched.
pub insert_keeps_first :
    (driver : Text) (answers : Bool) (r : QueryRecord) (h h' : History) (id : Text)
    → insert driver answers r h ≡ some h'
    → ((is_supported driver && answers) ≡ true)
      × (lookup_by_query_id true id h' ≡ (
          if text_eq r.query_id id && not (has_query id h)
          then some r.backend_url
          else lookup_by_query_id true id h))
unfolding insert lookup_by_query_id
insert_keeps_first driver answers r h h' id e =
    (ground arith, ground (arith, backend_of_query-insert_row (columns r) h id))
