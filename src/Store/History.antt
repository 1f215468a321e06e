-- ===== src/Store/History.antt =====
-- internal/persistence/history.go. The table query_history is the list of its rows, which have no column
-- for the routing group and the text of a query. What the database decides is a parameter: when a text
-- of the filter equals that of a column (its collation may ignore case), and in which order each
-- statement gives the rows of one instant, which ORDER BY created_at leaves open. LIMIT and OFFSET take
-- and drop rows; a negative offset is refused by the database. Keys are compared byte by byte.
pub mod Inserts
pub mod Owners
pub mod Pages
pub mod Buckets
use trino_goway.Base.{
  ℕ, ◌+◌, ◌-◌, ◌*◌, ◌/◌, ◌%◌, ◌^◌, Bool, true, false, ◌&&◌, ◌||◌, ◌==◌, leb, ltb, Option, none,
  some, List, [], ◌∷◌, ◌++◌, if◌then◌else◌, Text, codes, is_empty, text_eq, map, take, drop, length,
  ℤ, pos, negsuc,
}
use trino_goway.Store.Backends.{is_supported, answered}

pub record QueryRecord : Type 0 where
  pub query_id : Text
  pub backend_url : Text
  pub external_url : Text
  pub user_name : Text
  pub source : Text
  pub routing_group : Text
  pub query_text : Text
  pub created_at : ℕ

-- the columns
pub record Row : Type 0 where
  pub query_id : Text
  pub backend_url : Text
  pub external_url : Text
  pub user_name : Text
  pub source : Text
  pub created_at : ℕ

abbrev pub History : Type 0
History = List Row

-- what the INSERT statement names
abbrev pub columns : QueryRecord → Row
columns r = record {
  query_id = r.query_id;
  backend_url = r.backend_url;
  external_url = r.external_url;
  user_name = r.user_name;
  source = r.source;
  created_at = r.created_at;
}

-- what a SELECT of the columns scans; the other fields keep their zero values
abbrev pub scanned : Row → QueryRecord
scanned r = record {
  query_id = r.query_id;
  backend_url = r.backend_url;
  external_url = r.external_url;
  user_name = r.user_name;
  source = r.source;
  routing_group = [];
  query_text = [];
  created_at = r.created_at;
}

-- ON CONFLICT (query_id) DO NOTHING
unfoldable pub insert_row : Row → History → History
insert_row r [] = r ∷ []
insert_row r (s ∷ h) =
    let rest = insert_row r h in if text_eq s.query_id r.query_id then s ∷ h else s ∷ rest

-- HistoryDAO.Insert; `none` for an error
unfoldable pub insert : Text → Bool → QueryRecord → History → Option History
unfolding insert_row
insert driver answers r h =
    if is_supported driver then answered answers (insert_row (columns r) h) else none

-- what HistoryInsert records of its outcome
abbrev pub insert_result : Option History → Text
insert_result none = codes "error"
insert_result (some h) = codes "ok"

unfoldable pub backend_of_query : Text → History → Text
backend_of_query id [] = []
backend_of_query id (r ∷ h) = if text_eq r.query_id id then r.backend_url else backend_of_query id h

-- LookupByQueryID
unfoldable pub lookup_by_query_id : Bool → Text → History → Option Text
unfolding backend_of_query
lookup_by_query_id answers id h = answered answers (backend_of_query id h)

-- What the database decides for a statement: the equality of a column and a text, and a rank that orders
-- the rows of one instant, the lower first.
pub record Sql : Type 0 where
  pub same_text : Text → Text → Bool
  pub rank : Row → ℕ

-- whether a row comes before another
abbrev pub is_before : (Row → ℕ) → Row → Row → Bool
is_before rank r s =
    ltb s.created_at r.created_at || (s.created_at == r.created_at && leb (rank r) (rank s))

-- ORDER BY created_at DESC
unfoldable pub put_by_time : (Row → ℕ) → Row → History → History
put_by_time rank r [] = r ∷ []
put_by_time rank r (s ∷ h) =
    let rest = put_by_time rank r h in if is_before rank r s then r ∷ s ∷ h else s ∷ rest

unfoldable pub by_time : (Row → ℕ) → History → History
unfolding put_by_time
by_time rank [] = []
by_time rank (r ∷ h) = put_by_time rank r (by_time rank h)

-- an int that is to be positive, with a default
abbrev pub positive_or : ℕ → ℤ → ℕ
positive_or n (negsuc k) = n
positive_or n (pos k) = if k == 0 then n else k

-- ListRecent
unfoldable pub list_recent : Sql → Text → Bool → ℤ → History → Option (List QueryRecord)
unfolding by_time
list_recent sql driver answers limit h =
    if is_supported driver
    then answered answers (map scanned (take (positive_or 10 limit) (by_time sql.rank h)))
    else none

pub record HistoryFilter : Type 0 where
  pub user_name : Text
  pub backend_url : Text
  pub query_id : Text
  pub source : Text
  pub page : ℤ
  pub page_size : ℤ

-- one conjunct of the WHERE clause: it is left out for an empty field
abbrev pub condition : Sql → Text → Text → Bool
condition sql field column = is_empty field || sql.same_text column field

unfoldable pub matches : Sql → HistoryFilter → Row → Bool
matches sql f r =
    condition sql f.user_name r.user_name
    && condition sql f.backend_url r.backend_url
    && condition sql f.query_id r.query_id
    && condition sql f.source r.source

unfoldable pub matching : Sql → HistoryFilter → History → History
unfolding matches
matching sql f [] = []
matching sql f (r ∷ h) = let rest = matching sql f h in if matches sql f r then r ∷ rest else rest

-- (page - 1) * pageSize, an int of 64 bits
abbrev pub offset : HistoryFilter → ℕ
offset f = ((positive_or 1 f.page - 1) * positive_or 10 f.page_size) % 2 ^ 64

-- FindByFilter: the rows of the page and the number of all rows; the two answers are those to the two
-- statements
unfoldable pub find_by_filter :
    Sql → Bool → Bool → HistoryFilter → History → Option (List QueryRecord × ℕ)
unfolding by_time matching
find_by_filter sql counts selects f h =
    if counts && selects && ltb (offset f) (2 ^ 63)
    then some (
      map scanned (
          take (positive_or 10 f.page_size)
            (drop (offset f) (by_time sql.rank (matching sql f h)))),
      length (matching sql f h),
    )
    else none

-- a count of queries in one minute on one backend
pub record DistributionBucket : Type 0 where
  pub minute : ℕ
  pub backend_url : Text
  pub query_count : ℕ

abbrev pub minute_of : ℕ → ℕ
minute_of t = t / 60000000000

-- the groups in the order of their minutes
unfoldable pub count_in : ℕ → Text → List DistributionBucket → List DistributionBucket
count_in m url [] = record { minute = m; backend_url = url; query_count = 1 } ∷ []
count_in m url (b ∷ bs) =
    let rest = count_in m url bs in
    if m == b.minute && text_eq b.backend_url url
    then record b { query_count = b.query_count + 1 } ∷ bs
    else if ltb m b.minute
    then record { minute = m; backend_url = url; query_count = 1 } ∷ b ∷ bs
    else b ∷ rest

-- WHERE created_at >= since GROUP BY minute, backend_url ORDER BY minute
unfoldable pub buckets : ℕ → History → List DistributionBucket
unfolding count_in
buckets since [] = []
buckets since (r ∷ h) =
    let rest = buckets since h in
    if leb since r.created_at then count_in (minute_of r.created_at) r.backend_url rest else rest

-- FindDistribution
unfoldable pub find_distribution : Text → Bool → ℕ → History → Option (List DistributionBucket)
unfolding buckets
find_distribution driver answers since h =
    if is_supported driver then answered answers (buckets since h) else none
