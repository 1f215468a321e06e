-- ===== src/Admin/Webapp/Totals.antt =====
-- The numbers of webappGetDistribution.
use trino_goway.Base.{
  ℕ, ◌+◌, ◌≡◌, refl, Bool, true, false, not, ◌||◌, Option, none, some, List, [], ◌∷◌, arith,
  if◌then◌else◌, Text, text_eq, text_eq_iff, length, Option-cases, inl, inr,
}
use trino_goway.Dict.{lookup, put, lookup-put}
use trino_goway.Store.Backends.{Backend, Table}
use trino_goway.Store.History.{QueryRecord, find_by_filter}
use trino_goway.Admin.Wire.{World, Outside, Config}
use trino_goway.Admin.Queries.{rows_of, user_filter}
use trino_goway.Admin.Webapp.{
  number_of, zero_counts, count_known, counted_or_zero, total_of, query_counts, distribution_of,
}

halves :
    (p : Backend → Bool) (bs : Table) → number_of p bs + number_of (λ b. not (p b)) bs ≡ length bs
unfolding number_of
halves p [] = refl
halves p (b ∷ bs) = ground (arith, halves p bs)

abbrev is_there : Option ℕ → Bool
is_there none = false
is_there (some n) = true

-- the records of a URL that is counted
unfoldable pub known : List (Text × ℕ) → List QueryRecord → ℕ
known dist [] = 0
known dist (r ∷ rs) = (if is_there (lookup r.backend_url dist) then 1 else 0) + known dist rs

total_of-put :
    (url : Text) (n : ℕ) (dist : List (Text × ℕ))
    → lookup url dist ≡ some n
    → total_of (put url (n + 1) dist) ≡ total_of dist + 1
unfolding total_of lookup put
total_of-put url n [] e = ground arith
total_of-put url n ((j, k) ∷ dist) e = ground (arith, text_eq_iff j url, total_of-put url n dist)

known-put :
    (url : Text) (n m : ℕ) (dist : List (Text × ℕ)) (rs : List QueryRecord)
    → lookup url dist ≡ some n
    → known (put url m dist) rs ≡ known dist rs
unfolding known
known-put url n m dist [] e = refl
known-put url n m dist (r ∷ rs) e = ground (
  arith,
  text_eq_iff url r.backend_url,
  lookup-put url r.backend_url m dist,
  known-put url n m dist rs e,
)

total_of-count_known :
    (dist : List (Text × ℕ)) (rs : List QueryRecord)
    → total_of (count_known dist rs) ≡ total_of dist + known dist rs
unfolding count_known known
total_of-count_known dist [] = omega arith
total_of-count_known dist (r ∷ rs) = elim (Option-cases (lookup r.backend_url dist)) [
  | inl e ↦ ground (arith, total_of-count_known dist rs)
  | inr (n, e) ↦ ground (
    arith,
    total_of-count_known (put r.backend_url (n + 1) dist) rs,
    total_of-put r.backend_url n dist e,
    known-put r.backend_url n (n + 1) dist rs e,
  )
]

-- some backend of the table has the URL
unfoldable pub has_url : Table → Text → Bool
has_url [] url = false
has_url (b ∷ bs) url = text_eq b.url url || has_url bs url

is_there-zero_counts :
    (dist : List (Text × ℕ)) (bs : Table) (url : Text)
    → is_there (lookup url (zero_counts dist bs)) ≡ (is_there (lookup url dist) || has_url bs url)
unfolding zero_counts has_url
is_there-zero_counts dist [] url = ground arith
is_there-zero_counts dist (b ∷ bs) url =
    ground (arith, is_there-zero_counts (put b.url 0 dist) bs url, lookup-put b.url url 0 dist)

total_of-put_zero :
    (url : Text) (dist : List (Text × ℕ)) → total_of dist ≡ 0 → total_of (put url 0 dist) ≡ 0
unfolding total_of put
total_of-put_zero url [] e = refl
total_of-put_zero url ((j, k) ∷ dist) e = ground (arith, total_of-put_zero url dist)

total_of-zero_counts :
    (dist : List (Text × ℕ)) (bs : Table) → total_of dist ≡ 0 → total_of (zero_counts dist bs) ≡ 0
unfolding zero_counts
total_of-zero_counts dist [] e = e
total_of-zero_counts dist (b ∷ bs) e =
    total_of-zero_counts (put b.url 0 dist) bs (total_of-put_zero b.url dist e)

-- the records of a URL of the table
unfoldable pub known_records : Table → List QueryRecord → ℕ
known_records bs [] = 0
known_records bs (r ∷ rs) = (if has_url bs r.backend_url then 1 else 0) + known_records bs rs

known-zero_counts :
    (bs : Table) (rs : List QueryRecord) → known (zero_counts [] bs) rs ≡ known_records bs rs
unfolding known known_records lookup
known-zero_counts bs [] = refl
known-zero_counts bs (r ∷ rs) =
    ground (arith, is_there-zero_counts [] bs r.backend_url, known-zero_counts bs rs)

abbrev pub records_or_none : Option (List QueryRecord) → List QueryRecord
records_or_none none = []
records_or_none (some rs) = rs

nothing : total_of [] ≡ 0
unfolding total_of
nothing = refl

total_of-counted :
    (bs : Table) (o : Option (List QueryRecord))
    → total_of (counted_or_zero (zero_counts [] bs) o) ≡ known_records bs (records_or_none o)
unfolding counted_or_zero known_records
total_of-counted bs none = total_of-zero_counts [] bs nothing
total_of-counted bs (some rs) = omega (
  arith,
  total_of-count_known (zero_counts [] bs) rs,
  total_of-zero_counts [] bs nothing,
  known-zero_counts bs rs,
)

-- In the distribution the backends that are online and those that are not are all the backends, and so
-- are the healthy ones and the others. The number of queries is that of the records, of the first
-- 10000, whose URL is one of the backends'; two backends of one URL count its records once.
pub distribution_totals :
    (cfg : Config) (io : Outside) (latest_hour : ℕ) (w : World) (bs : Table)
    → ((distribution_of cfg io latest_hour w bs).online_backend_count
          + (distribution_of cfg io latest_hour w bs).offline_backend_count
        ≡ (distribution_of cfg io latest_hour w bs).total_backend_count)
      × ((distribution_of cfg io latest_hour w bs).healthy_backend_count
            + (distribution_of cfg io latest_hour w bs).unhealthy_backend_count
          ≡ (distribution_of cfg io latest_hour w bs).total_backend_count)
      × ((distribution_of cfg io latest_hour w bs).total_query_count
          ≡ known_records bs (
              records_or_none (
                rows_of (
                  find_by_filter io.sql io.count_answers io.select_answers
                    (user_filter [] 10000)
                    w.history))))
unfolding distribution_of query_counts
distribution_totals cfg io latest_hour w bs = (
  halves _ bs,
  halves _ bs,
  total_of-counted bs (
      rows_of (
        find_by_filter io.sql io.count_answers io.select_answers (user_filter [] 10000) w.history)),
)
