-- ===== src/Store/History/Buckets.antt =====
-- The counts of FindDistribution.
use trino_goway.Base.{
  ℕ, ◌+◌, ◌≤◌, ◌≡◌, refl, Bool, ◌&&◌, ◌==◌, leb, List, [], ◌∷◌, arith, if◌then◌else◌, Text, text_eq,
  text_eq_iff, Bool-cases, inl, inr,
}
use trino_goway.Store.History.{Row, History, DistributionBucket, count_in, buckets, minute_of}
use trino_goway.Store.History.Pages.{tally}

-- the queries that the buckets count in a minute on a backend
unfoldable pub counted : ℕ → Text → List DistributionBucket → ℕ
counted m url [] = 0
counted m url (b ∷ bs) =
    (if m == b.minute && text_eq b.backend_url url then b.query_count else 0) + counted m url bs

abbrev pub IsByMinute : List DistributionBucket → Type 0
IsByMinute [] = Unit
IsByMinute (b ∷ []) = Unit
IsByMinute (b ∷ c ∷ bs) = (b.minute ≤ c.minute) × IsByMinute (c ∷ bs)

counted-count_in :
    (k m : ℕ) (u url : Text) (bs : List DistributionBucket)
    → counted m url (count_in k u bs)
      ≡ (if m == k && text_eq u url then 1 else 0) + counted m url bs
unfolding counted count_in
counted-count_in k m u url [] = ground arith
counted-count_in k m u url (b ∷ bs) = ground (
  arith,
  text_eq_iff b.backend_url u,
  text_eq_iff b.backend_url url,
  text_eq_iff u url,
  counted-count_in k m u url bs,
)

IsByMinute-count_in :
    (k : ℕ) (u : Text) (bs : List DistributionBucket) → IsByMinute bs → IsByMinute (count_in k u bs)
unfolding count_in
IsByMinute-count_in k u [] o = tt
IsByMinute-count_in k u (b ∷ []) o = ground arith
IsByMinute-count_in k u (b ∷ c ∷ bs) (l, o) = ground (arith, IsByMinute-count_in k u (c ∷ bs) o)

-- a row of the minute and the backend, not older than `since`
abbrev pub is_counted : ℕ → ℕ → Text → Row → Bool
is_counted since m url r =
    leb since r.created_at && (m == minute_of r.created_at && text_eq r.backend_url url)

-- The buckets come in the order of their minutes, and for any minute and backend they count the rows of
-- that minute on that backend that are not older than the given time.
pub distribution_counts :
    (since : ℕ) (h : History)
    → IsByMinute (buckets since h)
      × ((m : ℕ) (url : Text) → counted m url (buckets since h) ≡ tally (is_counted since m url) h)
unfolding buckets counted tally
distribution_counts since [] = (tt, λ m url. refl)
distribution_counts since (r ∷ h) =
    let (o, c) = distribution_counts since h in
    elim (Bool-cases (leb since r.created_at)) [
      | inl e ↦ (
        rw (e) (IsByMinute-count_in (minute_of r.created_at) r.backend_url (buckets since h) o),
        λ m url. ground (
          arith,
          c m url,
          counted-count_in (minute_of r.created_at) m r.backend_url url (buckets since h),
        ),
      )
      | inr e ↦ (rw (e) o, λ m url. ground (arith, c m url))
    ]
