-- ===== src/Store/History/Pages.antt =====
-- The rows that FindByFilter gives, and its pages.
use trino_goway.Base.{
  ℕ, suc, zero, ◌+◌, ◌-◌, ◌*◌, ◌%◌, ◌^◌, ◌≤◌, ◌<◌, ◌≡◌, refl, sym, ap, ◌∙◌, Bool, true, false, ◌==◌,
  ◌&&◌, Option, none, some, List, [], ◌∷◌, ◌++◌, arith, if◌then◌else◌, map, take, drop, length, ℤ,
  pos, All, Bool-cases, inl, inr,
}
use trino_goway.Store.History.{
  QueryRecord, Row, Sql, is_before, History, HistoryFilter, scanned, put_by_time, by_time, matches,
  matching, offset, positive_or, find_by_filter,
}

-- no row is older than the next
abbrev pub IsOrdered : History → Type 0
IsOrdered [] = Unit
IsOrdered (r ∷ []) = Unit
IsOrdered (r ∷ s ∷ h) = (s.created_at ≤ r.created_at) × IsOrdered (s ∷ h)

-- the number of rows that pass a test
unfoldable pub tally : (Row → Bool) → History → ℕ
tally p [] = 0
tally p (r ∷ h) = (if p r then 1 else 0) + tally p h

IsOrdered-put_by_time :
    (rank : Row → ℕ) (r : Row) (h : History) → IsOrdered h → IsOrdered (put_by_time rank r h)
unfolding put_by_time
IsOrdered-put_by_time rank r [] o = tt
IsOrdered-put_by_time rank r (s ∷ []) o = ground arith
IsOrdered-put_by_time rank r (s ∷ t ∷ h) (l, o) =
    ground (arith, IsOrdered-put_by_time rank r (t ∷ h) o)

IsOrdered-by_time : (rank : Row → ℕ) (h : History) → IsOrdered (by_time rank h)
unfolding by_time
IsOrdered-by_time rank [] = tt
IsOrdered-by_time rank (r ∷ h) =
    IsOrdered-put_by_time rank r (by_time rank h) (IsOrdered-by_time rank h)

tally-put_by_time :
    (p : Row → Bool) (rank : Row → ℕ) (r : Row) (h : History)
    → tally p (put_by_time rank r h) ≡ (if p r then 1 else 0) + tally p h
unfolding tally put_by_time
tally-put_by_time p rank r [] = refl
tally-put_by_time p rank r (s ∷ h) = ground (arith, tally-put_by_time p rank r h)

tally-by_time :
    (p : Row → Bool) (rank : Row → ℕ) (h : History) → tally p (by_time rank h) ≡ tally p h
unfolding tally by_time
tally-by_time p rank [] = refl
tally-by_time p rank (r ∷ h) =
    ground (arith, tally-put_by_time p rank r (by_time rank h), tally-by_time p rank h)

length-matching :
    (sql : Sql) (f : HistoryFilter) (h : History)
    → length (matching sql f h) ≡ tally (matches sql f) h
unfolding matching tally
length-matching sql f [] = refl
length-matching sql f (r ∷ h) = ground (arith, length-matching sql f h)

module _ (P : Row → Type 0) where
  All-put_by_time :
      (rank : Row → ℕ) (r : Row) (h : History) → P r → All P h → All P (put_by_time rank r h)
  unfolding put_by_time
  All-put_by_time rank r [] p a = (p, tt)
  All-put_by_time rank r (s ∷ h) p (q, a) = elim (Bool-cases (is_before rank r s)) [
    | inl e ↦ rw (e) (p, (q, a))
    | inr e ↦ rw (e) (q, All-put_by_time rank r h p a)
  ]

  All-by_time : (rank : Row → ℕ) (h : History) → All P h → All P (by_time rank h)
  unfolding by_time
  All-by_time rank [] a = tt
  All-by_time rank (r ∷ h) (p, a) = All-put_by_time rank r (by_time rank h) p (All-by_time rank h a)

  All-take : (n : ℕ) (h : History) → All P h → All P (take n h)
  All-take zero h a = tt
  All-take (suc n) [] a = tt
  All-take (suc n) (r ∷ h) (p, a) = (p, All-take n h a)

  All-drop : (n : ℕ) (h : History) → All P h → All P (drop n h)
  All-drop zero h a = a
  All-drop (suc n) [] a = tt
  All-drop (suc n) (r ∷ h) (p, a) = All-drop n h a

All-matching :
    (sql : Sql) (f : HistoryFilter) (h : History)
    → All (λ r. matches sql f r ≡ true) (matching sql f h)
unfolding matching
All-matching sql f [] = tt
All-matching sql f (r ∷ h) = elim (Bool-cases (matches sql f r)) [
  | inl e ↦ rw (e) (e, All-matching sql f h)
  | inr e ↦ rw (e) (All-matching sql f h)
]

IsOrdered-take : (n : ℕ) (h : History) → IsOrdered h → IsOrdered (take n h)
IsOrdered-take zero h o = tt
IsOrdered-take (suc n) [] o = tt
IsOrdered-take (suc zero) (r ∷ h) o = tt
IsOrdered-take (suc (suc n)) (r ∷ []) o = tt
IsOrdered-take (suc (suc n)) (r ∷ s ∷ h) (l, o) = (l, IsOrdered-take (suc n) (s ∷ h) o)

IsOrdered-tail : (r : Row) (h : History) → IsOrdered (r ∷ h) → IsOrdered h
IsOrdered-tail r [] o = tt
IsOrdered-tail r (s ∷ h) (l, o) = o

IsOrdered-drop : (n : ℕ) (h : History) → IsOrdered h → IsOrdered (drop n h)
IsOrdered-drop zero h o = o
IsOrdered-drop (suc n) [] o = tt
IsOrdered-drop (suc n) (r ∷ h) o = IsOrdered-drop n h (IsOrdered-tail r h o)

length-take : (n : ℕ) (h : History) → length (take n h) ≤ n
length-take zero h = omega arith
length-take (suc n) [] = omega arith
length-take (suc n) (r ∷ h) = omega (arith, length-take n h)

-- the rows of the page, before they are scanned
abbrev pub page_rows : Sql → HistoryFilter → History → History
page_rows sql f h =
    take (positive_or 10 f.page_size) (drop (offset f) (by_time sql.rank (matching sql f h)))

pub page_rows-matches :
    (sql : Sql) (f : HistoryFilter) (h : History)
    → All (λ r. matches sql f r ≡ true) (page_rows sql f h)
page_rows-matches sql f h =
    All-take _ _ _
      (All-drop _ _ _ (All-by_time _ sql.rank (matching sql f h) (All-matching sql f h)))

-- What FindByFilter gives are rows that match every field of the filter that is not empty, at most as
-- many as the size of the page, none older than the next; and its total is the number of the matching
-- rows of the table. When both statements are answered and the offset is not negative, it does give them.
pub filtered_rows :
    (sql : Sql) (f : HistoryFilter) (h : History) (counts selects : Bool)
    → offset f < 2 ^ 63
    → (find_by_filter sql counts selects f h ≡ (
        if counts && selects
        then some (map scanned (page_rows sql f h), tally (matches sql f) h)
        else none))
      × All (λ r. matches sql f r ≡ true) (page_rows sql f h)
      × IsOrdered (page_rows sql f h)
      × (length (page_rows sql f h) ≤ positive_or 10 f.page_size)
unfolding find_by_filter
filtered_rows sql f h counts selects b = (
  ground (arith, length-matching sql f h),
  page_rows-matches sql f h,
  IsOrdered-take _ _ (IsOrdered-drop _ _ (IsOrdered-by_time sql.rank (matching sql f h))),
  length-take _ _,
)

take-nil : (n : ℕ) → take {A = Row} n [] ≡ []
take-nil zero = refl
take-nil (suc n) = refl

take_add : (a b n : ℕ) (h : History) → n ≡ a + b → take n h ≡ take a h ++ take b (drop a h)
take_add zero b n h e = rw (e) (ap (λ k. take k h) (omega arith))
take_add (suc a) b n [] e = take-nil n ∙ sym (take-nil b)
take_add (suc a) b zero (r ∷ h) e = ground arith
take_add (suc a) b (suc n) (r ∷ h) e = ap (λ l. r ∷ l) (take_add a b n h (omega (arith, e)))

map_append : (xs ys : History) → map scanned (xs ++ ys) ≡ map scanned xs ++ map scanned ys
map_append [] ys = refl
map_append (x ∷ xs) ys = ap (λ l. scanned x ∷ l) (map_append xs ys)

abbrev pub joined :
    Option (List QueryRecord) → Option (List QueryRecord × ℕ) → Option (List QueryRecord)
joined none o = none
joined (some l) none = none
joined (some l) (some (rows, total)) = some (l ++ rows)

-- the rows of the first pages, one page after the other; the database ranks the rows of one instant anew
-- for each page
unfoldable pub first_pages :
    Sql → (ℕ → Row → ℕ) → HistoryFilter → History → ℕ → Option (List QueryRecord)
first_pages sql ranks f h zero = some []
first_pages sql ranks f h (suc n) =
    joined (first_pages sql ranks f h n)
      (find_by_filter (record sql { rank = ranks n }) true true (record f { page = pos (suc n) }) h)

-- no two rows are of one instant
abbrev pub NoTie : History → Type 0
NoTie [] = Unit
NoTie (r ∷ h) = All (λ s. (s.created_at == r.created_at) ≡ false) h × NoTie h

put_by_time-rank :
    (a b : Row → ℕ) (r : Row) (h : History)
    → All (λ s. (s.created_at == r.created_at) ≡ false) h
    → put_by_time a r h ≡ put_by_time b r h
unfolding put_by_time
put_by_time-rank a b r [] d = refl
put_by_time-rank a b r (s ∷ h) (e, d) = ground (arith, put_by_time-rank a b r h d)

by_time-rank : (a b : Row → ℕ) (h : History) → NoTie h → by_time a h ≡ by_time b h
unfolding by_time
by_time-rank a b [] d = refl
by_time-rank a b (r ∷ h) (e, d) =
    put_by_time-rank a b r (by_time a h) (All-by_time _ a h e)
    ∙ ap (put_by_time b r) (by_time-rank a b h d)

matching-page :
    (sql : Sql) (rank : Row → ℕ) (f : HistoryFilter) (p : ℤ) (h : History)
    → matching (record sql { rank = rank }) (record f { page = p }) h ≡ matching sql f h
unfolding matching matches
matching-page sql rank f p [] = refl
matching-page sql rank f p (r ∷ h) = ground (arith, matching-page sql rank f p h)

wrapped : (a b n s : ℕ) → a ≡ n → b ≡ s → n * s < 2 ^ 63 → (a * b) % 2 ^ 64 ≡ n * s
wrapped a b n s ea eb h = rw (ea, eb) (omega (arith, h))

page_found :
    (sql : Sql) (rank : Row → ℕ) (f : HistoryFilter) (h : History) (s n : ℕ)
    → f.page_size ≡ pos s
    → 0 < s
    → n * s < 2 ^ 63
    → find_by_filter (record sql { rank = rank }) true true (record f { page = pos (suc n) }) h
      ≡ some (
        map scanned (take s (drop (n * s) (by_time rank (matching sql f h)))),
        length (matching sql f h),
      )
unfolding find_by_filter
page_found sql rank f h s n e p b =
    let size : positive_or 10 (pos s) ≡ s = ground arith in
    let off : offset (record f { page = pos (suc n) }) ≡ n * s =
      wrapped (positive_or 1 (pos (suc n)) - 1) (positive_or 10 f.page_size) n s (ground arith)
        (rw (e) size) b in
    rw (matching-page sql rank f (pos (suc n)) h, off, e, size) (ground arith)

-- When no two of the matching rows are of one instant, the first n pages of a size s, one after the
-- other, are the first n * s of all the matching rows in the order of their times, however the database
-- ranks equal times from one page to the next: no row is left out between two pages, and none is given
-- twice. The product of n and s is assumed to be an int.
pub pages_joined :
    (sql : Sql) (ranks : ℕ → Row → ℕ) (f : HistoryFilter) (h : History) (s n : ℕ)
    → NoTie (matching sql f h)
    → f.page_size ≡ pos s
    → 0 < s
    → n * s < 2 ^ 63
    → first_pages sql ranks f h n
      ≡ some (map scanned (take (n * s) (by_time sql.rank (matching sql f h))))
unfolding first_pages find_by_filter
pages_joined sql ranks f h s zero d e p b =
    let z : 0 ≡ 0 * s = omega arith in
    ap (λ k. some (map scanned (take k (by_time sql.rank (matching sql f h))))) z
pages_joined sql ranks f h s (suc n) d e p b =
    let m : n * s < 2 ^ 63 = omega (arith, b) in
    let t = take_add (n * s) s (suc n * s) (by_time sql.rank (matching sql f h)) (omega arith) in
    rw
      (
        pages_joined sql ranks f h s n d e p m,
        page_found sql (ranks n) f h s n e p m,
        by_time-rank (ranks n) sql.rank (matching sql f h) d,
        t,
        map_append (take (n * s) (by_time sql.rank (matching sql f h)))
            (take s (drop (n * s) (by_time sql.rank (matching sql f h)))),
      )
      refl
