-- ===== src/Store/Backends/Names.antt =====
-- The primary key of the table of backends, and what the listings show.
use trino_goway.Base.{
  ℕ, ◌≡◌, refl, Bool, false, ◌||◌, Option, none, some, List, [], ◌∷◌, arith, if◌then◌else◌, Text,
  text_eq, text_eq_iff, IsDistinct, contains, Bool-cases, inl, inr,
}
use trino_goway.Store.Backends.{
  Backend, Table, upsert_row, delete_rows, set_active_rows, active_rows,
}
use trino_goway.Store.Backends.Abstract.{
  Command, upserts, deletes, sets_active, execute, execute_all, row_of,
}

unfoldable pub names : Table → List Text
names [] = []
names (r ∷ t) = r.name ∷ names t

contains-upsert_row :
    (b : Backend) (t : Table) (n : Text)
    → contains (names (upsert_row b t)) n ≡ (text_eq b.name n || contains (names t) n)
unfolding names upsert_row contains
contains-upsert_row b [] n = ground arith
contains-upsert_row b (r ∷ t) n =
    ground (arith, text_eq_iff r.name b.name, contains-upsert_row b t n)

contains-delete_rows :
    (d : Text) (t : Table) (n : Text)
    → contains (names t) n ≡ false
    → contains (names (delete_rows d t)) n ≡ false
unfolding names delete_rows contains
contains-delete_rows d [] n h = h
contains-delete_rows d (r ∷ t) n h = ground (arith, contains-delete_rows d t n)

names-set_active_rows :
    (s : Text) (active : Bool) (now : ℕ) (t : Table)
    → names (set_active_rows s active now t) ≡ names t
unfolding names set_active_rows
names-set_active_rows s active now [] = refl
names-set_active_rows s active now (r ∷ t) = ground (arith, names-set_active_rows s active now t)

IsDistinct-upsert_row :
    (b : Backend) (t : Table) → IsDistinct (names t) → IsDistinct (names (upsert_row b t))
unfolding names upsert_row contains
IsDistinct-upsert_row b [] h = (refl, tt)
IsDistinct-upsert_row b (r ∷ t) (h, d) = elim (Bool-cases (text_eq r.name b.name)) [
  | inl e ↦ rw (e) (ground (arith, text_eq_iff r.name b.name), d)
  | inr e ↦ rw (e) (
    ground (
      arith,
      text_eq_iff r.name b.name,
      text_eq_iff b.name r.name,
      contains-upsert_row b t r.name,
    ),
    IsDistinct-upsert_row b t d,
  )
]

IsDistinct-delete_rows :
    (d : Text) (t : Table) → IsDistinct (names t) → IsDistinct (names (delete_rows d t))
unfolding names delete_rows contains
IsDistinct-delete_rows d [] h = h
IsDistinct-delete_rows d (r ∷ t) (h, k) = elim (Bool-cases (text_eq r.name d)) [
  | inl e ↦ rw (e) (IsDistinct-delete_rows d t k)
  | inr e ↦ rw (e) (contains-delete_rows d t r.name h, IsDistinct-delete_rows d t k)
]

IsDistinct-execute :
    (c : Command) (t : Table) → IsDistinct (names t) → IsDistinct (names (execute c t))
IsDistinct-execute (upserts b) t h = IsDistinct-upsert_row b t h
IsDistinct-execute (deletes d) t h = IsDistinct-delete_rows d t h
IsDistinct-execute (sets_active s active now) t h = rw (names-set_active_rows s active now t) h

IsDistinct-execute_all :
    (cs : List Command) (t : Table) → IsDistinct (names t) → IsDistinct (names (execute_all cs t))
unfolding execute_all
IsDistinct-execute_all [] t h = h
IsDistinct-execute_all (c ∷ cs) t h =
    IsDistinct-execute_all cs (execute c t) (IsDistinct-execute c t h)

abbrev pub if_active : Option Backend → Option Backend
if_active none = none
if_active (some r) = if r.active then some r else none

row_of_absent : (n : Text) (t : Table) → contains (names t) n ≡ false → row_of n t ≡ none
unfolding row_of names contains
row_of_absent n [] h = refl
row_of_absent n (r ∷ t) h = ground (arith, row_of_absent n t)

row_of-active_rows :
    (n : Text) (t : Table)
    → IsDistinct (names t)
    → row_of n (active_rows t) ≡ if_active (row_of n t)
unfolding row_of active_rows names contains
row_of-active_rows n [] h = refl
row_of-active_rows n (r ∷ t) (h, d) =
    ground (arith, text_eq_iff r.name n, row_of_absent n t, row_of-active_rows n t d)

-- The statements keep the names of the rows distinct, and while they are, the listing of active
-- backends shows a name exactly when the backend of that name is active, and then that backend.
pub active_listing :
    (cs : List Command) (t : Table) (n : Text)
    → IsDistinct (names t)
    → IsDistinct (names (execute_all cs t))
      × (row_of n (active_rows (execute_all cs t)) ≡ if_active (row_of n (execute_all cs t)))
active_listing cs t n h = (
  IsDistinct-execute_all cs t h,
  row_of-active_rows n (execute_all cs t) (IsDistinct-execute_all cs t h),
)
