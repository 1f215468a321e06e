-- ===== src/Sqlmeta/Names/Sorted.antt =====
-- The string set gives each of its members once, in ascending order.
use trino_goway.Base.{
  ◌≡◌, refl, ◌∙◌, ap, Bool, true, false, not, ◌&&◌, ◌||◌, List, [], ◌∷◌, arith, Text, text_eq,
  text_lt, contains, is_empty, text_eq_iff, IsDistinct, text_lt_total, Bool-cases, inl, inr,
}
use trino_goway.Sqlmeta.Names.{StringSet, set_add, insert_sorted, sorted}

-- the first item of the list, if any, is above `x`
abbrev pub Above : Text → List Text → Type 0
Above x [] = Unit
Above x (y ∷ l) = text_lt x y ≡ true

-- Each item is strictly above the one before it.
abbrev pub IsAscending : List Text → Type 0
IsAscending [] = Unit
IsAscending (x ∷ l) = Above x l × IsAscending l

contains-insert_sorted :
    (x : Text) (l : List Text) (v : Text)
    → contains (insert_sorted x l) v ≡ (text_eq x v || contains l v)
unfolding contains insert_sorted
contains-insert_sorted x [] v = refl
contains-insert_sorted x (y ∷ l) v = ground (arith, contains-insert_sorted x l v)

pub contains-sorted : (m : StringSet) (v : Text) → contains (sorted m) v ≡ contains m v
unfolding sorted contains
contains-sorted [] v = refl
contains-sorted (x ∷ m) v =
    contains-insert_sorted x (sorted m) v
    ∙ ap (λ (b : Bool). text_eq x v || b) (contains-sorted m v)

Above-insert_sorted :
    (y x : Text) (l : List Text) → text_lt y x ≡ true → Above y l → Above y (insert_sorted x l)
unfolding insert_sorted
Above-insert_sorted y x [] h a = h
Above-insert_sorted y x (z ∷ l) h a = ground arith

insert_sorted-IsAscending :
    (x : Text) (l : List Text)
    → contains l x ≡ false
    → IsAscending l
    → IsAscending (insert_sorted x l)
unfolding insert_sorted contains
insert_sorted-IsAscending x [] d h = (tt, tt)
insert_sorted-IsAscending x (y ∷ l) d h = elim (Bool-cases (text_lt y x)) [
  | inl e ↦ rw e (Above-insert_sorted y x l e h.0, insert_sorted-IsAscending x l (ground arith) h.1)
  | inr e ↦ rw e (text_lt_total y x e (ground arith), h)
]

pub sorted-IsAscending : (m : StringSet) → IsDistinct m → IsAscending (sorted m)
unfolding sorted
sorted-IsAscending [] d = tt
sorted-IsAscending (x ∷ m) d =
    insert_sorted-IsAscending x (sorted m) (contains-sorted m x ∙ d.0) (sorted-IsAscending m d.1)

pub set_add-IsDistinct : (v : Text) (m : StringSet) → IsDistinct m → IsDistinct (set_add v m)
unfolding set_add
set_add-IsDistinct v m d = ground arith

pub contains-set_add :
    (v : Text) (m : StringSet) (w : Text)
    → contains (set_add v m) w ≡ ((not (is_empty v) && text_eq v w) || contains m w)
unfolding set_add contains
contains-set_add v m w = ground (arith, text_eq_iff v w)
