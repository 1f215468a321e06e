-- ===== src/Auth/Roles/Pages.antt =====
-- The pages of the roles of a principal.
use trino_goway.Base.{
  ℕ, if◌then◌else◌, ◌≡◌, refl, Bool, true, false, not, ◌&&◌, ◌||◌, List, [], ◌∷◌, ◌++◌, arith, Text,
  is_empty, contains, text_eq, text_eq_iff, IsDistinct, Bool-cases, Option-cases, none, some, ◌==◌,
  inl, inr,
}
use trino_goway.Dict.{lookup}
use trino_goway.Auth.Roles.{
  split_pages, new_pages, pages_of, has_unrestricted, resolve_page_permissions, or_empty,
}

contains-append :
    (xs ys : List Text) (p : Text) → contains (xs ++ ys) p ≡ (contains xs p || contains ys p)
unfolding contains
contains-append [] ys p = refl
contains-append (x ∷ xs) ys p = ground (arith, contains-append xs ys p)

contains-new_pages :
    (seen l : List Text) (p : Text)
    → contains (new_pages seen l) p ≡ (not (is_empty p) && (not (contains seen p) && contains l p))
unfolding new_pages contains
contains-new_pages seen [] p = ground arith
contains-new_pages seen (x ∷ l) p =
    ground (arith, text_eq_iff x p, contains-new_pages seen l p, contains-new_pages (x ∷ seen) l p)

new_pages-IsDistinct : (seen l : List Text) → IsDistinct (new_pages seen l)
unfolding new_pages contains
new_pages-IsDistinct seen [] = tt
new_pages-IsDistinct seen (x ∷ l) = elim (Bool-cases (is_empty x || contains seen x)) [
  | inl e ↦ rw (e) (new_pages-IsDistinct seen l)
  | inr e ↦ rw (e) (
    ground (arith, text_eq_iff x x, contains-new_pages (x ∷ seen) l x),
    new_pages-IsDistinct (x ∷ seen) l,
  )
]

-- The text begins with the page, and a line between two pages or the end of the text follows.
unfoldable pub begins : Text → Text → Bool
begins [] [] = true
begins [] (c ∷ s) = c == b'_'
begins (x ∷ p) [] = false
begins (x ∷ p) (c ∷ s) = not (c == b'_') && (c == x && begins p s)

-- The page follows a line somewhere in the text.
unfoldable pub follows : Text → Text → Bool
follows p [] = false
follows p (c ∷ s) = (c == b'_' && begins p s) || follows p s

abbrev pub lists : Text → Text → Bool
lists s p = begins p s || follows p s

-- what is known of the parts of a text
abbrev IsCut : Text → List Text → Text → Type 0
IsCut s [] p = ⊥
IsCut s (part ∷ parts) p = (text_eq part p ≡ begins p s) × (contains parts p ≡ follows p s)

IsCut-cons :
    (c : ℕ) (s : Text) (l : List Text) (p : Text)
    → ((q : Text) → IsCut s l q)
    → IsCut
        (c ∷ s)
        (elim l [
          | [] ↦ (c ∷ []) ∷ []
          | part ∷ parts ↦ if c == b'_' then [] ∷ part ∷ parts else (c ∷ part) ∷ parts
        ])
        p
unfolding contains text_eq begins follows
IsCut-cons c s [] p h = absurd (h p)
IsCut-cons c s (part ∷ parts) [] h = elim (Bool-cases (c == b'_')) [
  | inl e ↦ rw (e) (ground (arith, e), ground (arith, e, h []))
  | inr e ↦ rw (e) (ground (arith, e), ground (arith, e, h []))
]
IsCut-cons c s (part ∷ parts) (x ∷ p) h = elim (Bool-cases (c == b'_')) [
  | inl e ↦ rw (e) (ground (arith, e), ground (arith, e, h (x ∷ p)))
  | inr e ↦ rw (e) (ground (arith, h p), ground (arith, h (x ∷ p)))
]

IsCut-split_pages : (s p : Text) → IsCut s (split_pages s) p
unfolding split_pages contains text_eq begins follows
IsCut-split_pages [] [] = (refl, refl)
IsCut-split_pages [] (x ∷ p) = (refl, refl)
IsCut-split_pages (c ∷ s) p = IsCut-cons c s (split_pages s) p (IsCut-split_pages s)

contains-IsCut : (s : Text) (l : List Text) (p : Text) → IsCut s l p → contains l p ≡ lists s p
unfolding contains
contains-IsCut s [] p h = absurd h
contains-IsCut s (part ∷ parts) p h = ground arith

contains-split_pages : (s p : Text) → contains (split_pages s) p ≡ lists s p
contains-split_pages s p = contains-IsCut s (split_pages s) p (IsCut-split_pages s p)

-- the entry of some role of the list lists the page
unfoldable pub grants : List Text → List (Text × Text) → Text → Bool
grants [] perms p = false
grants (role ∷ roles) perms p =
    elim (lookup role perms) [ none ↦ false | some entry ↦ lists entry p ] || grants roles perms p

-- there is an entry for each role of the list
unfoldable pub all_listed : List Text → List (Text × Text) → Bool
all_listed [] perms = true
all_listed (role ∷ roles) perms =
    elim (lookup role perms) [ none ↦ false | some entry ↦ true ] && all_listed roles perms

has_unrestricted-all_listed :
    (roles : List Text) (perms : List (Text × Text))
    → has_unrestricted roles perms ≡ not (all_listed roles perms)
unfolding has_unrestricted all_listed
has_unrestricted-all_listed [] perms = refl
has_unrestricted-all_listed (role ∷ roles) perms = elim (Option-cases (lookup role perms)) [
  | inl e ↦ rw (e) refl
  | inr (entry, e) ↦ rw (e) (has_unrestricted-all_listed roles perms)
]

contains-pages_of :
    (roles : List Text) (perms : List (Text × Text)) (p : Text)
    → all_listed roles perms ≡ true
    → contains (pages_of roles perms) p ≡ grants roles perms p
unfolding pages_of grants all_listed contains
contains-pages_of [] perms p h = refl
contains-pages_of (role ∷ roles) perms p h = ground (
  arith,
  contains-pages_of roles perms p,
  contains-append (split_pages (or_empty (lookup role perms))) (pages_of roles perms) p,
  contains-split_pages (or_empty (lookup role perms)) p,
)

-- No page is listed twice; and a page is listed exactly when it is not empty, there are roles and a
-- table, the table has an entry for each of the roles, and in one of these entries the page stands
-- between underscores, the ends of the entry counted as such.
pub resolved_pages :
    (roles : List Text) (perms : List (Text × Text))
    → IsDistinct (resolve_page_permissions roles perms)
      × ((p : Text)
          → contains (resolve_page_permissions roles perms) p
            ≡ (not (is_empty p) && (all_listed roles perms && grants roles perms p)))
unfolding resolve_page_permissions contains grants all_listed lookup
resolved_pages [] perms = (tt, λ p. ground arith)
resolved_pages (r ∷ rs) [] = (tt, λ p. unlisted (is_empty p))
  where
    unlisted : (b : Bool) → false ≡ (not b && false)
    unlisted b = ground arith
resolved_pages (r ∷ rs) (e ∷ perms) = elim (Bool-cases (has_unrestricted (r ∷ rs) (e ∷ perms))) [
  | inl h ↦ rw (h) (tt, λ p. ground (arith, has_unrestricted-all_listed (r ∷ rs) (e ∷ perms)))
  | inr h ↦ rw (h) (
    new_pages-IsDistinct [] (pages_of (r ∷ rs) (e ∷ perms)),
    λ p. ground (
      arith,
      contains-new_pages [] (pages_of (r ∷ rs) (e ∷ perms)) p,
      has_unrestricted-all_listed (r ∷ rs) (e ∷ perms),
      contains-pages_of (r ∷ rs) (e ∷ perms) p,
    ),
  )
]
