-- ===== src/Engine/Pipeline/Switches.antt =====
-- Switching methods off and on, alone and between the stores of other goroutines.
use trino_goway.Base.{
  ◌≡◌, ◌≢◌, refl, ap, ◌∙◌, ◌++◌, Bool, true, false, not, none, some, List, [], ◌∷◌, arith, Text,
  All, text_eq, if◌then◌else◌, text_eq_iff, Bool-cases, inl, inr, Option-cases, contains, map,
}
use trino_goway.Engine.Method.{RoutingMethod, provider, disabled}
use trino_goway.Engine.Pipeline.{
  Pipeline, load, is_disabled, type_of, disable_one, enable_one, update_first, update_method,
  disable_method, enable_method,
}

-- The first method of the type, if there is one, is not switched off.
abbrev pub first_on : Text → List RoutingMethod → Bool
first_on name [] = true
first_on name (m ∷ ms) = if text_eq (type_of m) name then not (is_disabled m) else first_on name ms

pub type_of-disable_one : (m : RoutingMethod) → type_of (disable_one m) ≡ type_of m
unfolding type_of
type_of-disable_one (provider m) = refl
type_of-disable_one (disabled m) = refl

update_first-none :
    (name : Text) (f g : RoutingMethod → RoutingMethod) (ms : List RoutingMethod)
    → update_first name f ms ≡ none
    → update_first name g ms ≡ none
unfolding update_first
update_first-none name f g [] h = refl
update_first-none name f g (m ∷ ms) h = ground (arith, update_first-none name f g ms)

enable-disable_one : (m : RoutingMethod) → is_disabled m ≡ false → enable_one (disable_one m) ≡ m
unfolding is_disabled
enable-disable_one (provider m) h = refl
enable-disable_one (disabled m) h = cc

update_first_undo :
    (name : Text) (ms : List RoutingMethod) {ms' : List RoutingMethod}
    → first_on name ms ≡ true
    → update_first name disable_one ms ≡ some ms'
    → update_first name enable_one ms' ≡ some ms
unfolding update_first
update_first_undo name [] h e = cc
update_first_undo name (m ∷ ms) {ms'} h e = elim (Bool-cases (text_eq (type_of m) name)) [
  | inl t ↦
      let q : disable_one m ∷ ms ≡ ms' = ground arith in
      rw (← q) (ground (arith, type_of-disable_one m, enable-disable_one m))
  | inr t ↦ elim (Option-cases (update_first name disable_one ms)) [
    | inl n ↦ ground arith
    | inr (l, n) ↦
        let q : m ∷ l ≡ ms' = ground arith in
        rw (← q) (ground (arith, update_first_undo name ms {ms' = l}))
  ]
]

methods-load :
    (name : Text) (f : RoutingMethod → RoutingMethod) (p : Pipeline) {l : List RoutingMethod}
    → update_first name f (load p) ≡ some l
    → p.methods ≡ some (load p)
unfolding update_first
methods-load name f p h = ground arith

-- Switching a method off and on again gives the pipeline back, if its first method of that type, where
-- it has one, was on.
pub enable_method-disable_method :
    (name : Text) (p : Pipeline)
    → first_on name (load p) ≡ true
    → enable_method name (disable_method name p) ≡ p
unfolding enable_method disable_method update_method
enable_method-disable_method name p h =
    elim (Option-cases (update_first name disable_one (load p))) [
      | inl n ↦ ground (arith, update_first-none name disable_one enable_one (load p))
      | inr (l, n) ↦
          ground (
            arith,
            update_first_undo name (load p) {ms' = l} h n,
            methods-load name disable_one p n,
          )
    ]

-- The list after updateMethod's change, if the type is found in it.
abbrev pub updated :
    Text → (RoutingMethod → RoutingMethod) → List RoutingMethod → List RoutingMethod
updated name fn ms = elim (update_first name fn ms) [ none ↦ ms | some l ↦ l ]

abbrev pub last_of : List RoutingMethod → List (List RoutingMethod) → List RoutingMethod
last_of ms [] = ms
last_of ms (other ∷ others) = last_of other others

update_first_found :
    (name : Text) (fn : RoutingMethod → RoutingMethod) (ms : List RoutingMethod)
    → contains (map type_of ms) name ≡ true
    → update_first name fn ms ≢ none
unfolding update_first contains
update_first_found name fn [] h = λ e. cc
update_first_found name fn (m ∷ ms) h = ground (arith, update_first_found name fn ms)

last_of-has :
    (name : Text) (ms : List RoutingMethod) (others : List (List RoutingMethod))
    → All (λ l. contains (map type_of l) name ≡ true) (ms ∷ others)
    → contains (map type_of (last_of ms others)) name ≡ true
last_of-has name ms [] h = h.0
last_of-has name ms (other ∷ others) h = last_of-has name other others h.1

update_method-updated :
    (name : Text) (fn : RoutingMethod → RoutingMethod) (others : List (List RoutingMethod))
    (p : Pipeline)
    → All (λ ms. contains (map type_of ms) name ≡ true) (load p ∷ others)
    → update_method name fn others p
      ≡ record p { methods = some (updated name fn (last_of (load p) others)) }
unfolding update_method
update_method-updated name fn [] p h = ground (arith, update_first_found name fn (load p) h.0)
update_method-updated name fn (other ∷ others) p h = ground (
  arith,
  update_first_found name fn (load p) h.0,
  update_method-updated name fn others (record p { methods = some other }) h.1,
)

-- The method is in the list, it has the type, and none before it has.
abbrev pub IsFirst :
    Text → List RoutingMethod → RoutingMethod → List RoutingMethod → List RoutingMethod → Type 0
IsFirst name before m after ms =
    (ms ≡ before ++ m ∷ after) × (contains (map type_of before) name ≡ false) × (type_of m ≡ name)

updated-IsFirst :
    (name : Text) (fn : RoutingMethod → RoutingMethod) (ms : List RoutingMethod)
    → contains (map type_of ms) name ≡ true
    → (before : List RoutingMethod) × (m : RoutingMethod) × (after : List RoutingMethod) × IsFirst
        name before m after ms
      × (updated name fn ms ≡ before ++ fn m ∷ after)
unfolding update_first contains
updated-IsFirst name fn [] h = ground arith
updated-IsFirst name fn (m ∷ ms) h = elim (Bool-cases (text_eq (type_of m) name)) [
  | inl t ↦ ([], m, ms, (refl, refl, (text_eq_iff (type_of m) name).0 t), ground (arith, t))
  | inr t ↦
      let (before, x, after, (e, c, y), u) = updated-IsFirst name fn ms (ground arith) in
      (
        m ∷ before,
        x,
        after,
        (ap (λ l. m ∷ l) e, rw (t) c, y),
        ground (arith, t, u, update_first_found name fn ms (ground arith)),
      )
]

-- No update is lost. Whatever lists other goroutines store between the attempts of updateMethod, as
-- long as each list that it loads has a method of the type, the call returns with the first method of
-- that type in the last list stored replaced by its change, and with the other methods of that list and
-- the rest of the pipeline as they were.
pub update_method_interleaved :
    (name : Text) (fn : RoutingMethod → RoutingMethod) (others : List (List RoutingMethod))
    (p : Pipeline)
    → All (λ ms. contains (map type_of ms) name ≡ true) (load p ∷ others)
    → (before : List RoutingMethod) × (m : RoutingMethod) × (after : List RoutingMethod) × IsFirst
        name before m after
        (last_of (load p) others)
      × (update_method name fn others p ≡ record p { methods = some (before ++ fn m ∷ after) })
update_method_interleaved name fn others p h =
    let (before, m, after, f, u) =
      updated-IsFirst name fn (last_of (load p) others) (last_of-has name (load p) others h) in
    (
      before,
      m,
      after,
      f,
      update_method-updated name fn others p h ∙ ap (λ l. record p { methods = some l }) u,
    )
