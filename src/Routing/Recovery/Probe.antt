-- ===== src/Routing/Recovery/Probe.antt =====
-- Which backend the recovery chain gives.
use trino_goway.Base.{
  ℕ, ◌≡◌, refl, ◌↔◌, inl, inr, true, false, some, List, [], ◌∷◌, arith, Text, Any, is_empty,
  Bool-cases,
}
use trino_goway.Routing.Recovery.{
  ActiveBackend, World, probe_one, first_result, head_probe_fan_out, recover_backend,
}

-- The backend has the URL and its probe is answered by 200.
abbrev pub Answers : World → Text → Text → ActiveBackend → Type 0
Answers w id url b = (b.url ≡ url) × (probe_one w b.url id ≡ true)

first_result-Answers :
    (w : World) (id : Text) (bs : List ActiveBackend) (u : Text)
    → first_result w id bs ≡ u
    → is_empty u ≡ false
    → Any (Answers w id u) bs
unfolding first_result
first_result-Answers w id [] u e h = absurd (ground arith)
first_result-Answers w id (b ∷ bs) u e h = elim (Bool-cases (probe_one w b.url id)) [
  | inl p ↦ elim (Bool-cases (is_empty b.url)) [
    | inl n ↦ inr (first_result-Answers w id bs u (ground arith) h)
    | inr n ↦ inl (ground arith, p)
  ]
  | inr p ↦ inr (first_result-Answers w id bs u (ground arith) h)
]

first_result_found :
    (w : World) (id : Text) (bs : List ActiveBackend)
    → Any (λ b. (is_empty b.url ≡ false) × (probe_one w b.url id ≡ true)) bs
    → is_empty (first_result w id bs) ≡ false
unfolding first_result
first_result_found w id [] h = absurd h
first_result_found w id (b ∷ bs) (inl h) = ground arith
first_result_found w id (b ∷ bs) (inr h) = ground (arith, first_result_found w id bs h)

-- Where a recovered URL comes from: the history; or, with nothing in the history and some active
-- backends, a backend whose probe is answered by 200; or, when no such backend has a URL, the first of
-- them.
pub data Recovered (w : World) (id : Text) (bs : List ActiveBackend) (url : Text) : Type 0 where
  from_history : w.history id ≡ url → is_empty url ≡ false → Recovered w id bs url
  from_probe :
      is_empty (w.history id) ≡ true
      → is_empty url ≡ false
      → Any (Answers w id url) bs
      → Recovered w id bs url
  from_first :
      is_empty (w.history id) ≡ true
      → ¬ Any (λ b. (is_empty b.url ≡ false) × (probe_one w b.url id ≡ true)) bs
      → (b : ActiveBackend) (rest : List ActiveBackend) → bs ≡ b ∷ rest
      → b.url ≡ url
      → Recovered w id bs url

-- The probes' order of arrival is some order of the backends that were asked.
abbrev pub IsFair : World → Type 1
IsFair w = (P : ActiveBackend → Type 0) (bs : List ActiveBackend) → Any P bs ↔ Any P (w.arrival bs)

-- With an active backend at hand the recovery chain keeps its order: the history first, then a backend
-- that answers its probe, and the first backend only when none with a URL answers.
pub recover_backend_order :
    (w : World) (n : ℕ) (id : Text) (b : ActiveBackend) (rest : List ActiveBackend)
    → IsFair w
    → w.list_active n ≡ some (b ∷ rest)
    → Recovered w id (b ∷ rest) (recover_backend w n id).0
unfolding recover_backend head_probe_fan_out
recover_backend_order w n id b rest fair e = elim (Bool-cases (is_empty (w.history id))) [
  | inr h ↦ rw h (from_history refl h)
  | inl h ↦ elim (Bool-cases (is_empty (first_result w id (w.arrival (b ∷ rest))))) [
    | inl m ↦
        rw (h, e, m)
          (from_first h
            (λ a. absurd (
              ground
                (arith, first_result_found w id (w.arrival (b ∷ rest)) ((fair _ (b ∷ rest)).0 a))))
            b rest refl refl)
    | inr m ↦
        rw (h, e, m)
          (from_probe h m
            ((fair _ (b ∷ rest)).1 (first_result-Answers w id (w.arrival (b ∷ rest)) _ refl m)))
  ]
]
