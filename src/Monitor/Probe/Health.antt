-- ===== src/Monitor/Probe/Health.antt =====
-- What a status says of a backend.
use trino_goway.Base.{
  ◌≡◌, ◌↔◌, ◌⊎◌, inl, inr, refl, ◌∙◌, sym, Bool, true, false, ◌||◌, Option, none, some, List, [],
  ◌∷◌, arith, if◌then◌else◌, Text, text_eq, text_eq_iff, contains, map, Any, Bool-cases,
  Option-cases,
}
use trino_goway.Dict.{lookup, put, lookup-put}
use trino_goway.Monitor.Probe.{
  Status, unknown, Backend, Monitor, Answer, Snapshot, check_one, names_from, names_of,
  or_else_pending, known_or_pending, notify_observer, snapshot, set_backends, or_unknown, status_of,
  results, first_tick, probe_end,
}

abbrev pub Verdict : (Backend → Answer) → Text → Status → List Backend → Type 0
Verdict check u s bs =
    ((s ≡ unknown) × ¬ Any (λ b. b.url ≡ u) bs)
    ⊎ Any (λ b. (b.url ≡ u) × (check_one (check b) ≡ s)) bs

results-Verdict :
    (check : Backend → Answer) (u : Text) (s : Status) (bs : List Backend)
    → or_unknown (lookup u (results check bs)) ≡ s
    → Verdict check u s bs
unfolding results lookup
results-Verdict check u s [] h = inl (sym h, (λ a. a))
results-Verdict check u s (b ∷ bs) h =
    let found = lookup-put b.url u (check_one (check b)) (results check bs) in
    elim (Bool-cases (text_eq b.url u)) [
      | inl e ↦ inr (inl ((text_eq_iff b.url u).0 e, ground (arith, found)))
      | inr e ↦ elim (results-Verdict check u s bs (ground (arith, found))) [
        | inl (n, a) ↦
            inl (n, (λ x. elim x [ inl q ↦ ground (arith, text_eq_iff b.url u) | inr y ↦ a y ]))
        | inr y ↦ inr (inr y)
      ]
    ]

status-probe_end :
    (check : Backend → Answer) (arrival : List Backend → List Backend) (m : Monitor)
    (bs : List Backend)
    → m.probing ≡ some bs
    → (probe_end check arrival m).status ≡ results check (arrival bs)
unfolding probe_end first_tick notify_observer
status-probe_end check arrival m bs e = ground arith

-- When the checks of a probe have ended, in whatever order, the status of a URL is the verdict on the
-- answer of one of the probed backends with that URL, and unknown if there is none.
pub probe_verdict :
    (check : Backend → Answer) (arrival : List Backend → List Backend) (m : Monitor)
    (bs : List Backend) (u : Text)
    → m.probing ≡ some bs
    → ((P : Backend → Type 0) → Any P bs ↔ Any P (arrival bs))
    → Verdict check u (status_of u (probe_end check arrival m)) bs
unfolding status_of
probe_verdict check arrival m bs u e fair =
    rw (status-probe_end check arrival m bs e) (elim (results-Verdict check u _ (arrival bs) refl) [
      | inl (n, a) ↦ inl (n, (λ x. a ((fair _).0 x)))
      | inr y ↦ inr ((fair _).1 y)
    ])

lookup-known_or_pending :
    (u : Text) (st : List (Text × Status)) (names : List (Text × Text))
    → lookup u (known_or_pending st names)
      ≡ elim (lookup u names) [ none ↦ none | some n ↦ some (or_else_pending (lookup u st)) ]
unfolding lookup known_or_pending
lookup-known_or_pending u st [] = refl
lookup-known_or_pending u st ((j, n) ∷ names) =
    ground (arith, text_eq_iff j u, lookup-known_or_pending u st names)

is_named : Option Text → Bool
is_named none = false
is_named (some n) = true

lookup-names_from :
    (u : Text) (names : List (Text × Text)) (bs : List Backend)
    → is_named (lookup u (names_from names bs))
      ≡ (is_named (lookup u names) || contains (map (λ (b : Backend). b.url) bs) u)
unfolding names_from contains is_named
lookup-names_from u names [] = ground arith
lookup-names_from u names (b ∷ bs) =
    ground (arith, lookup-put b.url u b.name names, lookup-names_from u (put b.url b.name names) bs)

lookup-statuses :
    (u : Text) (st : List (Text × Status)) (bs : List Backend)
    → lookup u (known_or_pending st (names_of bs)) ≡ (
        if contains (map (λ (b : Backend). b.url) bs) u
        then some (or_else_pending (lookup u st))
        else none)
unfolding lookup is_named
lookup-statuses u st bs = elim (Option-cases (lookup u (names_of bs))) [
  | inl e ↦
      lookup-known_or_pending u st (names_of bs)
      ∙ rw (e, sym (lookup-names_from u [] bs)) (rw e refl)
  | inr (n, e) ↦
      lookup-known_or_pending u st (names_of bs)
      ∙ rw (e, sym (lookup-names_from u [] bs)) (rw e refl)
]

-- A change of the backends is shown to the observer at once: the snapshot has a status for exactly the URLs
-- of the new backends, the one known from the last probe, or pending for a URL that has none.
pub set_backends_shown :
    (bs : List Backend) (m : Monitor) (seen : List Snapshot) (u : Text)
    → m.observed ≡ some seen
    → (sn : Snapshot) × ((set_backends bs m).observed ≡ some (sn ∷ seen))
      × (lookup u sn.statuses ≡ (
          if contains (map (λ (b : Backend). b.url) bs) u
          then some (or_else_pending (lookup u m.status))
          else none))
unfolding set_backends notify_observer snapshot
set_backends_shown bs m seen u e =
    rw e (snapshot (record m { backends = bs }), refl, lookup-statuses u m.status bs)
