-- ===== src/Settings/Load.antt =====
-- What holds of a configuration that was loaded.
use trino_goway.Base.{
  ℕ, suc, ◌≡◌, refl, Bool, true, false, not, ◌||◌, ◌==◌, Option, none, some, List, [], ◌∷◌, arith,
  Text, codes, is_empty, text_eq, ℤ, pos, negsuc, is_negative, All, text_eq_iff, Option-cases, inl,
  inr,
}
use trino_goway.Settings.{Config, default_config, apply_defaults, number_or, text_or, map_or}
use trino_goway.Settings.Checks.{
  ConfigError, loaded, load, validate, checks, cluster_checks, first_error, is_positive, same,
  one_of, unmarshalled,
}

number_or_idem : (n : ℕ) (z : ℤ) → number_or n (number_or n z) ≡ number_or n z
number_or_idem n (negsuc k) = refl
number_or_idem n (pos k) = ground arith

text_or_idem : (s t : Text) → text_or s (text_or s t) ≡ text_or s t
text_or_idem [] [] = refl
text_or_idem (c ∷ s) [] = refl
text_or_idem s (c ∷ t) = refl

map_or_idem {ℓ} : {A : Type ℓ} (d : A) (o : Option A) → map_or d (map_or d o) ≡ map_or d o
map_or_idem d none = refl
map_or_idem d (some m) = refl

module _ {F : Type 0} (one : F) where
  -- The defaults are filled in once: a second time changes nothing.
  defaults_settled :
      (c : Config F) → apply_defaults one (apply_defaults one c) ≡ apply_defaults one c
  unfolding apply_defaults
  defaults_settled c = simp (number_or_idem, text_or_idem, map_or_idem) refl

  load_checked :
      (unmarshal : Text → Config F → Option (Config F)) (bytes : Option Text) (c : Config F)
      → load one unmarshal bytes ≡ loaded c
      → (d : Config F) × (c ≡ apply_defaults one d) × (validate c ≡ none)
  unfolding load unmarshalled
  load_checked unmarshal none c h = ground arith
  load_checked unmarshal (some bytes) c h = elim (Option-cases (unmarshal bytes default_config)) [
    | inl e ↦ ground arith
    | inr (d, e) ↦ elim (Option-cases (validate (apply_defaults one d))) [
      | inl v ↦ (d, ground arith, ground arith)
      | inr (x, v) ↦ ground arith
    ]
  ]

-- A zero duration, port or size is none.
abbrev pub is_set : ℤ → Bool
is_set (pos n) = not (n == 0)
is_set (negsuc n) = true

abbrev pub monitor_types : List Text
monitor_types = codes "NOOP" ∷ codes "INFO_API" ∷ codes "UI_API" ∷ codes "METRICS" ∷ []

is_set-number_or : (n : ℕ) (z : ℤ) → is_set (number_or (suc n) z) ≡ true
is_set-number_or n (negsuc k) = refl
is_set-number_or n (pos k) = ground arith

positive_of : (z : ℤ) → is_set z ≡ true → is_negative z ≡ false → is_positive z ≡ true
positive_of (pos n) s m = s
positive_of (negsuc n) s m = ground arith

is_empty-text_or : (x : ℕ) (s t : Text) → is_empty (text_or (x ∷ s) t) ≡ false
is_empty-text_or x s [] = refl
is_empty-text_or x s (c ∷ t) = refl

supported :
    (t : Text)
    → is_empty t ≡ false
    → one_of t (codes "JDBC" ∷ codes "JMX" ∷ []) ≡ false
    → not (
        one_of t (
          []
          ∷ codes "NOOP"
          ∷ codes "INFO_API"
          ∷ codes "UI_API"
          ∷ codes "METRICS"
          ∷ codes "JDBC"
          ∷ codes "JMX"
          ∷ []))
      ≡ false
    → one_of t monitor_types ≡ true
unfolding text_eq
supported [] e o k = ground arith
supported (c ∷ t) e o k =
    any_of (text_eq (c ∷ t) (codes "NOOP")) (text_eq (c ∷ t) (codes "INFO_API"))
      (text_eq (c ∷ t) (codes "UI_API")) (text_eq (c ∷ t) (codes "METRICS")) _ _ o k
  where
    any_of :
        (a b x y v w : Bool)
        → (v || (w || false)) ≡ false
        → not (a || (b || (x || (y || (v || (w || false)))))) ≡ false
        → (a || (b || (x || (y || false)))) ≡ true
    any_of a b x y v w o k = ground arith

passed : (l : List (Bool × ConfigError)) → first_error l ≡ none → All (λ x. x.0 ≡ false) l
passed [] h = tt
passed ((true, e) ∷ l) h = ground arith
passed ((false, e) ∷ l) h = (refl, passed l h)

module _ {F : Type 0} (one : F) where
  -- A configuration that is loaded has the defaults filled in. Its two ports differ, its response size is
  -- positive, its routing type is EXTERNAL, its monitor type is one of the four that are supported, and
  -- the time that statistics may take and the time between two refreshes are positive. The other
  -- durations are not zero.
  pub loaded_usable :
      (unmarshal : Text → Config F → Option (Config F)) (bytes : Option Text) (c : Config F)
      → load one unmarshal bytes ≡ loaded c
      → (apply_defaults one c ≡ c)
        × (same c.proxy.port c.admin_port ≡ false)
        × (is_positive c.proxy.response_size ≡ true)
        × (c.routing_type ≡ codes "EXTERNAL")
        × (one_of c.monitor_type monitor_types ≡ true)
        × (is_positive c.monitor.stats_timeout ≡ true)
        × (is_positive c.monitor.refresh_interval ≡ true)
        × (is_set c.monitor.interval ≡ true)
        × (is_set c.cookie_ttl ≡ true)
  unfolding validate checks cluster_checks apply_defaults
  loaded_usable unmarshal bytes c h =
      let (d, e, v) = load_checked one unmarshal bytes c h in
      let (
        ports,
        (
          size,
          (
            driver,
            (
              routing,
              (
                jwks,
                (path, (url, (base, (user, (old, (kind, (stats, (refresh, (retries, _))))))))),
              ),
            ),
          ),
        ),
      ) =
        passed (checks c) v in
      let settled : apply_defaults one c ≡ c = rw (e) (defaults_settled one d) in
      (
        settled,
        ports,
        ground arith,
        ground (arith, text_eq_iff c.routing_type (codes "EXTERNAL")),
        supported c.monitor_type (rw (e) (is_empty-text_or _ _ d.monitor_type)) old kind,
        positive_of c.monitor.stats_timeout
            (rw (e) (is_set-number_or 9999999999 d.monitor.stats_timeout)) stats,
        positive_of c.monitor.refresh_interval
            (rw (e) (is_set-number_or 14999999999 d.monitor.refresh_interval)) refresh,
        rw (e) (is_set-number_or 29999999999 d.monitor.interval),
        rw (e) (is_set-number_or 599999999999 d.cookie_ttl),
      )
