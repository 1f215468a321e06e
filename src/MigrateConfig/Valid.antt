-- ===== src/MigrateConfig/Valid.antt =====
-- The configuration that a conversion gives is one that the gateway takes.
use trino_goway.Base.{
  ◌≡◌, refl, subst, Bool, true, false, not, ◌&&◌, ◌||◌, Option, none, some, List, [], ◌∷◌, arith,
  if◌then◌else◌, Text, codes, is_empty, text_eq, has_prefix, to_lower, ℤ, pos, negsuc, is_negative,
  All, Bool-cases, Option-cases, inl, inr,
}
use trino_goway.Settings.{apply_defaults, number_or, text_or}
use trino_goway.Settings.Checks.{
  ConfigError, validate, checks, cluster_checks, first_error, is_positive, same, one_of,
}
use trino_goway.MigrateConfig.{
  JavaConfig, GoConfig, Warning, has_part, detect_driver, text_or_empty, converted, migrate_config,
}

first_error-none : (l : List (Bool × ConfigError)) → All (λ x. x.0 ≡ false) l → first_error l ≡ none
first_error-none [] h = refl
first_error-none ((b, e) ∷ l) (h, t) = rw (h) (first_error-none l t)

abbrev drivers : List Text
drivers = [] ∷ codes "postgres" ∷ codes "mysql" ∷ []

known_driver : (driver : Text) → one_of (text_or_empty (detect_driver driver)) drivers ≡ true
unfolding detect_driver text_eq
known_driver driver =
    elim (Bool-cases (
      has_part (to_lower driver) (codes "postgresql")
      || has_part (to_lower driver) (codes "postgres"))) [
        | inl e ↦ rw (e) refl
        | inr e ↦ elim (Bool-cases (has_part (to_lower driver) (codes "mysql"))) [
          | inl k ↦ rw (e, k) refl
          | inr k ↦ rw (e, k) refl
        ]
      ]

known_or_no_driver :
    (b : Bool) (driver : Text)
    → not (one_of (if b then [] else text_or_empty (detect_driver driver)) drivers) ≡ false
unfolding text_eq
known_or_no_driver true driver = refl
known_or_no_driver false driver = rw (known_driver driver) refl

external :
    (b : Bool)
    → not (
        text_eq
          (text_or (codes "EXTERNAL") (if b then [] else codes "EXTERNAL"))
          (codes "EXTERNAL"))
      ≡ false
unfolding text_eq
external true = refl
external false = refl

size_positive : (z : ℤ) → is_negative z ≡ false → not (is_positive (number_or 1048576 z)) ≡ false
size_positive (negsuc n) h = ground arith
size_positive (pos n) h = ground arith

oidc_keys :
    (url : Text)
    → (text_eq
          (text_or (codes "NOOP") (if not (is_empty url) then codes "OIDC" else []))
          (codes "OIDC")
        && is_empty url)
      ≡ false
unfolding text_eq
oidc_keys [] = refl
oidc_keys (c ∷ url) = refl

no_ldap :
    (b c : Bool)
    → (text_eq (text_or (codes "NOOP") (if b then codes "OIDC" else [])) (codes "LDAP") && c)
      ≡ false
unfolding text_eq
no_ldap true c = refl
no_ldap false c = refl

module _ {F : Type 0} (one : F) where
  converted_valid :
      (src : JavaConfig)
      → is_negative src.request_buffer_size ≡ false
      → same (number_or 8080 src.port) (number_or 8090 src.local_port) ≡ false
      → validate (apply_defaults one (converted src).config) ≡ none
  unfolding validate checks cluster_checks apply_defaults converted text_eq has_prefix
  converted_valid src h p = first_error-none (checks (apply_defaults one (converted src).config)) (
    p,
    (
      size_positive src.request_buffer_size h,
      (
        known_or_no_driver (is_empty src.driver) src.driver,
        (
          external (is_empty src.rules_type),
          (
            oidc_keys src.jwk_url,
            (
              refl,
              (
                no_ldap (not (is_empty src.jwk_url)) true,
                (
                  no_ldap (not (is_empty src.jwk_url)) true,
                  (refl, (refl, (refl, (refl, (refl, (refl, tt)))))),
                ),
              ),
            ),
          ),
        ),
      ),
    ),
  )

  -- A configuration that is converted passes the checks of the gateway once its defaults are filled in,
  -- when the size of the buffer is not negative and the ports, each with its default for zero, differ.
  pub migrated_valid :
      (unmarshal : Text → Option JavaConfig) (yaml : Text) (c : GoConfig F) (ws : List Warning)
      → migrate_config unmarshal yaml ≡ some (c, ws)
      → is_negative c.config.proxy.response_size ≡ false
      → same (number_or 8080 c.config.proxy.port) (number_or 8090 c.config.admin_port) ≡ false
      → validate (apply_defaults one c.config) ≡ none
  unfolding migrate_config converted
  migrated_valid unmarshal yaml c ws h n p = elim (Option-cases (unmarshal yaml)) [
    | inl e ↦ ground arith
    | inr (src, e) ↦
        let q : c ≡ converted src = ground arith in
        rw (q) (
          converted_valid src (subst (λ c. is_negative c.config.proxy.response_size ≡ false) q n) (
            subst
              (λ c.
                same (number_or 8080 c.config.proxy.port) (number_or 8090 c.config.admin_port)
                ≡ false)
              q p))
  ]
