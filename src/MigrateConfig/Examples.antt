-- ===== src/MigrateConfig/Examples.antt =====
-- A conversion of a small configuration, and a size that is written and read back. In the second a number
-- is one character, which stands for a digit.
use trino_goway.Base.{
  ℕ, ◌+◌, ◌-◌, ◌*◌, ◌^◌, ◌<◌, ◌≡◌, refl, sym, subst, Bool, true, false, Option, none, some, List,
  [], ◌∷◌, ◌++◌, arith, Text, codes, contains, text_eq, text_eq_iff, trim_space, has_prefix, ◌⊎◌,
  ap, ℤ, pos, negsuc, is_space, trim_left, All, Bool-cases, inl, inr,
}
use trino_goway.Settings.{apply_defaults}
use trino_goway.Settings.Checks.{validate, data_size}
use trino_goway.MigrateConfig.{
  JavaConfig, GoConfig, authorization, default_type, rules_type, converted, warnings,
  migrate_config, detect_driver, strip_jdbc_prefix,
}
use trino_goway.MigrateConfig.Valid.{migrated_valid}
use trino_goway.MigrateConfig.Output.{units, IsFound, IsExact, format_bytes, data_size-format_bytes}

abbrev source : JavaConfig
source = record {
  port = pos 8080;
  name = [];
  history_size = pos 0;
  request_buffer_size = pos 4096;
  local_port = pos 8090;
  jdbc_url = codes "jdbc:postgresql://db/goway";
  user = [];
  password = [];
  driver = codes "org.postgresql.Driver";
  health_check_path = [];
  concurrency = pos 0;
  health_check_interval = pos 1500;
  default_routing_group = codes "adhoc";
  rules_type = codes "FILE";
  external_url = [];
  default_type = codes "oauth";
  issuer = [];
  client_id = [];
  client_secret = [];
  redirect_url = [];
  jwk_url = [];
  admin = codes "admins";
  user_role = [];
  api = [];
  modules = 0;
  managed_apps = 0;
}

abbrev target : GoConfig ℕ
target = converted source

migrated : migrate_config (λ yaml. some source) [] ≡ some (target, warnings source)
unfolding migrate_config
migrated = refl

warned : warnings source ≡ rules_type ∷ default_type ∷ authorization ∷ []
unfolding warnings detect_driver text_eq has_prefix trino_goway.Base.to_lower
warned = refl

driver_found : target.config.db_driver ≡ codes "postgres"
unfolding converted detect_driver has_prefix trino_goway.Base.to_lower
driver_found = refl

dsn_stripped : target.dsn ≡ codes "postgresql://db/goway"
unfolding converted strip_jdbc_prefix has_prefix
dsn_stripped = refl

whole_second : target.config.monitor.interval ≡ pos 1000000000
unfolding converted
whole_second = refl

migrated_valid_example : validate (apply_defaults 1 target.config) ≡ none
unfolding converted
migrated_valid_example =
    migrated_valid 1 (λ yaml. some source) [] target (warnings source) migrated refl refl

abbrev print : ℤ → Text
print (pos n) = (n + 300) ∷ []
print (negsuc n) = []

abbrev find : Text → Option (Text × Text)
find [] = none
find (c ∷ u) = some (c ∷ [], u)

abbrev parse : Text → Option (ℕ → ℤ)
parse [] = none
parse (c ∷ s) = some (λ m. pos ((c - 300) * m))

print-IsExact : IsExact print parse
print-IsExact n m h = ((λ k. pos ((n + 300 - 300) * k)), refl, ground arith)

digit_not_space : (n : ℕ) → is_space (n + 300) ≡ false
digit_not_space n = ground arith

untrimmed : (n : ℕ) → All (λ u. trim_space ((n + 300) ∷ u) ≡ (n + 300) ∷ u) units
unfolding trim_space trim_left
untrimmed n =
    let e = digit_not_space n in (rw (e) refl, (rw (e) refl, (rw (e) refl, (rw (e) refl, tt))))

abbrev IsFoundAt : ℕ → Text → Type 0
IsFoundAt n u = find (trim_space ((n + 300) ∷ u)) ≡ some ((n + 300) ∷ [], u)

one_of_units :
    (u : Text)
    → contains units u ≡ true
    → (codes "B" ≡ u) ⊎ ((codes "KiB" ≡ u) ⊎ ((codes "MiB" ≡ u) ⊎ (codes "GiB" ≡ u)))
unfolding contains
one_of_units u h = ground (
  arith,
  text_eq_iff (codes "B") u,
  text_eq_iff (codes "KiB") u,
  text_eq_iff (codes "MiB") u,
  text_eq_iff (codes "GiB") u,
)

print-IsFound : IsFound print find
print-IsFound n u h =
    let (b, (kib, (mib, (gib, _)))) = untrimmed n in
    elim (one_of_units u h) [
      | inl e ↦ subst (IsFoundAt n) e (ap find b)
      | inr (inl e) ↦ subst (IsFoundAt n) e (ap find kib)
      | inr (inr (inl e)) ↦ subst (IsFoundAt n) e (ap find mib)
      | inr (inr (inr e)) ↦ subst (IsFoundAt n) e (ap find gib)
    ]

four_kibibytes : format_bytes print (pos 4096) ≡ 304 ∷ codes "KiB"
unfolding format_bytes
four_kibibytes = refl

data_size-format_bytes_example :
    data_size find parse (format_bytes print (pos 4096)) ≡ some (pos 4096)
data_size-format_bytes_example =
    data_size-format_bytes print find parse print-IsFound print-IsExact 4096 (ground arith)
