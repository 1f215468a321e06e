-- ===== src/Settings/Checks.antt =====
-- Validate and Load of internal/config/config.go, with DataSize.UnmarshalYAML.
use trino_goway.Base.{
  ℕ, Bool, false, not, ◌&&◌, ◌||◌, ◌==◌, Option, none, some, List, [], ◌∷◌, if◌then◌else◌, Text,
  codes, is_empty, text_eq, has_prefix, trim_space, ℤ, pos, negsuc, is_negative,
}
use trino_goway.Settings.{Config, default_config, apply_defaults}

abbrev pub is_positive : ℤ → Bool
is_positive (pos n) = not (n == 0)
is_positive (negsuc n) = false

abbrev pub same : ℤ → ℤ → Bool
same (pos a) (pos b) = a == b
same (negsuc a) (negsuc b) = a == b
same (pos a) (negsuc b) = false
same (negsuc a) (pos b) = false

-- the checks that can fail, in their order
pub data ConfigError : Type 0 where
  unreadable malformed same_ports response_size db_driver routing_type jwks_url metrics_path :
      ConfigError
  ldap_url user_base backend_username not_supported unknown_monitor : ConfigError
  stats_timeout refresh_interval retries : ConfigError

abbrev pub one_of : Text → List Text → Bool
one_of t [] = false
one_of t (s ∷ l) = text_eq t s || one_of t l

abbrev pub first_error : List (Bool × ConfigError) → Option ConfigError
first_error [] = none
first_error ((failed, e) ∷ checks) = if failed then some e else first_error checks

-- validateClusterStats; the first four checks are the switch
unfoldable pub cluster_checks : {F : Type 0} → Config F → List (Bool × ConfigError)
cluster_checks c =
    (
      one_of c.monitor_type (codes "UI_API" ∷ codes "METRICS" ∷ []) && is_empty c.backend_username,
      backend_username,
    )
    ∷ (one_of c.monitor_type (codes "JDBC" ∷ codes "JMX" ∷ []), not_supported)
    ∷ (
      not (
          one_of c.monitor_type (
            []
            ∷ codes "NOOP"
            ∷ codes "INFO_API"
            ∷ codes "UI_API"
            ∷ codes "METRICS"
            ∷ codes "JDBC"
            ∷ codes "JMX"
            ∷ [])),
      unknown_monitor,
    )
    ∷ (is_negative c.monitor.stats_timeout, stats_timeout)
    ∷ (is_negative c.monitor.refresh_interval, refresh_interval)
    ∷ (is_negative c.monitor.retries, retries)
    ∷ []

-- Validate
unfoldable pub checks : {F : Type 0} → Config F → List (Bool × ConfigError)
unfolding cluster_checks
checks c =
    (same c.proxy.port c.admin_port, same_ports)
    ∷ (not (is_positive c.proxy.response_size), response_size)
    ∷ (not (one_of c.db_driver ([] ∷ codes "postgres" ∷ codes "mysql" ∷ [])), db_driver)
    ∷ (not (text_eq c.routing_type (codes "EXTERNAL")), routing_type)
    ∷ (text_eq c.auth.type (codes "OIDC") && is_empty c.auth.jwks_url, jwks_url)
    ∷ (c.metrics_enabled && not (has_prefix c.metrics_path (codes "/")), metrics_path)
    ∷ (text_eq c.auth.type (codes "LDAP") && is_empty c.auth.ldap_url, ldap_url)
    ∷ (text_eq c.auth.type (codes "LDAP") && is_empty c.auth.user_base, user_base)
    ∷ cluster_checks c

unfoldable pub validate : {F : Type 0} → Config F → Option ConfigError
unfolding checks
validate c = first_error (checks c)

pub data Loaded (F : Type 0) : Type 0 where
  loaded : Config F → Loaded F
  failed : ConfigError → Loaded F

abbrev pub checked : {F : Type 0} → Config F → Option ConfigError → Loaded F
checked c none = loaded c
checked c (some e) = failed e

unfoldable pub unmarshalled : {F : Type 0} → F → Option (Config F) → Loaded F
unfolding apply_defaults validate
unmarshalled one none = failed malformed
unmarshalled one (some c) = checked (apply_defaults one c) (validate (apply_defaults one c))

-- Load; the file's bytes, `none` where it cannot be read
unfoldable pub load :
    {F : Type 0} → F → (Text → Config F → Option (Config F)) → Option Text → Loaded F
unfolding unmarshalled default_config
load one unmarshal none = failed unreadable
load one unmarshal (some bytes) = unmarshalled one (unmarshal bytes default_config)

-- the units of DataSize.UnmarshalYAML
unfoldable pub multiplier : Text → Option ℕ
multiplier unit =
    if is_empty unit || text_eq unit (codes "B")
    then some 1
    else if text_eq unit (codes "KB")
    then some 1000
    else if text_eq unit (codes "KiB")
    then some 1024
    else if text_eq unit (codes "MB")
    then some 1000000
    else if text_eq unit (codes "MiB")
    then some 1048576
    else if text_eq unit (codes "GB")
    then some 1000000000
    else if text_eq unit (codes "GiB")
    then some 1073741824
    else none

abbrev scaled : (ℕ → ℤ) → Option ℕ → Option ℤ
scaled times none = none
scaled times (some m) = some (times m)

-- DataSize.UnmarshalYAML: `find` is the pattern, with the number and the unit, and `parse` is
-- strconv.ParseFloat, with the product by a multiplier
unfoldable pub data_size : (Text → Option (Text × Text)) → (Text → Option (ℕ → ℤ)) → Text → Option ℤ
unfolding multiplier
data_size find parse s = elim (find (trim_space s)) [
  | none ↦ none
  | some (number, unit) ↦ elim (parse number) [
    | none ↦ none
    | some times ↦ scaled times (multiplier unit)
  ]
]
