-- ===== src/MigrateConfig.antt =====
-- cmd/goway-migrate-config/migrate.go: the conversion of a configuration of the Java gateway. The text of
-- a warning is left out, a list of modules is their number, and yaml.Unmarshal is a parameter.
pub mod Valid
pub mod Output
mod Examples
use trino_goway.Base.{
  ℕ, ◌-◌, ◌*◌, ◌/◌, ◌%◌, ◌^◌, Bool, true, false, ltb, not, ◌&&◌, ◌||◌, ◌==◌, Option, none, some,
  List, [], ◌∷◌, ◌++◌, if◌then◌else◌, Text, codes, is_empty, text_eq, has_prefix, to_lower, ℤ, pos,
  negsuc,
}
use trino_goway.Settings.{Config, second}

-- the parts of javaConfig that the conversion reads
pub record JavaConfig : Type 0 where
  pub port : ℤ
  pub name : Text
  pub history_size : ℤ
  pub request_buffer_size : ℤ
  pub local_port : ℤ
  pub jdbc_url : Text
  pub user : Text
  pub password : Text
  pub driver : Text
  pub health_check_path : Text
  pub concurrency : ℤ
  pub health_check_interval : ℤ
  pub default_routing_group : Text
  pub rules_type : Text
  pub external_url : Text
  pub default_type : Text
  pub issuer : Text
  pub client_id : Text
  pub client_secret : Text
  pub redirect_url : Text
  pub jwk_url : Text
  pub admin : Text
  pub user_role : Text
  pub api : Text
  pub modules : ℕ
  pub managed_apps : ℕ

pub data Warning : Type 0 where
  history_size router_name unknown_driver user password : Warning
  concurrency health_check_path rules_type redirect_url : Warning
  default_type authorization modules managed_apps : Warning

-- config.Config: the settings that are checked and those that are only passed on
pub record GoConfig (F : Type 0) : Type 0 where
  pub config : Config F
  pub dsn : Text
  pub default_group : Text
  pub external_url : Text
  pub issuer_url : Text
  pub client_id : Text
  pub client_secret : Text

-- &config.Config{}
abbrev pub zero_config : {F : Type 0} → Config F
zero_config = record {
  proxy = record { port = pos 0; response_size = pos 0; request_timeout = pos 0 };
  admin_port = pos 0;
  monitor = record {
    interval = pos 0;
    check_timeout = pos 0;
    refresh_interval = pos 0;
    stats_timeout = pos 0;
    retries = pos 0;
    metrics_endpoint = [];
    running_queries_metric_name = [];
    queued_queries_metric_name = [];
    metric_minimum_values = none;
    metric_maximum_values = none;
  };
  db_driver = [];
  auto_migrate = false;
  routing_type = [];
  external_timeout = pos 0;
  auth = record {
    type = [];
    jwks_url = [];
    jwks_ttl_secs = pos 0;
    ldap_url = [];
    user_base = [];
    user_attr = [];
  };
  cookie_ttl = pos 0;
  wire_compat = false;
  metrics_enabled = false;
  metrics_path = [];
  monitor_type = [];
  backend_username = [];
}

-- strings.Contains
unfoldable pub has_part : Text → Text → Bool
has_part [] part = has_prefix [] part
has_part (c ∷ s) part = has_prefix (c ∷ s) part || has_part s part

-- detectDriver
unfoldable pub detect_driver : Text → Option Text
unfolding has_part
detect_driver driver =
    if has_part (to_lower driver) (codes "postgresql")
      || has_part (to_lower driver) (codes "postgres")
    then some (codes "postgres")
    else if has_part (to_lower driver) (codes "mysql")
    then some (codes "mysql")
    else none

-- what follows a prefix of the given text
abbrev drop_prefix : Text → Text → Text
drop_prefix [] s = s
drop_prefix (c ∷ p) [] = []
drop_prefix (c ∷ p) (d ∷ s) = drop_prefix p s

-- stripJDBCPrefix
unfoldable pub strip_jdbc_prefix : Text → Text
strip_jdbc_prefix url =
    if has_prefix url (codes "jdbc:") then drop_prefix (codes "jdbc:") url else url

-- an int64 of the 64 bits of a number
abbrev pub int64 : ℕ → ℤ
int64 n =
    let bits = n % 2 ^ 64 in if ltb bits (2 ^ 63) then pos bits else negsuc (2 ^ 64 - 1 - bits)

-- The interval in nanoseconds: whole seconds, at least one. A quotient of a negative number is below one.
abbrev pub interval : ℤ → ℤ
interval (negsuc n) = pos second
interval (pos n) =
    if n == 0 then pos 0 else if n / 1000 == 0 then pos second else int64 (n / 1000 * second)

abbrev pub is_zero : ℤ → Bool
is_zero (pos n) = n == 0
is_zero (negsuc n) = false

abbrev pub text_or_empty : Option Text → Text
text_or_empty none = []
text_or_empty (some t) = t

abbrev is_none : Option Text → Bool
is_none none = true
is_none (some t) = false

abbrev pub warn_if : Bool → Warning → List Warning
warn_if b w = if b then w ∷ [] else []

-- the warnings, in their order
unfoldable pub warnings : JavaConfig → List Warning
unfolding detect_driver
warnings src =
    warn_if (not (is_zero src.history_size)) history_size
    ++ warn_if (not (is_empty src.name)) router_name
    ++ warn_if (not (is_empty src.driver) && is_none (detect_driver src.driver)) unknown_driver
    ++ warn_if (not (is_empty src.user)) user
    ++ warn_if (not (is_empty src.password)) password
    ++ warn_if (not (is_zero src.concurrency)) concurrency
    ++ warn_if (not (is_empty src.health_check_path)) health_check_path
    ++ warn_if (not (is_empty src.rules_type) && not (text_eq src.rules_type (codes "EXTERNAL")))
        rules_type
    ++ warn_if (not (is_empty src.jwk_url) && not (is_empty src.redirect_url)) redirect_url
    ++ warn_if (is_empty src.jwk_url && not (is_empty src.default_type)) default_type
    ++ warn_if
        (not (is_empty src.admin) || (not (is_empty src.user_role) || not (is_empty src.api)))
        authorization
    ++ warn_if (not (src.modules == 0)) modules
    ++ warn_if (not (src.managed_apps == 0)) managed_apps

module _ {F : Type 0} where
  -- A setting that the source leaves zero stays zero.
  unfoldable pub converted : JavaConfig → GoConfig F
  unfolding detect_driver strip_jdbc_prefix
  converted src =
      let oidc = not (is_empty src.jwk_url) in
      record {
        config = record (zero_config {F = F}) {
          proxy = record (zero_config {F = F}).proxy {
            port = src.port;
            response_size = src.request_buffer_size;
          };
          admin_port = src.local_port;
          monitor = record (zero_config {F = F}).monitor {
            interval = interval src.health_check_interval;
          };
          db_driver = if is_empty src.driver then [] else text_or_empty (detect_driver src.driver);
          routing_type = if is_empty src.rules_type then [] else codes "EXTERNAL";
          auth = record (zero_config {F = F}).auth {
            type = if oidc then codes "OIDC" else [];
            jwks_url = src.jwk_url;
          };
        };
        dsn = if is_empty src.jdbc_url then [] else strip_jdbc_prefix src.jdbc_url;
        default_group = src.default_routing_group;
        external_url = src.external_url;
        issuer_url = if oidc then src.issuer else [];
        client_id = if oidc then src.client_id else [];
        client_secret = if oidc then src.client_secret else [];
      }

  -- MigrateConfig; `none` where the YAML does not decode
  unfoldable pub migrate_config :
      (Text → Option JavaConfig) → Text → Option (GoConfig F × List Warning)
  unfolding converted warnings
  migrate_config unmarshal yaml = elim (unmarshal yaml) [
    | none ↦ none
    | some src ↦ some (converted src, warnings src)
  ]
