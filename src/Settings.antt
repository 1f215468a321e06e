-- ===== src/Settings.antt =====
-- The configuration of the gateway: internal/config/config.go. yaml.Unmarshal is a parameter, which
-- merges a text into a configuration; F stands for the type of floating-point numbers. Fields that
-- neither the defaults nor the checks read are left out. A duration is a signed number of nanoseconds.
pub mod Checks
pub mod Load
mod Examples
use trino_goway.Base.{
  ℕ, ◌*◌, Bool, true, false, not, ◌&&◌, ◌||◌, ◌==◌, Option, none, some, List, [], ◌∷◌,
  if◌then◌else◌, Text, codes, is_empty, text_eq, has_prefix, trim_space, ℤ, pos, negsuc,
  is_negative,
}

pub record ProxyConfig : Type 0 where
  pub port : ℤ
  pub response_size : ℤ
  pub request_timeout : ℤ

pub record MonitorConfig (F : Type 0) : Type 0 where
  pub interval : ℤ
  pub check_timeout : ℤ
  pub refresh_interval : ℤ
  pub stats_timeout : ℤ
  pub retries : ℤ
  pub metrics_endpoint : Text
  pub running_queries_metric_name : Text
  pub queued_queries_metric_name : Text
  pub metric_minimum_values : Option (List (Text × F))
  pub metric_maximum_values : Option (List (Text × F))

pub record AuthConfig : Type 0 where
  pub type : Text
  pub jwks_url : Text
  pub jwks_ttl_secs : ℤ
  pub ldap_url : Text
  pub user_base : Text
  pub user_attr : Text

pub record Config (F : Type 0) : Type 0 where
  pub proxy : ProxyConfig
  pub admin_port : ℤ
  pub monitor : MonitorConfig F
  pub db_driver : Text
  pub auto_migrate : Bool
  pub routing_type : Text
  pub external_timeout : ℤ
  pub auth : AuthConfig
  pub cookie_ttl : ℤ
  pub wire_compat : Bool
  pub metrics_enabled : Bool
  pub metrics_path : Text
  pub monitor_type : Text
  pub backend_username : Text

abbrev pub second : ℕ
second = 1000000000

abbrev running_name : Text
running_name = codes "trino_execution_name_QueryManager_RunningQueries"

abbrev queued_name : Text
queued_name = codes "trino_execution_name_QueryManager_QueuedQueries"

abbrev active_nodes : Text
active_nodes = codes "trino_metadata_name_DiscoveryNodeManager_ActiveNodeCount"

-- defaultConfig
unfoldable pub default_config : {F : Type 0} → Config F
default_config = record {
  proxy = record {
    port = pos 8080;
    response_size = pos 1048576;
    request_timeout = pos (30 * second);
  };
  admin_port = pos 8090;
  monitor = record {
    interval = pos (30 * second);
    check_timeout = pos (5 * second);
    refresh_interval = pos (15 * second);
    stats_timeout = pos (10 * second);
    retries = pos 0;
    metrics_endpoint = codes "/metrics";
    running_queries_metric_name = running_name;
    queued_queries_metric_name = queued_name;
    metric_minimum_values = none;
    metric_maximum_values = none;
  };
  db_driver = [];
  auto_migrate = true;
  routing_type = codes "EXTERNAL";
  external_timeout = pos second;
  auth = record {
    type = codes "NOOP";
    jwks_url = [];
    jwks_ttl_secs = pos 300;
    ldap_url = [];
    user_base = [];
    user_attr = codes "uid";
  };
  cookie_ttl = pos (600 * second);
  wire_compat = true;
  metrics_enabled = true;
  metrics_path = codes "/metrics";
  monitor_type = codes "INFO_API";
  backend_username = [];
}

-- a zero is a number that was left out
abbrev pub number_or : ℕ → ℤ → ℤ
number_or n (negsuc k) = negsuc k
number_or n (pos k) = if k == 0 then pos n else pos k

abbrev pub text_or : Text → Text → Text
text_or default [] = default
text_or default (c ∷ s) = c ∷ s

abbrev pub map_or {ℓ} : {A : Type ℓ} → A → Option A → Option A
map_or default none = some default
map_or default (some m) = some m

-- applyDefaults; `one` is the number 1
unfoldable pub apply_defaults : {F : Type 0} → F → Config F → Config F
apply_defaults one c = record c {
  proxy = record c.proxy {
    port = number_or 8080 c.proxy.port;
    request_timeout = number_or (30 * second) c.proxy.request_timeout;
    response_size = number_or 1048576 c.proxy.response_size;
  };
  admin_port = number_or 8090 c.admin_port;
  monitor = record c.monitor {
    interval = number_or (30 * second) c.monitor.interval;
    check_timeout = number_or (5 * second) c.monitor.check_timeout;
    refresh_interval = number_or (15 * second) c.monitor.refresh_interval;
    stats_timeout = number_or (10 * second) c.monitor.stats_timeout;
    metrics_endpoint = text_or (codes "/metrics") c.monitor.metrics_endpoint;
    running_queries_metric_name = text_or running_name c.monitor.running_queries_metric_name;
    queued_queries_metric_name = text_or queued_name c.monitor.queued_queries_metric_name;
    metric_minimum_values = map_or ((active_nodes, one) ∷ []) c.monitor.metric_minimum_values;
    metric_maximum_values = map_or [] c.monitor.metric_maximum_values;
  };
  routing_type = text_or (codes "EXTERNAL") c.routing_type;
  external_timeout = number_or second c.external_timeout;
  auth = record c.auth {
    type = text_or (codes "NOOP") c.auth.type;
    user_attr = text_or (codes "uid") c.auth.user_attr;
    jwks_ttl_secs = number_or 300 c.auth.jwks_ttl_secs;
  };
  cookie_ttl = number_or (600 * second) c.cookie_ttl;
  metrics_path = text_or (codes "/metrics") c.metrics_path;
  monitor_type = text_or (codes "INFO_API") c.monitor_type;
}
