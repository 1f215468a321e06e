-- ===== src/Admin/Wire.antt =====
-- What the handlers of internal/admin share: the wire types of backend.go, query.go, webapp.go and
-- authhandlers.go, requests, responses, and the world they act on. JSON is a parameter: a request body
-- decodes to a value of its type or not, and a response is the value that is encoded. An instant is in
-- nanoseconds.
use trino_goway.Base.{
  ℕ, ◌/◌, Bool, Option, none, some, List, [], if◌then◌else◌, Text, codes, is_empty, take, ℤ,
}
use trino_goway.Dict.{lookup}
use trino_goway.Http.{Header}
use trino_goway.Monitor.Probe.{Status, unknown, healthy, unhealthy, pending, or_unknown}
use trino_goway.Auth.Roles.{Authorization, Principal}
use trino_goway.Store.Backends.{Backend, Table}
use trino_goway.Store.History.{History, QueryRecord, Sql}

pub record ProxyBackend : Type 0 where
  pub name : Text
  pub proxy_to : Text
  pub external_url : Text
  pub active : Bool
  pub routing_group : Text

pub record BackendResponse : Type 0 where
  pub backend : ProxyBackend
  pub queued : ℕ
  pub running : ℕ
  pub status : Text

-- the fields of clusterstats.ClusterStats that the API shows
pub record ClusterStats : Type 0 where
  pub running_query_count : ℕ
  pub queued_query_count : ℕ
  pub num_worker_nodes : ℕ
  pub user_queued_count : List (Text × ℕ)

pub record ClusterStatsResponse : Type 0 where
  pub cluster_id : Text
  pub stats : ClusterStats
  pub trino_status : Text
  pub proxy_to : Text
  pub external_url : Text
  pub routing_group : Text

pub record QueryDetail : Type 0 where
  pub query_id : Text
  pub query_text : Text
  pub user : Text
  pub source : Text
  pub backend_url : Text
  pub capture_time : ℕ
  pub routing_group : Text
  pub external_url : Text

pub record FindQueryHistoryRequest : Type 0 where
  pub user_name : Text
  pub backend_url : Text
  pub query_id : Text
  pub source : Text
  pub page : ℤ
  pub page_size : ℤ

pub record ChartPoint : Type 0 where
  pub backend_url : Text
  pub name : Text
  pub query_count : ℕ

pub record TimePoint : Type 0 where
  pub epoch_millis : ℕ
  pub backend_url : Text
  pub name : Text
  pub query_count : ℕ

-- the averages, which are floating-point numbers, are left out
pub record DistributionResponse : Type 0 where
  pub total_backend_count : ℕ
  pub online_backend_count : ℕ
  pub offline_backend_count : ℕ
  pub healthy_backend_count : ℕ
  pub unhealthy_backend_count : ℕ
  pub total_query_count : ℕ
  pub distribution_chart : List ChartPoint
  pub line_chart : List (Text × List TimePoint)

pub record UserinfoResponse : Type 0 where
  pub user_id : Text
  pub user_name : Text
  pub roles : List Text
  pub permissions : List Text

-- the data of the envelope Result
pub data Data : Type 0 where
  backend_statuses : List BackendResponse → Data
  query_table : ℕ → List QueryDetail → Data
  distribution : DistributionResponse → Data
  ui_configuration : Text → List Text → Data
  no_rules : Data
  saved : ProxyBackend → Data
  done : Data
  token : Text → Data
  string : Text → Data
  userinfo : UserinfoResponse → Data
  null : Data

pub data Payload : Type 0 where
  empty : Payload
  plain : Text → Payload
  words : List Text → Payload
  one_backend : ProxyBackend → Payload
  all_backends : List ProxyBackend → Payload
  backend_state : ClusterStatsResponse → Payload
  details : List QueryDetail → Payload
  counts : List (Text × ℕ) → Payload
  result_ok : Data → Payload
  result_err : Text → Payload

-- a cookie that is set: its name, value, path, maximal age, and whether scripts cannot read it
pub record NewCookie : Type 0 where
  pub name : Text
  pub value : Text
  pub path : Text
  pub max_age : ℕ
  pub http_only : Bool
  pub secure : Bool

pub record Response : Type 0 where
  pub status : ℕ
  pub payload : Payload
  pub cookies : List NewCookie
  pub location : Text

abbrev pub respond : ℕ → Payload → Response
respond status payload = record { status = status; payload = payload; cookies = []; location = [] }

-- A request: the URL parameter of the route, the query, the cookies by name, the body (`none` when it
-- cannot be read) and the principal of its context.
pub record Request : Type 0 where
  pub param : Text
  pub query : Text → Text
  pub cookie : Text → Option Text
  pub headers : Header
  pub is_tls : Bool
  pub body : Option Text
  pub principal : Option Principal

-- The database, and the statuses of the monitor by URL.
pub record World : Type 0 where
  pub backends : Table
  pub history : History
  pub statuses : List (Text × Status)

-- What comes from outside during a request: whether the database answers the statement on the
-- backends, the one that counts, the one that selects and the one that groups; what the database decides
-- in them; and the time.
pub record Outside : Type 0 where
  pub backends_answer : Bool
  pub count_answers : Bool
  pub select_answers : Bool
  pub group_answers : Bool
  pub sql : Sql
  pub now : ℕ

-- admin.Config; the driver is that of the stores
pub record Config : Type 0 where
  pub driver : Text
  pub auth_type : Text
  pub authorization : Authorization
  pub has_status_mut : Bool
  pub stats : Option (Text → ClusterStats)
  pub disable_pages : List Text

-- decodeJSON; the reader of the body stops at the limit
abbrev pub body_limit : ℕ
body_limit = 1048576

unfoldable pub decode_json : {A : Type 0} → (Text → Option A) → Option Text → Option A
decode_json decode none = none
decode_json decode (some body) = decode (take body_limit body)

-- externalURLOrProxyTo
abbrev pub external_url_or_proxy_to : Text → Text → Text
external_url_or_proxy_to external_url proxy_to =
    if is_empty external_url then proxy_to else external_url

-- proxyBackendFromPersistence
abbrev pub proxy_backend_from_persistence : Backend → ProxyBackend
proxy_backend_from_persistence b = record {
  name = b.name;
  proxy_to = b.url;
  external_url = external_url_or_proxy_to b.external_url b.url;
  active = b.active;
  routing_group = b.routing_group;
}

-- persistenceBackendFromProxy
abbrev pub persistence_backend_from_proxy : ℕ → ProxyBackend → Backend
persistence_backend_from_proxy now pb = record {
  name = pb.name;
  url = pb.proxy_to;
  external_url = pb.external_url;
  routing_group = pb.routing_group;
  active = pb.active;
  created_at = now;
  updated_at = now;
}

-- Status.Label
abbrev pub label : Status → Text
label unknown = codes "UNKNOWN"
label healthy = codes "HEALTHY"
label unhealthy = codes "UNHEALTHY"
label pending = codes "PENDING"

-- Status of the monitor
abbrev pub status_at : Text → World → Status
status_at url w = or_unknown (lookup url w.statuses)

-- queryDetailFromRecord
abbrev pub query_detail_from_record : QueryRecord → QueryDetail
query_detail_from_record r = record {
  query_id = r.query_id;
  query_text = r.query_text;
  user = r.user_name;
  source = r.source;
  backend_url = r.backend_url;
  capture_time = r.created_at / 1000000;
  routing_group = r.routing_group;
  external_url = external_url_or_proxy_to r.external_url r.backend_url;
}
