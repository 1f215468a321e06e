-- ===== src/Routing/External.antt =====
-- The external routing services: internal/routing/external_http.go and external_grpc.go, with
-- callExternal's filter of internal/routing/router.go. The transports are parameters; JSON and the
-- protobuf encoding are left out, so a request is the value that is encoded.
pub mod Headers
use trino_goway.Base.{
  ℕ, Bool, true, false, not, ◌&&◌, ◌||◌, ◌==◌, Option, none, some, List, [], ◌∷◌, ◌++◌,
  if◌then◌else◌, Text, codes, is_empty, contains, text_eq, map, trim_space,
}
use trino_goway.Dict.{keep}
use trino_goway.Http.{Header, canonical_key, header_get}

-- RouteInput
pub record RouteInput : Type 0 where
  pub method : Text
  pub request_uri : Text
  pub query_string : Text
  pub remote_addr : Text
  pub remote_host : Text
  pub remote_user : Text
  pub body : Text
  pub parameters : List (Text × List Text)
  pub headers : Header

-- buildExcludeSet, and its lookup at the canonical key
unfoldable pub is_excluded : List Text → Text → Bool
is_excluded exclude k = contains (map canonical_key exclude) (canonical_key k)

-- Router.filterExcludedHeaders
unfoldable pub filter_excluded_headers : List Text → List (Text × Text) → List (Text × Text)
filter_excluded_headers [] headers = headers
filter_excluded_headers (e ∷ es) headers = keep (λ k. not (is_excluded (e ∷ es) k)) headers

-- nilIfEmpty
abbrev pub nil_if_empty : Text → Option Text
nil_if_empty s = if is_empty s then none else some s

abbrev parser_message : Text
parser_message = codes "trino-parser not available in Go v1"

-- trinoQueryProperties; the fields that are always empty in Go v1 are left out, and the query is
-- never said to be parsed
pub record QueryProperties : Type 0 where
  pub body : Text
  pub default_catalog : Option Text
  pub default_schema : Option Text
  pub is_new_query_submission : Bool
  pub error_message : Text

-- routingGroupExternalBody
pub record ExternalBody : Type 0 where
  pub properties : QueryProperties
  pub request_user : Option Text
  pub content_type : Text
  pub remote_user : Option Text
  pub method : Text
  pub request_uri : Text
  pub query_string : Option Text
  pub remote_addr : Option Text
  pub remote_host : Option Text
  pub parameters : List (Text × List Text)

unfoldable pub build_external_body : RouteInput → ExternalBody
build_external_body r = record {
  properties = record {
    body = r.body;
    default_catalog = nil_if_empty (header_get (codes "X-Trino-Catalog") r.headers);
    default_schema = nil_if_empty (header_get (codes "X-Trino-Schema") r.headers);
    is_new_query_submission = text_eq r.method (codes "POST");
    error_message = parser_message;
  };
  request_user = nil_if_empty (header_get (codes "X-Trino-User") r.headers);
  content_type = codes "application/json";
  remote_user = nil_if_empty r.remote_user;
  method = r.method;
  request_uri = r.request_uri;
  query_string = nil_if_empty r.query_string;
  remote_addr = nil_if_empty r.remote_addr;
  remote_host = nil_if_empty r.remote_host;
  parameters = r.parameters;
}

-- strings.Split by a comma
unfoldable pub split_comma : Text → List Text
split_comma [] = [] ∷ []
split_comma (c ∷ s) =
    let more = split_comma s in
    if c == b',' then [] ∷ more else elim more [ [] ↦ (c ∷ []) ∷ [] | t ∷ ts ↦ (c ∷ t) ∷ ts ]

unfoldable pub trimmed_tags : List Text → List Text
trimmed_tags [] = []
trimmed_tags (raw ∷ rest) =
    let later = trimmed_tags rest in
    let t = trim_space raw in if is_empty t then later else t ∷ later

unfoldable pub split_client_tags : Text → List Text
split_client_tags header = if is_empty header then [] else trimmed_tags (split_comma header)

-- strings.Join by a comma
unfoldable pub join_comma : List Text → Text
join_comma [] = []
join_comma (t ∷ []) = t
join_comma (t ∷ (u ∷ ts)) = t ++ (b',' ∷ join_comma (u ∷ ts))

abbrev joined_parameters : List (Text × List Text) → List (Text × Text)
joined_parameters [] = []
joined_parameters ((k, vals) ∷ m) = (k, join_comma vals) ∷ joined_parameters m

-- RouteRequest of the gRPC contract
pub record ProtoRequest : Type 0 where
  pub properties : QueryProperties
  pub request_user : Text
  pub content_type : Text
  pub remote_user : Text
  pub method : Text
  pub request_uri : Text
  pub query_string : Text
  pub remote_addr : Text
  pub remote_host : Text
  pub parameter_map : List (Text × Text)
  pub trino_source : Text
  pub client_tags : List Text

unfoldable pub build_proto_request : RouteInput → ProtoRequest
build_proto_request r = record {
  properties = record {
    body = r.body;
    default_catalog = some (header_get (codes "X-Trino-Catalog") r.headers);
    default_schema = some (header_get (codes "X-Trino-Schema") r.headers);
    is_new_query_submission = text_eq r.method (codes "POST");
    error_message = parser_message;
  };
  request_user = header_get (codes "X-Trino-User") r.headers;
  content_type = codes "application/json";
  remote_user = r.remote_user;
  method = r.method;
  request_uri = r.request_uri;
  query_string = r.query_string;
  remote_addr = r.remote_addr;
  remote_host = r.remote_host;
  parameter_map = joined_parameters r.parameters;
  trino_source = header_get (codes "X-Trino-Source") r.headers;
  client_tags = split_client_tags (header_get (codes "X-Trino-Client-Tags") r.headers);
}

-- The headers that go with the HTTP call, beside its own Content-Type.
unfoldable pub forwarded_headers : List Text → Header → Header
forwarded_headers exclude h =
    keep (λ k. not (is_excluded exclude k || text_eq (canonical_key k) (codes "Content-Length"))) h

-- A group, the external headers and the errors; or an error, which may be a deadline.
pub data Selection : Type 0 where
  selected : Text → List (Text × Text) → List Text → Selection
  select_failed : Bool → Selection

-- externalRouterResponse
pub record RouterResponse : Type 0 where
  pub routing_group : Option Text
  pub errors : List Text
  pub external_headers : List (Text × Text)

-- How client.Do ends, with the decoded body, `none` where it does not decode.
pub data HttpOutcome : Type 0 where
  no_response : Bool → HttpOutcome
  response : ℕ → Option RouterResponse → HttpOutcome

abbrev or_empty : Option Text → Text
or_empty none = []
or_empty (some s) = s

abbrev select_decoded : Option RouterResponse → Selection
select_decoded none = select_failed false
select_decoded (some r) = selected (or_empty r.routing_group) r.external_headers r.errors

abbrev select_response : HttpOutcome → Selection
select_response (no_response is_deadline) = select_failed is_deadline
select_response (response code r) = if code == 200 then select_decoded r else select_failed false

-- externalHTTPSelector.selectGroup; the transport gets the forwarded headers and the body
unfoldable pub http_select :
    Text → List Text → (Header → ExternalBody → HttpOutcome) → RouteInput → Selection
http_select url exclude transport r =
    if is_empty url
    then selected [] [] []
    else select_response (transport (forwarded_headers exclude r.headers) (build_external_body r))

-- externalGRPCSelector.selectGroup
unfoldable pub grpc_select : (ProtoRequest → Selection) → RouteInput → Selection
grpc_select transport r = transport (build_proto_request r)
