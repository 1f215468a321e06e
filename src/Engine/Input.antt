-- ===== src/Engine/Input.antt =====
-- routing-service/internal/engine/input.go: the RouteInput of a proto request. Nil and empty slices
-- and maps are one value here, and so are an absent and an empty string.
use trino_goway.Base.{
  Bool, true, false, not, ◌||◌, Option, none, some, List, [], ◌∷◌, Text, is_empty,
}
use trino_goway.Engine.Method.{RouteInput}

-- The messages of routing-service/routerpb, with the fields that FromProto reads.
pub record QueryProperties : Type 0 where
  pub body : Text
  pub query_type : Text
  pub default_catalog : Text
  pub default_schema : Text
  pub catalogs : List Text
  pub schemas : List Text
  pub catalog_schemas : List Text
  pub tables : List Text
  pub is_new_query_submission : Bool
  pub is_query_parsing_successful : Bool

pub record RouteRequest : Type 0 where
  pub trino_query_properties : Option QueryProperties
  pub trino_request_user : Option Text
  pub method : Text
  pub request_uri : Text
  pub remote_addr : Text
  pub parameter_map : List (Text × Text)
  pub trino_source : Text
  pub client_tags : List Text

abbrev pub zero_input : RouteInput
zero_input = record {
  source = [];
  client_tags = [];
  user = [];
  catalog = [];
  schema = [];
  method = [];
  uri = [];
  remote_addr = [];
  body = [];
  is_new = false;
  param_map = [];
  query_type = [];
  query_category = none;
  catalogs = [];
  schemas = [];
  catalog_schemas = [];
  tables = [];
  parse_ok = false;
}

abbrev pub with_request : RouteRequest → RouteInput
with_request req = record zero_input {
  source = req.trino_source;
  client_tags = req.client_tags;
  method = req.method;
  uri = req.request_uri;
  remote_addr = req.remote_addr;
  param_map = req.parameter_map;
}

abbrev pub with_user : Option Text → RouteInput → RouteInput
with_user none i = i
with_user (some u) i = record i { user = u }

abbrev pub with_properties : Option QueryProperties → RouteInput → RouteInput
with_properties none i = i
with_properties (some qp) i = record i {
  catalog = qp.default_catalog;
  schema = qp.default_schema;
  body = qp.body;
  is_new = qp.is_new_query_submission;
  query_type = qp.query_type;
  catalogs = qp.catalogs;
  schemas = qp.schemas;
  catalog_schemas = qp.catalog_schemas;
  tables = qp.tables;
  parse_ok = qp.is_query_parsing_successful;
}

unfoldable pub from_proto : Option RouteRequest → RouteInput
from_proto none = zero_input
from_proto (some req) =
    with_properties req.trino_query_properties (with_user req.trino_request_user (with_request req))

abbrev pub is_nil : List Text → Bool
is_nil [] = true
is_nil (x ∷ l) = false

unfoldable pub has_parsed_sql : RouteInput → Bool
has_parsed_sql i =
    i.parse_ok
    || not (is_empty i.query_type)
    || not (is_nil i.catalogs)
    || not (is_nil i.schemas)
    || not (is_nil i.catalog_schemas)
    || not (is_nil i.tables)
