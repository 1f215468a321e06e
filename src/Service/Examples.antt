-- ===== src/Service/Examples.antt =====
-- Runs of Route of routing-service/internal/server.
use trino_goway.Base.{◌≡◌, true, false, none, some, [], ◌∷◌, codes, is_empty, All, if◌then◌else◌}
use trino_goway.Engine.Pipeline.{Pipeline}
use trino_goway.Engine.Input.{RouteRequest}
use trino_goway.Engine.Adapter.{heuristic, evaluator_evaluate, evaluator_result}
use trino_goway.Service.Route.{Server, is_evaluated, route}
use trino_goway.Service.Route.Answer.{Names, decisions, route_answer}

abbrev server : Server
server = record { default_routing_group = codes "adhoc"; has_metrics = true; conf_ver = none }

abbrev pipeline : Pipeline
pipeline = record { methods = some []; default_group = []; ready = true }

-- POST /v1/statement
abbrev submission : RouteRequest
submission = record {
  trino_query_properties = some (record {
    body = codes "SELECT 1";
    query_type = [];
    default_catalog = [];
    default_schema = [];
    catalogs = [];
    schemas = [];
    catalog_schemas = [];
    tables = [];
    is_new_query_submission = true;
    is_query_parsing_successful = false;
  });
  trino_request_user = none;
  method = codes "POST";
  request_uri = codes "/v1/statement";
  remote_addr = [];
  parameter_map = [];
  trino_source = [];
  client_tags = [];
}

route_answer_example :
    ((route server true (evaluator_result (heuristic 0) pipeline) (some submission)).0 ≡ (
      if is_evaluated (some submission)
      then (if is_empty (evaluator_evaluate (heuristic 0) pipeline (some submission))
          then codes "adhoc"
          else evaluator_evaluate (heuristic 0) pipeline (some submission))
      else []))
    × All
        (Names (route server true (evaluator_result (heuristic 0) pipeline) (some submission)).0)
        (route server true (evaluator_result (heuristic 0) pipeline) (some submission)).1
    × (decisions (route server true (evaluator_result (heuristic 0) pipeline) (some submission)).1
        ≡ (if is_evaluated (some submission)
            then (if (evaluator_result (heuristic 0) pipeline (some submission)).decided
                then (if true then false ∷ [] else [])
                else true ∷ [])
            else []))
route_answer_example = route_answer (heuristic 0) pipeline server true (some submission)
