-- ===== src/Service/Route.antt =====
-- Route of routing-service/internal/server/server.go, with SetConfigVersion and RecordDecision of
-- routing-service/internal/metrics/metrics.go. The evaluator is a parameter. Spans, latencies and debug lines
-- are left out; what the metrics and the decision log are told stands beside the answer. The draw of the
-- log's sampler comes from outside.
pub mod Answer
use trino_goway.Base.{
  ℕ, Bool, true, false, not, ◌==◌, Option, none, some, List, [], ◌∷◌, ◌++◌, if◌then◌else◌, Text,
  is_empty,
}
use trino_goway.Engine.Pipeline.{EvalResult, SqlSummary}
use trino_goway.Engine.Input.{RouteRequest, QueryProperties}

-- metrics.Outcome
pub data DecisionOutcome : Type 0 where
  decided fallback error : DecisionOutcome

-- logging.DecisionFields
pub record DecisionFields : Type 0 where
  pub rule_id : Text
  pub source : Text
  pub user : Text
  pub body : Text
  pub routing_group : Text
  pub config_version_hash : Text
  pub is_fallback : Bool
  pub sql : SqlSummary

-- What the server tells the metrics (source, group, method type, outcome) and the decision log.
pub data Report : Type 0 where
  requests_total : Text → Text → Text → DecisionOutcome → Report
  fallback_total : Report
  decision : DecisionFields → Report
  config_version_set : Text → Report

pub record Server : Type 0 where
  pub default_routing_group : Text
  pub has_metrics : Bool
  pub conf_ver : Option Text

abbrev pub is_new_submission : Option QueryProperties → Bool
is_new_submission none = false
is_new_submission (some qp) = qp.is_new_query_submission

-- the test before the evaluation; the getters of a nil request give zero values
unfoldable pub is_evaluated : Option RouteRequest → Bool
is_evaluated none = false
is_evaluated (some req) = is_new_submission req.trino_query_properties

unfoldable pub classify_outcome : EvalResult → DecisionOutcome
classify_outcome res = if res.decided then decided else if res.had_error then error else fallback

abbrev pub source_of : Option RouteRequest → Text
source_of none = []
source_of (some req) = req.trino_source

abbrev or_empty : Option Text → Text
or_empty none = []
or_empty (some s) = s

abbrev pub user_of : Option RouteRequest → Text
user_of none = []
user_of (some req) = or_empty req.trino_request_user

abbrev body_in : Option QueryProperties → Text
body_in none = []
body_in (some qp) = qp.body

abbrev pub body_of : Option RouteRequest → Text
body_of none = []
body_of (some req) = body_in req.trino_query_properties

abbrev pub config_version : Server → Text
config_version s = or_empty s.conf_ver

unfoldable pub set_config_version : Text → Server → Server × List Report
set_config_version hash s =
    (record s { conf_ver = some hash }, if s.has_metrics then config_version_set hash ∷ [] else [])

abbrev is_fallback_outcome : DecisionOutcome → Bool
is_fallback_outcome decided = false
is_fallback_outcome fallback = true
is_fallback_outcome error = false

-- RecordDecision
unfoldable pub record_decision : Text → Text → Text → DecisionOutcome → List Report
record_decision source group method o =
    requests_total source group method o
    ∷ (if is_fallback_outcome o then fallback_total ∷ [] else [])

-- the group of the response
abbrev pub group_of : Server → EvalResult → Text
group_of s res = if is_empty res.routing_group then s.default_routing_group else res.routing_group

abbrev pub fields : Server → Option RouteRequest → EvalResult → DecisionFields
fields s req res = record {
  rule_id = res.method_type;
  source = source_of req;
  user = user_of req;
  body = body_of req;
  routing_group = group_of s res;
  config_version_hash = config_version s;
  is_fallback = not res.decided;
  sql = res.sql;
}

-- ShouldLog of routing-service/internal/logging/decision.go; `sampled` is the sampler's draw
unfoldable pub should_log : Bool → Bool → Bool
should_log sampled is_fallback = if is_fallback then true else sampled

-- Log
unfoldable pub log_decision : Bool → DecisionFields → List Report
unfolding should_log
log_decision sampled f = if should_log sampled f.is_fallback then decision f ∷ [] else []

-- the part of Route behind the evaluation
unfoldable pub respond : Server → Bool → Option RouteRequest → EvalResult → Text × List Report
unfolding log_decision
respond s sampled req res =
    let metrics =
      if s.has_metrics
      then record_decision (source_of req) (group_of s res) res.method_type (classify_outcome res)
      else [] in
    (group_of s res, metrics ++ log_decision sampled (fields s req res))

unfoldable pub route :
    Server → Bool → (Option RouteRequest → EvalResult) → Option RouteRequest → Text × List Report
route s sampled eval req = if is_evaluated req then respond s sampled req (eval req) else ([], [])
