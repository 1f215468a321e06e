-- ===== src/Admin/Backends.antt =====
-- The handlers of internal/admin/backend.go. A handler that changes something gives the world after it
-- beside its response.
use trino_goway.Base.{
  true, false, Option, none, some, [], ◌∷◌, if◌then◌else◌, Text, codes, is_empty, text_eq, take,
  trim_space, map,
}
use trino_goway.Dict.{put}
use trino_goway.Monitor.Probe.{pending, unhealthy}
use trino_goway.Store.Backends.{Backend, Table, list, list_active, upsert, delete, set_active}
use trino_goway.Admin.Wire.{
  ProxyBackend, BackendResponse, ClusterStats, ClusterStatsResponse, empty, plain, words,
  one_backend, all_backends, backend_state, Response, respond, Request, World, Outside, Config,
  decode_json, label, status_at, external_url_or_proxy_to, proxy_backend_from_persistence,
  persistence_backend_from_proxy,
}

abbrev pub server_error : Response
server_error = respond 500 (plain (codes "internal server error"))

abbrev pub not_found : Response
not_found = respond 404 (plain (codes "404 page not found"))

abbrev pub listed : Option Table → Response
listed none = server_error
listed (some bs) = respond 200 (all_backends (map proxy_backend_from_persistence bs))

-- listPublicBackends, listAllBackends
unfoldable pub list_public_backends : Outside → World → Response
unfolding list
list_public_backends io w = listed (list io.backends_answer w.backends)

unfoldable pub list_all_backends : Outside → World → Response
unfolding list
list_all_backends io w = listed (list io.backends_answer w.backends)

-- listActiveBackends, legacyActiveBackends
unfoldable pub list_active_backends : Outside → World → Response
unfolding list_active
list_active_backends io w = listed (list_active io.backends_answer w.backends)

unfoldable pub legacy_active_backends : Outside → World → Response
unfolding list_active
legacy_active_backends io w = listed (list_active io.backends_answer w.backends)

-- the loop over the backends that answers at the first of the name
unfoldable pub first_named : (Backend → Response) → Text → Table → Response
first_named show name [] = not_found
first_named show name (b ∷ bs) = if text_eq b.name name then show b else first_named show name bs

unfoldable pub found : (Backend → Response) → Text → Option Table → Response
unfolding first_named
found show name none = server_error
found show name (some bs) = first_named show name bs

-- getPublicBackend
unfoldable pub get_public_backend : Outside → Request → World → Response
unfolding found list
get_public_backend io r w =
    found (λ b. respond 200 (one_backend (proxy_backend_from_persistence b))) r.param
      (list io.backends_answer w.backends)

abbrev pub no_stats : ClusterStats
no_stats = record {
  running_query_count = 0;
  queued_query_count = 0;
  num_worker_nodes = 0;
  user_queued_count = [];
}

abbrev pub stats_for : Option (Text → ClusterStats) → Text → ClusterStats
stats_for none name = no_stats
stats_for (some stats) name = stats name

-- clusterStatsResponseFromPersistence
abbrev pub cluster_stats_response_from_persistence :
    World → Backend → ClusterStats → ClusterStatsResponse
cluster_stats_response_from_persistence w b cs = record {
  cluster_id = b.name;
  stats = cs;
  trino_status = label (status_at b.url w);
  proxy_to = b.url;
  external_url = external_url_or_proxy_to b.external_url b.url;
  routing_group = b.routing_group;
}

-- getPublicBackendState
unfoldable pub get_public_backend_state : Config → Outside → Request → World → Response
unfolding found list
get_public_backend_state cfg io r w =
    found
      (λ b.
        respond 200 (
          backend_state (cluster_stats_response_from_persistence w b (stats_for cfg.stats b.name))))
      r.param (list io.backends_answer w.backends)

-- backendResponseFromPersistence
abbrev pub backend_response_from_persistence : Config → World → Backend → BackendResponse
backend_response_from_persistence cfg w b = record {
  backend = proxy_backend_from_persistence b;
  queued = (stats_for cfg.stats b.name).queued_query_count;
  running = (stats_for cfg.stats b.name).running_query_count;
  status = label (status_at b.url w);
}

-- handleGatewayPing
abbrev pub handle_gateway_ping : Response
handle_gateway_ping = respond 200 (plain (codes "ok"))

-- the world after a call of the store, and whether it failed
abbrev pub stored : World → Option Table → Response → Response → Response × World
stored w none bad good = (bad, w)
stored w (some t) bad good = (good, record w { backends = t })

abbrev set_active_failed : Response
set_active_failed = respond 404 (plain (codes "backend not found or error"))

-- activateBackend and deactivateBackend; the text of the error leaves out the name
unfoldable pub activate_backend : Outside → Request → World → Response × World
unfolding set_active
activate_backend io r w =
    stored w (set_active io.backends_answer r.param true io.now w.backends) set_active_failed
      (respond 200 empty)

unfoldable pub deactivate_backend : Outside → Request → World → Response × World
unfolding set_active
deactivate_backend io r w =
    stored w (set_active io.backends_answer r.param false io.now w.backends) set_active_failed
      (respond 200 empty)

abbrev pub bad_request : Response
bad_request = respond 400 (plain (codes "bad request"))

-- deleteBackend; the reader of the body stops at 1024 bytes
unfoldable pub delete_backend : Outside → Request → World → Response × World
unfolding delete
delete_backend io r w = elim r.body [
  | none ↦ (bad_request, w)
  | some body ↦
      let name = trim_space (take 1024 body) in
      if is_empty name
      then (respond 400 (plain (codes "bad request: empty name")), w)
      else stored w (delete io.backends_answer name w.backends) server_error (respond 200 empty)
]

-- listEntityTypes
abbrev pub list_entity_types : Response
list_entity_types = respond 200 (words (codes "GATEWAY_BACKEND" ∷ []))

-- listEntities
unfoldable pub list_entities : Outside → Request → World → Response
unfolding list
list_entities io r w =
    if text_eq r.param (codes "GATEWAY_BACKEND")
    then listed (list io.backends_answer w.backends)
    else respond 200 (words [])

module _ (decode : Text → Option ProxyBackend) (cfg : Config) (io : Outside) where
  unfoldable pub upserted : World → ProxyBackend → Response → Response → Response × World
  unfolding upsert
  upserted w pb bad good =
      stored w
        (upsert cfg.driver io.backends_answer (persistence_backend_from_proxy io.now pb) w.backends)
        bad good

  -- addBackend and updateBackend
  unfoldable pub add_backend : Request → World → Response × World
  unfolding upserted decode_json
  add_backend r w = elim (decode_json decode r.body) [
    | none ↦ (bad_request, w)
    | some pb ↦ upserted w pb server_error (respond 200 (one_backend pb))
  ]

  unfoldable pub update_backend : Request → World → Response × World
  unfolding upserted decode_json
  update_backend r w = elim (decode_json decode r.body) [
    | none ↦ (bad_request, w)
    | some pb ↦ upserted w pb server_error (respond 200 (one_backend pb))
  ]

  -- SetBackendStatus of the upsert of an entity
  abbrev pub with_status : ProxyBackend → World → World
  with_status pb w =
      if cfg.has_status_mut
      then record w {
        statuses = put pb.proxy_to (if pb.active then pending else unhealthy) w.statuses;
      }
      else w

  abbrev pub entity_upserted : World → ProxyBackend → Option Table → Response × World
  entity_upserted w pb none = (server_error, w)
  entity_upserted w pb (some t) =
      (respond 200 (one_backend pb), with_status pb (record w { backends = t }))

  -- upsertEntity; the text of the error leaves out the type
  unfoldable pub upsert_entity : Request → World → Response × World
  unfolding upsert decode_json
  upsert_entity r w =
      if text_eq (r.query (codes "entityType")) (codes "GATEWAY_BACKEND")
      then elim (decode_json decode r.body) [
        | none ↦ (bad_request, w)
        | some pb ↦ entity_upserted w pb (
            upsert cfg.driver io.backends_answer (persistence_backend_from_proxy io.now pb)
              w.backends)
      ]
      else (respond 500 (plain (codes "unknown entity type")), w)
