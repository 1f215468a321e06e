-- ===== src/Routing/Router/Origin.antt =====
-- Where a request may be sent.
use trino_goway.Base.{◌≡◌, ◌≢◌, ◌⊎◌, false, some, List, [], ◌∷◌, arith, is_empty}
use trino_goway.Routing.QueryId.{extract_query_id}
use trino_goway.Routing.External.{RouteInput}
use trino_goway.Routing.Recovery.{ActiveBackend, World}
use trino_goway.Routing.Router.{
  LruCache, Router, ok, route, route_cached, route_external, recover_route, resolve_group,
  first_active_backend, call_external, group_of,
}

module _ (l : LruCache) (r : Router) (w : World) (req : RouteInput) (c : l.Cache) where
  -- An outcome of `ok` is a cache hit, or the answer of a routing service for the group that it chose.
  pub route_ok :
      (route l r w req c).0.outcome ≡ ok
      → let res = (route l r w req c).0 in
        let group = group_of (call_external r req).0 in
        ((l.get (extract_query_id req.request_uri) c).0 ≡ some res.backend_url)
        ⊎ ((res.routing_group ≡ group)
            × (is_empty group ≡ false)
            × (res.backend_url ≡ resolve_group w 1 group)
            × (is_empty res.backend_url ≡ false))
  unfolding route route_cached route_external recover_route
  route_ok h = ground arith

  -- No request is left without a backend while there is one: if the last call of ListActive gives a
  -- first backend with a URL, and the cache holds no empty URL for the query of the path, the chosen
  -- URL is not empty.
  pub route_finds_backend :
      (b : ActiveBackend) (rest : List ActiveBackend)
      → w.list_active 3 ≡ some (b ∷ rest)
      → is_empty b.url ≡ false
      → (l.get (extract_query_id req.request_uri) c).0 ≢ some []
      → is_empty (route l r w req c).0.backend_url ≡ false
  unfolding route route_cached route_external recover_route first_active_backend
  route_finds_backend b rest e h n = ground arith
