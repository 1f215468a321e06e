-- ===== src/Routing/Router/Sticky.antt =====
-- Requests about a known query go to its backend.
use trino_goway.Base.{
  ◌≡◌, refl, true, false, some, List, [], ◌∷◌, ◌++◌, arith, map, Text, codes, upper_byte, is_empty,
}
use trino_goway.Routing.QueryId.{
  extract_kill_query_id, extract_query_id, is_blank, is_digit, is_word,
}
use trino_goway.Routing.QueryId.Kill.{IsRun, query_id, extract_kill_query_id-kill}
use trino_goway.Routing.Recovery.Probe.{
  IsFair, Recovered, from_history, from_probe, from_first, recover_backend_order,
}
use trino_goway.Routing.External.{RouteInput}
use trino_goway.Routing.Recovery.{ActiveBackend, World, recover_backend}
use trino_goway.Routing.Router.{
  LruCache, Router, ok, kill_query, cache_hit, direct, route, route_cached, write_cache,
}

abbrev pub kill_text : Text → Text → Text → Text → Text → Text → Text → Text → Text → Text
kill_text w x y z a b c d s =
    w ++ (x ++ (y ++ (z ++ (39 ∷ (a ++ (b'_' ∷ (b ++ (b'_' ∷ (c ++ (b'_' ∷ (d ++ (39 ∷ s))))))))))))

query_id_some : (a b c d : Text) → IsRun is_digit a → is_empty (query_id a b c d) ≡ false
query_id_some [] b c d h = refl
query_id_some (k ∷ a) b c d h = refl

module _ (l : LruCache) where
  -- Once WriteCache has stored a query's backend, the next request whose path names that query, and
  -- whose body kills none, goes to that backend, whatever the routing services, the history and the
  -- list of active backends say; it is recorded as one cache hit.
  pub route-write_cache :
      (r : Router) (w : World) (req : RouteInput) (c : l.Cache) (url : Text)
      → is_empty (extract_query_id req.request_uri) ≡ false
      → is_empty (extract_kill_query_id req.body) ≡ true
      → let qid = extract_query_id req.request_uri in
        let res = route l r w req (write_cache l qid url c) in
        (res.0 ≡ direct url ok) × (res.1 ≡ cache_hit ∷ [])
  unfolding route route_cached write_cache
  route-write_cache r w req c url h k =
      ground (arith, l.get-add (extract_query_id req.request_uri) url c)

  Recovered-some :
      (w : World) (id : Text) (b : ActiveBackend) (rest : List ActiveBackend) (url : Text)
      → is_empty b.url ≡ false
      → Recovered w id (b ∷ rest) url
      → is_empty url ≡ false
  Recovered-some w id b rest url h (from_history e n) = n
  Recovered-some w id b rest url h (from_probe e n p) = n
  Recovered-some w id b rest url h (from_first e n x xs q u) = ground arith

  -- A request whose body is KILL QUERY and a quoted query id, in any letter case, with any blanks between
  -- the words and whatever follows, goes to the backend that the recovery chain finds for that id: the
  -- one that the history names, else one that answers its probe, else the first active one. Neither the
  -- cache nor a routing service has a say, the outcome is kill_query, and no cache entry changes. There
  -- is an active backend, the first of them has a URL, and the probes end in some order of those asked.
  pub route_kill_query :
      (r : Router) (world : World) (req : RouteInput) (cache : l.Cache) (first : ActiveBackend)
      (rest : List ActiveBackend) (w x y z a b c d s : Text)
      → IsFair world
      → world.list_active 0 ≡ some (first ∷ rest)
      → is_empty first.url ≡ false
      → map upper_byte w ≡ codes "KILL"
      → IsRun is_blank x
      → map upper_byte y ≡ codes "QUERY"
      → IsRun is_blank z
      → IsRun is_digit a
      → IsRun is_digit b
      → IsRun is_digit c
      → IsRun is_word d
      → req.body ≡ kill_text w x y z a b c d s
      → (url : Text) × Recovered world (query_id a b c d) (first ∷ rest) url
        × ((route l r world req cache).0 ≡ direct url kill_query)
        × ((route l r world req cache).2 ≡ cache)
  unfolding route
  route_kill_query r world req cache first rest w x y z a b c d s fair active h ew hx ey hz ha hb hc
        hd e =
      let id : extract_kill_query_id req.body ≡ query_id a b c d =
        rw (e) (extract_kill_query_id-kill w x y z a b c d s ew hx ey hz ha hb hc hd) in
      let found = recover_backend_order world 0 (query_id a b c d) first rest fair active in
      let n = Recovered-some world (query_id a b c d) first rest _ h found in
      (
        (recover_backend world 0 (query_id a b c d)).0,
        found,
        rw (id) (ground (arith, n, query_id_some a b c d ha)),
        rw (id) (ground (arith, n, query_id_some a b c d ha)),
      )
