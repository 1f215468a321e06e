-- ===== src/Routing/Examples.antt =====
-- Runs of the router of internal/routing.
use trino_goway.Base.{
  ℕ, List, ◌≡◌, ◌⊎◌, refl, false, none, some, Option, [], ◌∷◌, ◌++◌, arith, if◌then◌else◌, Text,
  codes, text_eq, text_eq_refl, is_empty, has_prefix,
}
use trino_goway.Routing.QueryId.{
  extract_kill_query_id, extract_query_id, kill_at, match_word, until_delimiter,
}
use trino_goway.Routing.QueryId.Kill.{query_id, extract_kill_query_id-kill}
use trino_goway.Routing.External.{RouteInput, selected}
use trino_goway.Routing.Recovery.{ActiveBackend, World, recover_backend}
use trino_goway.Routing.Recovery.Probe.{IsFair, Recovered, recover_backend_order}
use trino_goway.Routing.Singleflight.{run, step}
use trino_goway.Routing.Singleflight.Share.{one_lookup, shared_result}
use trino_goway.Routing.Router.{
  LruCache, Router, direct, ok, kill_query, cache_hit, route, route_cached, route_external,
  in_group, write_cache, call_external, group_of, resolve_group,
}
use trino_goway.Routing.Router.Sticky.{route-write_cache, route_kill_query}
use trino_goway.Routing.Router.Origin.{route_ok, route_finds_backend}

-- a cache of one entry
abbrev Entry : Type 0
Entry = Option (Text × Text)

abbrev get_entry : Text → Entry → Option Text × Entry
get_entry k none = (none, none)
get_entry k (some (j, v)) = (if text_eq j k then some v else none, some (j, v))

abbrev add_entry : Text → Text → Entry → Entry
add_entry k v c = some (k, v)

get-add_entry : (k v : Text) (c : Entry) → (get_entry k (add_entry k v c)).0 ≡ some v
get-add_entry k v c = rw (text_eq_refl k) refl

abbrev lru : LruCache
lru = record { Cache = Entry; get = get_entry; add = add_entry; get-add = get-add_entry }

abbrev backend : ActiveBackend
backend = record { name = codes "t1"; url = codes "http://t1"; routing_group = codes "adhoc" }

abbrev world : World
world = record {
  history = λ id. codes "http://t2";
  list_active = λ n. some (backend ∷ []);
  head = λ url. none;
  arrival = λ bs. bs;
}

abbrev no_history : World
no_history = record world { history = λ id. [] }

abbrev router : Router
router = record {
  default_group = codes "adhoc";
  exclude_headers = codes "authorization" ∷ [];
  grpc = none;
  http = λ req. selected (codes "adhoc") [] [];
}

abbrev get_query : RouteInput
get_query = record {
  method = codes "GET";
  request_uri = codes "/v1/query/20240101_000000_00001_abcde";
  query_string = [];
  remote_addr = [];
  remote_host = [];
  remote_user = [];
  body = [];
  parameters = [];
  headers = [];
}

abbrev id1 : Text
id1 = codes "20240101_000000_00001_abcde"

abbrev kill : RouteInput
kill = record get_query {
  request_uri = codes "/v1/statement";
  body = codes "kill  query '20240101_000000_00001_abcde'";
}

abbrev submit : RouteInput
submit = record get_query { request_uri = codes "/v1/statement"; body = codes "SELECT 1" }

route-write_cache_example :
    ((route lru router world get_query (write_cache lru id1 (codes "http://t9") none)).0
      ≡ direct (codes "http://t9") ok)
    × ((route lru router world get_query (write_cache lru id1 (codes "http://t9") none)).1
        ≡ cache_hit ∷ [])
unfolding extract_query_id extract_kill_query_id has_prefix until_delimiter
route-write_cache_example =
    route-write_cache lru router world get_query none (codes "http://t9") refl refl

route_ok_example :
    let res = (route lru router no_history submit none).0 in
    let group = group_of (call_external router submit).0 in
    ((get_entry (extract_query_id submit.request_uri) none).0 ≡ some res.backend_url)
    ⊎ ((res.routing_group ≡ group)
        × (is_empty group ≡ false)
        × (res.backend_url ≡ resolve_group no_history 1 group)
        × (is_empty res.backend_url ≡ false))
unfolding route extract_kill_query_id kill_at match_word has_prefix route_cached extract_query_id
    route_external resolve_group in_group text_eq call_external
route_ok_example = route_ok lru router no_history submit none refl

route_finds_backend_example :
    is_empty (route lru router no_history submit none).0.backend_url ≡ false
route_finds_backend_example =
    route_finds_backend lru router no_history submit none backend [] refl refl (ground arith)

no_history-IsFair : IsFair no_history
no_history-IsFair P bs = ((λ a. a), (λ a. a))

recover_backend_order_example :
    Recovered no_history id1 (backend ∷ []) (recover_backend no_history 0 id1).0
recover_backend_order_example =
    recover_backend_order no_history 0 id1 backend [] no_history-IsFair refl

route_kill_query_example :
    (url : Text) × Recovered no_history
      (query_id (codes "20240101") (codes "000000") (codes "00001") (codes "abcde"))
      (backend ∷ [])
      url
    × ((route lru router no_history kill none).0 ≡ direct url kill_query)
    × ((route lru router no_history kill none).2 ≡ none)
route_kill_query_example =
    route_kill_query lru router no_history kill none backend [] (codes "kill") (codes "  ")
      (codes "query") (codes " ") (codes "20240101") (codes "000000") (codes "00001")
      (codes "abcde") [] no_history-IsFair refl refl refl
      (record { bytes = ground arith; some_byte = refl }) refl
      (record { bytes = ground arith; some_byte = refl })
      (record { bytes = ground arith; some_byte = refl })
      (record { bytes = ground arith; some_byte = refl })
      (record { bytes = ground arith; some_byte = refl })
      (record { bytes = ground arith; some_byte = refl }) refl

extract_kill_query_id-kill_example :
    extract_kill_query_id (
      codes "Kill"
      ++ (codes "  "
          ++ (codes "query"
              ++ (codes " "
                  ++ (39
                      ∷ (codes "2024"
                          ++ (b'_'
                              ∷ (codes "1"
                                  ++ (b'_'
                                      ∷ (codes "02"
                                          ++ (b'_' ∷ (codes "x9" ++ (39 ∷ codes ";")))))))))))))
    ≡ query_id (codes "2024") (codes "1") (codes "02") (codes "x9")
extract_kill_query_id-kill_example =
    extract_kill_query_id-kill (codes "Kill") (codes "  ") (codes "query") (codes " ")
      (codes "2024") (codes "1") (codes "02") (codes "x9") (codes ";") refl
      (record { bytes = ground arith; some_byte = refl }) refl
      (record { bytes = ground arith; some_byte = refl })
      (record { bytes = ground arith; some_byte = refl })
      (record { bytes = ground arith; some_byte = refl })
      (record { bytes = ground arith; some_byte = refl })
      (record { bytes = ground arith; some_byte = refl })

-- two callers of one key: both enter, the maker looks up, the other wakes, the maker leaves
abbrev schedule : List (ℕ × Option Text)
schedule = (0, none) ∷ (1, none) ∷ (0, some (codes "http://t1")) ∷ (1, none) ∷ (0, none) ∷ []

shared_result_example : (id1 ≡ id1) × (some (codes "http://t1") ≡ some (codes "http://t1"))
unfolding run step text_eq
shared_result_example =
    shared_result (λ i. id1) schedule 0 1 id1 id1 0 (some (codes "http://t1"))
      (some (codes "http://t1")) refl refl

one_lookup_example : ◌≡◌ {A = ℕ} 0 0
unfolding run step text_eq
one_lookup_example = one_lookup (λ i. id1) ((0, none) ∷ (1, none) ∷ []) 0 0 id1 0 0 refl refl
