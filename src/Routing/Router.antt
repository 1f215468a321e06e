-- ===== src/Routing/Router.antt =====
-- internal/routing/router.go, over the LRU cache of internal/routing/cache.go, which is the
-- third-party library's and a parameter. Durations and log lines are left out; what the metrics
-- recorder is told stands beside the result.
pub mod Origin
pub mod Sticky
use trino_goway.Base.{
  ℕ, ◌≡◌, Bool, true, false, ◌==◌, Option, none, some, List, [], ◌∷◌, ◌++◌, if◌then◌else◌, Text,
  text_eq, is_empty, map,
}
use trino_goway.Routing.QueryId.{extract_kill_query_id, extract_query_id}
use trino_goway.Routing.External.{
  RouteInput, Selection, selected, select_failed, filter_excluded_headers,
}
use trino_goway.Routing.Recovery.{ActiveBackend, RecoveryStep, World, recover_backend}

-- github.com/hashicorp/golang-lru: a read gives the value and the cache with the key marked as used.
pub record LruCache : Type 1 where
  pub Cache : Type 0
  pub get : Text → Cache → Option Text × Cache
  pub add : Text → Text → Cache → Cache
  -- documented behaviour: what was just added is there
  pub get-add : (k v : Text) (c : Cache) → (get k (add k v c)).0 ≡ some v

pub data RouteOutcome : Type 0 where
  ok fallback kill_query error : RouteOutcome

pub record RouteResult : Type 0 where
  pub backend_url : Text
  pub routing_group : Text
  pub external_headers : List (Text × Text)
  pub errors : List Text
  pub outcome : RouteOutcome

pub data CallOutcome : Type 0 where
  call_ok call_timeout call_error : CallOutcome

-- What the metrics recorder is told.
pub data Metric : Type 0 where
  kill_query_route cache_hit cache_miss : Metric
  grpc_call http_call : CallOutcome → Metric
  recovery : RecoveryStep → Metric

-- The configuration and the selectors; no gRPC selector where its address is not configured.
pub record Router : Type 0 where
  pub default_group : Text
  pub exclude_headers : List Text
  pub grpc : Option (RouteInput → Selection)
  pub http : RouteInput → Selection

abbrev pub router_outcome : Selection → CallOutcome
router_outcome (selected g h e) = call_ok
router_outcome (select_failed true) = call_timeout
router_outcome (select_failed false) = call_error

abbrev pub filtered : List Text → Selection → Selection
filtered exclude (selected g h e) = selected g (filter_excluded_headers exclude h) e
filtered exclude (select_failed d) = select_failed d

abbrev call_http : Router → RouteInput → List Metric → Selection × List Metric
call_http r req told =
    let s = r.http req in
    (filtered r.exclude_headers s, told ++ (http_call (router_outcome s) ∷ []))

abbrev after_grpc : Router → RouteInput → Selection → Selection × List Metric
after_grpc r req (selected g h e) =
    (filtered r.exclude_headers (selected g h e), grpc_call call_ok ∷ [])
after_grpc r req (select_failed d) =
    call_http r req (grpc_call (router_outcome (select_failed d)) ∷ [])

unfoldable pub call_external : Router → RouteInput → Selection × List Metric
call_external r req = elim r.grpc [
  | none ↦ call_http r req []
  | some select ↦ after_grpc r req (select req)
]

unfoldable pub in_group : Text → List ActiveBackend → Text
in_group group [] = []
in_group group (b ∷ bs) =
    let rest = in_group group bs in if text_eq b.routing_group group then b.url else rest

-- resolveGroup, with its call of ListActive as the n-th; empty on an error
unfoldable pub resolve_group : World → ℕ → Text → Text
resolve_group w n group = elim (w.list_active n) [ none ↦ [] | some bs ↦ in_group group bs ]

abbrev first_url : List ActiveBackend → Text
first_url [] = []
first_url (b ∷ bs) = b.url

-- firstActiveBackend
unfoldable pub first_active_backend : World → ℕ → Text
first_active_backend w n = elim (w.list_active n) [ none ↦ [] | some bs ↦ first_url bs ]

abbrev pub group_of : Selection → Text
group_of (selected g h e) = g
group_of (select_failed d) = []

abbrev pub headers_of : Selection → List (Text × Text)
headers_of (selected g h e) = h
headers_of (select_failed d) = []

abbrev pub errors_of : Selection → List Text
errors_of (selected g h e) = e
errors_of (select_failed d) = []

abbrev pub recovered : Text × List RecoveryStep → Text × List Metric
recovered r = (r.0, map recovery r.1)

-- step 5: the recovery chain, where the path names a query, then the first active backend
unfoldable pub recover_route :
    World → Text → Text → Selection → List Metric → RouteResult × List Metric
recover_route w qid group sel told =
    let r = if is_empty qid then ([], []) else recovered (recover_backend w 2 qid) in
    if is_empty r.0
    then (
      record {
        backend_url = first_active_backend w 3;
        routing_group = group;
        external_headers = headers_of sel;
        errors = errors_of sel;
        outcome = fallback;
      },
      told ++ r.1,
    )
    else (
      record {
        backend_url = r.0;
        routing_group = [];
        external_headers = headers_of sel;
        errors = errors_of sel;
        outcome = fallback;
      },
      told ++ r.1,
    )

-- steps 3 to 5
unfoldable pub route_external :
    Router → World → Text → RouteInput → List Metric → RouteResult × List Metric
route_external r w qid req told =
    let call = call_external r req in
    let sel = call.0 in
    let told' = told ++ call.1 in
    let group = if is_empty (group_of sel) then r.default_group else group_of sel in
    let outcome = if is_empty (group_of sel) then fallback else ok in
    let url = resolve_group w 1 group in
    if is_empty url then recover_route w qid group sel told' else (
      record {
        backend_url = url;
        routing_group = group;
        external_headers = headers_of sel;
        errors = errors_of sel;
        outcome = outcome;
      },
      told',
    )

abbrev pub direct : Text → RouteOutcome → RouteResult
direct url outcome = record {
  backend_url = url;
  routing_group = [];
  external_headers = [];
  errors = [];
  outcome = outcome;
}

module _ (l : LruCache) where
  -- step 2 and what follows
  unfoldable pub route_cached :
      Router → World → RouteInput → List Metric → l.Cache → RouteResult × List Metric × l.Cache
  route_cached r w req told c =
      let qid = extract_query_id req.request_uri in
      let got = l.get qid c in
      let fresh = route_external r w qid req told in
      let missed = route_external r w qid req (told ++ (cache_miss ∷ [])) in
      if is_empty qid then (fresh.0, fresh.1, c) else elim got.0 [
        | some url ↦ (direct url ok, told ++ (cache_hit ∷ []), got.1)
        | none ↦ (missed.0, missed.1, got.1)
      ]

  -- Router.Route, which gives no error; steps 1 and after
  unfoldable pub route : Router → World → RouteInput → l.Cache → RouteResult × List Metric × l.Cache
  route r w req c =
      let kid = extract_kill_query_id req.body in
      let found = if is_empty kid then ([], []) else recovered (recover_backend w 0 kid) in
      if is_empty found.0
      then route_cached r w req found.1 c
      else (direct found.0 kill_query, found.1 ++ (kill_query_route ∷ []), c)

  -- Router.WriteCache
  unfoldable pub write_cache : Text → Text → l.Cache → l.Cache
  write_cache id url c = l.add id url c
