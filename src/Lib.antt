-- ===== src/Lib.antt =====
-- Verification of trino-goway, a gateway in front of Trino clusters, and of its routing service.
--
-- The gateway proxies the Trino protocol. For each request internal/proxy asks internal/routing for a
-- backend: the router looks for a KILL QUERY, then for the query of the path in its cache, then asks
-- an external routing service by gRPC or HTTP for a routing group, resolves the group to an active
-- backend, and falls back on a recovery chain over the history and probes. The proxy forwards the
-- request, stores the backend of a new query in the cache, and answers. The routing service is the
-- other end of that call: routing-service/internal/engine runs a pipeline of methods over the request,
-- whose SQL routing-service/internal/sqlmeta analyses, and routing-service/internal/reload swaps the
-- methods when the configuration file changes; routing-service/internal/server is its gRPC surface.
-- internal/monitor probes the backends and tells an observer of their health. The backends and the
-- history of queries are two tables of internal/persistence, which internal/admin serves and changes
-- over HTTP, behind the authenticators and roles of internal/auth; internal/config loads the settings.
-- internal/clusterstats collects the counts of queries and workers that internal/admin shows.
--
-- Base    shared names: tests on native numbers, lists, texts (lists of bytes), signed numbers
-- Dict    maps as association lists
-- Http    headers, canonical keys
-- Sqlmeta routing-service/internal/sqlmeta/heuristic.go and analyzer.go
--   Lexer: tokenize, scanDelimited; Statement: statementType, mainAfterWith, categoryFor;
--   Refs: extractTableRefs, readRef, skipAlias; Names: qualify, joinName, stringSet;
--   Analyze: analyze. An index into the text or the tokens is the rest from there on.
-- Engine  routing-service/internal/engine
--   Method: Decision, RouteInput, HashPct; Pipeline: Evaluate, EvaluateResult, EvaluateFull, Swap,
--   updateMethod; Input: FromProto; Adapter: PipelineEvaluator; Registry: Build, methodConfigBytes.
-- Reload  routing-service/internal/config (Config: Load, Validate) and
--   routing-service/internal/reload (Watcher: reload, fail, loop)
-- Service routing-service/internal/server
--   Route: Route, classifyOutcome, SetConfigVersion; Switch: DisableMethod, EnableMethod, ListDisabled.
-- Monitor internal/monitor (Probe: probe, checkOne, SetBackends, SetBackendStatus, notifyObserver)
-- Auth    internal/auth
--   Roles: HasRole, ResolvePagePermissions; Gate: Noop, LDAPMiddleware, OIDCMiddleware.Handler,
--   RequireRole; Keys: NewOIDC, refresh; Login: NewOIDCWebLogin, AuthCodeURL, Exchange.
-- Store   internal/persistence
--   Backends: BackendDAO; History: HistoryDAO; Migrate: Open, MigrateUp. A table is the list of its rows.
-- Admin   internal/admin
--   Wire: the wire types and the world; Backends, Queries, Webapp, Session: the handlers; Routes: the
--   table of buildRouter; Serve: the middlewares and handlers behind it.
-- Settings internal/config/config.go (Checks: Validate, Load, DataSize)
-- Stats   internal/clusterstats
--   Collector: NewCollector, statsBuilder, StatsStore, the attempts of a request; UiApi:
--   uiAPICollector; Metrics: metricsCollector.
-- Diffharness internal/diffharness (Normalize: Normalize, stripJSONFields, deleteJSONPath)
-- MigrateConfig cmd/goway-migrate-config/migrate.go (Output: formatBytes of output.go)
-- Routing internal/routing
--   QueryId: extractKillQueryID, extractQueryID; External: the two selectors and the filters of
--   headers; Recovery: recoverBackend, headProbeFanOut; Singleflight: singleFlightGroup.do;
--   Router: Route, WriteCache, callExternal.
-- Proxy   internal/proxy
--   Headers: copyHeaders, injectHeaders, hostOnly, forwardedPort; Cookie: issueCookie,
--   validateCookie, applyCookies; Forward: handleStatement, handleStream.
-- The Examples modules run the definitions on small inputs.
--
-- Conventions. A string is a list of bytes; letter case and white space are those of ASCII. Nil and
-- empty slices, maps and strings are one value where the code does not tell them apart. A duration or
-- an instant is a natural number of nanoseconds. A 64-bit counter is kept modulo 2 ^ 64. A map is an
-- association list, and what Go leaves open in its order is the order of the list. A store that other
-- goroutines change between two steps enters as the sequence of the values found; where callers of one
-- object meet, their steps are taken in any order. A handler gives
-- the list of its effects in order.
--
-- Parameters. Code that is not in the repository is an argument: the LRU cache (a read after a write
-- finds what was written), HMAC, base64 and JSON of cookies (what was encoded decodes to itself), the
-- text of durations, yaml.Unmarshal, the hash of a file, the transports to the routing service, the
-- history, the list of active backends and the answers to probes. The calls of ListActive within one
-- request are numbered, since the backends may change between two of them. So are the LDAP client, the JWT
-- and JWKS libraries, regexp.MatchString, JSON bodies, chi's matching of paths, the UI bundle, and whether
-- the database answers a statement. In the searches of the history, the equality of texts and the order
-- of rows of one instant are the database's; the keys of both tables are compared byte by byte, which is
-- narrower than the default collation of MySQL. Whether the URL of a backend parses is a parameter too.
--
-- Fuel. The tokenizer and the loops over the tokens take one unit for each round; the length of the
-- text and the number of tokens are enough, and more changes nothing. The loop that writes a YAML block
-- takes the length of the value.
--
-- Not modelled: log lines, durations and spans; timeouts and cancellation; the headers of an error
-- response; the write of a response that the client breaks off. The recovery chain takes a shared
-- history lookup for one of its own. The averages of the distribution are floating-point numbers and are
-- left out. Nor are modelled the start and stop of servers, watchers and monitors, overlapping
-- collections of cluster statistics, the providers, and the other tools of the gateway.
pub mod Base
pub mod Dict
pub mod Http
pub mod Sqlmeta
pub mod Engine
pub mod Reload
pub mod Service
pub mod Routing
pub mod Monitor
pub mod Stats
pub mod MigrateConfig
pub mod Diffharness
pub mod Auth
pub mod Store
pub mod Admin
pub mod Settings
pub mod Proxy
