-- ===== src/Proxy/Forward.antt =====
-- internal/proxy/forward.go. A handler gives what it does to the outside, in order; the router's
-- answer, the two bodies and the upstream's answer come from outside. json.Unmarshal of the body's
-- `id` is a parameter, and so is whether url.Parse and http.NewRequest take the URL of a backend: their
-- errors are not looked at, and the handler panics at the nil that they come with. Log lines and
-- durations are left out.
pub mod Order
use trino_goway.Base.{
  ℕ, Bool, true, false, ◌&&◌, not, ltb, Option, none, some, List, [], ◌∷◌, ◌++◌, if◌then◌else◌,
  length, Text, codes, is_empty,
}
use trino_goway.Http.{Header, header_get}
use trino_goway.Routing.Router.{RouteResult, RouteOutcome, ok, error}
use trino_goway.Proxy.Headers.{Inbound, copy_headers, inject_headers}
use trino_goway.Proxy.Cookie.{Codec, CookieConfig, SetCookie, apply_cookies}

-- What the handler does to the world, in order.
pub data Effect : Type 0 where
  panics : Effect
  upstream_request : Text → Text → Text → Header → Effect
  record_request : Text → Text → RouteOutcome → Effect
  record_upstream : Text → Effect
  record_oversized : Effect
  write_cache : Text → Text → Effect
  record_cache_write : Effect
  insert_history : Text → Text → Text → Text → Effect
  http_error : ℕ → Text → Effect
  write_response : ℕ → Header → Option SetCookie → Text → Effect

-- The parts of the proxy's configuration that the handlers read.
pub record ProxyConfig : Type 0 where
  pub propagate_errors : Bool
  pub response_size : ℕ
  pub cookie : CookieConfig
  pub has_history : Bool

-- How the upstream answers: an error, or a status, headers and a body, `none` where reading the buffer
-- fails; a body that is piped is as much of it as can be read.
pub data Upstream : Type 0 where
  upstream_error : Upstream
  upstream_response : ℕ → Header → Option Text → Upstream

abbrev bad_gateway : ℕ
bad_gateway = 502

-- buildUpstreamRequest and injectHeaders: method, base URL, path with query, headers
unfoldable pub upstream_of : Inbound → RouteResult → Effect
upstream_of r res =
    upstream_request r.method res.backend_url
      (if is_empty r.raw_query then r.path else r.path ++ (b'?' ∷ r.raw_query))
      (inject_headers r res.external_headers (copy_headers [] r.headers))

module _ (k : Codec) (query_id_of : Text → Text) (cfg : ProxyConfig) (now : ℕ) (r : Inbound) where
  -- the cookies, the record and the response
  unfoldable pub finish : RouteResult → ℕ → Header → Text → List Effect
  finish res status headers body =
      let cookies = apply_cookies k cfg.cookie now r res.backend_url in
      if cookies.0
      then record_request res.backend_url res.routing_group res.outcome
        ∷ write_response status (copy_headers [] headers) cookies.1 body
        ∷ []
      else record_request res.backend_url res.routing_group error
        ∷ http_error 500 (codes "invalid gateway cookie")
        ∷ []

  -- Hard Invariant #3
  unfoldable pub remember : RouteResult → Text → List Effect
  remember res body =
      let id = query_id_of body in
      if is_empty id
      then []
      else write_cache id res.backend_url
        ∷ record_cache_write
        ∷ (if cfg.has_history
            then insert_history id res.backend_url (header_get (codes "X-Trino-User") r.headers)
                (header_get (codes "X-Trino-Source") r.headers)
              ∷ []
            else [])

  abbrev give_up : RouteResult → ℕ → Text → List Effect
  give_up res code text =
      record_request res.backend_url res.routing_group error ∷ http_error code text ∷ []

  -- the part of handleStatement behind the upstream's answer
  unfoldable pub statement_response : RouteResult → Upstream → List Effect
  statement_response res upstream_error = give_up res bad_gateway (codes "upstream error")
  statement_response res (upstream_response status headers none) =
      record_upstream res.backend_url ∷ give_up res bad_gateway (codes "upstream read error")
  statement_response res (upstream_response status headers (some body)) =
      record_upstream res.backend_url
      ∷ (if ltb cfg.response_size (length body)
          then record_oversized ∷ give_up res bad_gateway (codes "upstream response too large")
          else remember res body ++ finish res status headers body)

  abbrev no_backend : List Effect
  no_backend =
      record_request [] [] error ∷ http_error bad_gateway (codes "no backend available") ∷ []

  -- the request that is built, and what comes after it
  abbrev forward : (Text → Bool) → RouteResult → List Effect → List Effect
  forward parses res es = if parses res.backend_url then upstream_of r res ∷ es else panics ∷ []

  abbrev statement_errors : (Text → Bool) → RouteResult → List Text → Upstream → List Effect
  statement_errors parses res [] up = forward parses res (statement_response res up)
  statement_errors parses res (e ∷ es) up =
      if cfg.propagate_errors
      then give_up res 400 e
      else forward parses res (statement_response res up)

  abbrev statement_routed : (Text → Bool) → Option RouteResult → Upstream → List Effect
  statement_routed parses none up = no_backend
  statement_routed parses (some res) up =
      if is_empty res.backend_url then no_backend else statement_errors parses res res.errors up

  -- handleStatement; `route` is the router on the request with its body, `none` for an error, and
  -- `none` for the body is a failed read
  unfoldable pub handle_statement :
      (Text → Bool) → (Text → Option RouteResult) → Option Text → Upstream → List Effect
  handle_statement parses route none up = http_error 400 (codes "bad request") ∷ []
  handle_statement parses route (some body) up = statement_routed parses (route body) up

  -- what io.Copy pipes to the client; nothing of a body that gives nothing
  abbrev piped : Option Text → Text
  piped none = []
  piped (some body) = body

  unfoldable pub stream_response : RouteResult → Upstream → List Effect
  stream_response res upstream_error = give_up res bad_gateway (codes "upstream error")
  stream_response res (upstream_response status headers body) =
      record_upstream res.backend_url ∷ finish res status headers (piped body)

  -- handleStream
  unfoldable pub handle_stream :
      (Text → Bool) → (Text → Option RouteResult) → Upstream → List Effect
  handle_stream parses route up = elim (route []) [
    | none ↦ no_backend
    | some res ↦
        if is_empty res.backend_url then no_backend else forward parses res (stream_response res up)
  ]
