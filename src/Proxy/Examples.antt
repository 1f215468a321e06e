-- ===== src/Proxy/Examples.antt =====
-- Runs of the proxy of internal/proxy.
mod Plain
use trino_goway.Base.{
  ◌≡◌, ◌⊎◌, refl, ℕ, not, ◌/◌, true, false, none, some, Option, List, [], ◌∷◌, ◌++◌, arith, Bool,
  if◌then◌else◌, Text, codes, is_empty, All, ◌==◌, contains, text_eq, has_prefix, ap, ◌*◌, text_eq,
  contains, length, ltb,
}
use trino_goway.Dict.{lookup, put}
use trino_goway.Http.{
  is_token_byte, header_set, canonical_key, all_token_bytes, canonical_from, Header,
}
use trino_goway.Routing.Router.{RouteResult, direct, ok}
use trino_goway.Proxy.Headers.{
  set_all, Inbound, copy_headers, is_hop_by_hop, inject_headers, host_only, forwarded_port,
  default_port,
}
use trino_goway.Proxy.Headers.Hosts.{host_header_split}
use trino_goway.Proxy.Headers.Copies.{or_else, single, external_value, upstream_headers}
use trino_goway.Proxy.Cookie.{
  Codec, CookieConfig, GatewayCookie, UnsignedGatewayCookie, SetCookie, issued, deleted,
  issue_value, apply_cookies, is_expired, ms,
}
use trino_goway.Proxy.Cookie.Life.{issued_cookie_returns, unsigned_cookie_stops}
use trino_goway.Proxy.Forward.{
  ProxyConfig, Upstream, upstream_error, upstream_response, handle_statement, handle_stream, panics,
}
use trino_goway.Proxy.Forward.Order.{
  CachedFirst, WritesOnly, cached_before_response, statement_writes_upstream,
}
use trino_goway.Proxy.Examples.Plain.{plain, decode, get_texts}

abbrev cookie_config : CookieConfig
cookie_config = record { secret = codes "k"; ttl = 5 * ms; wire_compat = true }

abbrev config : ProxyConfig
config = record {
  propagate_errors = true;
  response_size = 40;
  cookie = cookie_config;
  has_history = true;
}

abbrev issued_value : Text
issued_value = issue_value plain cookie_config (7 * ms) (codes "http://t1")

abbrev request : Inbound
request = record {
  method = codes "GET";
  path = codes "/oauth2/callback";
  raw_query = [];
  remote_addr = codes "10.0.0.1:5000";
  host = codes "gw:8080";
  is_tls = true;
  headers = (codes "Connection", codes "close" ∷ []) ∷ [];
  cookie = none;
}

abbrev returning : Inbound
returning = record request { cookie = some issued_value }

issued_cookie_returns_example :
    apply_cookies plain cookie_config (8 * ms) returning (codes "http://t1") ≡ (
      true,
      (if is_expired (8 * ms) (5 * ms) (7 * ms / ms)
          then some deleted
          else if contains
              (codes "/logout" ∷ codes "/oauth2/logout" ∷ [])
              (codes "/oauth2/callback")
          then some deleted
          else none),
    )
issued_cookie_returns_example =
    issued_cookie_returns plain cookie_config (7 * ms) (8 * ms) (codes "http://t1")
      (codes "http://t1") returning refl refl

unsigned_cookie_stops_example :
    (gc : GatewayCookie) × (decode true issued_value ≡ some gc)
    × (gc.signature ≡ plain.mac (codes "k") gc.unsigned)
unsigned_cookie_stops_example =
    unsigned_cookie_stops plain cookie_config (8 * ms) issued_value (codes "http://t1") returning
      refl refl (ap (λ (r : Bool × Option SetCookie). r.0) issued_cookie_returns_example)

-- the id is the body itself
abbrev to_t1 : Text → Option RouteResult
to_t1 body = some (direct (codes "http://t1") ok)

-- a URL is taken unless it begins with a colon
abbrev parses : Text → Bool
parses url = not (has_prefix url (codes ":"))

abbrev answer : Upstream
answer = upstream_response 200 [] (some (codes "q1"))

unparsed_panics :
    handle_stream plain (λ b. b) config 0 request parses (λ b. some (direct (codes ":") ok)) answer
    ≡ panics ∷ []
unfolding handle_stream has_prefix
unparsed_panics = refl

cached_before_response_example : CachedFirst (codes "q1") (codes "http://t1") (
    handle_statement plain
      (λ b. b)
      config
      0
      request
      parses
      to_t1
      (some [])
      (upstream_response 200 [] (some (codes "q1"))))
cached_before_response_example =
    cached_before_response plain (λ b. b) config 0 request parses to_t1
      (direct (codes "http://t1") ok) 200 [] [] (codes "q1") refl refl

upstream_headers_example :
    lookup (codes "X-Team") (
      inject_headers request ((codes "x-team", codes "etl") ∷ []) (copy_headers [] request.headers))
    ≡ or_else
        (single (external_value (codes "X-Team") ((codes "x-team", codes "etl") ∷ [])))
        (if is_hop_by_hop (codes "X-Team") then none else lookup (codes "X-Team") request.headers)
unfolding contains text_eq canonical_key all_token_bytes canonical_from is_token_byte
upstream_headers_example =
    upstream_headers request ((codes "x-team", codes "etl") ∷ []) (codes "X-Team") refl

upstream_headers_run :
    lookup (codes "X-Team") (
      inject_headers request ((codes "x-team", codes "etl") ∷ []) (copy_headers [] request.headers))
    ≡ some (codes "etl" ∷ [])
unfolding lookup inject_headers set_all header_set put copy_headers is_hop_by_hop contains
    canonical_key all_token_bytes is_token_byte canonical_from
upstream_headers_run = refl
