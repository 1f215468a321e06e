-- ===== src/Proxy/Cookie.antt =====
-- The TG.OAUTH2 cookie of internal/proxy/cookie.go. HMAC, JSON and base64 are parameters (`Codec`), and
-- so is the text of a duration, which the source formats and parses with floating point.
pub mod Life
use trino_goway.Base.{
  ℕ, ◌+◌, ◌-◌, ◌*◌, ◌/◌, ◌≡◌, Bool, true, false, ◌&&◌, not, ltb, Option, none, some, List, [], ◌∷◌,
  if◌then◌else◌, Text, codes, is_empty, contains, text_eq, has_prefix,
}
use trino_goway.Proxy.Headers.{Inbound}

abbrev pub cookie_name : Text
cookie_name = codes "TG.OAUTH2"

-- UnsignedGatewayCookie, the signed payload; `ts` is in milliseconds and not negative
pub record UnsignedGatewayCookie : Type 0 where
  pub backend : Option Text
  pub delete_paths : List Text
  pub name : Text
  pub payload : Option Text
  pub priority : ℕ
  pub routing_paths : List Text
  pub ts : ℕ
  pub ttl : Text

pub record GatewayCookie : Type 0 where
  pub unsigned : UnsignedGatewayCookie
  pub signature : Text

-- Code that is not the repository's. The law is that of base64 and JSON: what was encoded decodes to
-- itself.
pub record Codec : Type 0 where
  -- hex of the HMAC-SHA256, under a secret, of the JSON of a payload
  pub mac : Text → UnsignedGatewayCookie → Text
  pub encode : Bool → GatewayCookie → Text
  pub decode : Bool → Text → Option GatewayCookie
  pub decode-encode : (wire : Bool) (c : GatewayCookie) → decode wire (encode wire c) ≡ some c
  -- formatTTL and parseTTL, in nanoseconds
  pub format_ttl : Bool → ℕ → Text
  pub parse_ttl : Text → ℕ

-- CookieConfig; the ttl in nanoseconds
pub record CookieConfig : Type 0 where
  pub secret : Text
  pub ttl : ℕ
  pub wire_compat : Bool

-- What is set on the response.
pub data SetCookie : Type 0 where
  issued : Text → ℕ → SetCookie
  deleted : SetCookie

-- The results of validateCookie: valid with the delete paths; neither valid nor tampered; tampered.
pub data Verdict : Type 0 where
  valid : List Text → Verdict
  stale : Verdict
  tampered : Verdict

-- matchesAny
unfoldable pub matches_any : Text → List Text → Bool
matches_any path paths = contains paths path

abbrev pub ms : ℕ
ms = 1000000

-- more time than the ttl has passed; `now` in nanoseconds
abbrev pub is_expired : ℕ → ℕ → ℕ → Bool
is_expired now ttl ts = ltb 0 ttl && ltb ttl (now - ts * ms)

module _ (k : Codec) (cfg : CookieConfig) where
  abbrev pub payload : ℕ → Text → UnsignedGatewayCookie
  payload now backend = record {
    backend = some backend;
    delete_paths = codes "/logout" ∷ codes "/oauth2/logout" ∷ [];
    name = cookie_name;
    payload = none;
    priority = 0;
    routing_paths = codes "/oauth2" ∷ codes "/logout" ∷ codes "/oauth2/logout" ∷ [];
    ts = now / ms;
    ttl = k.format_ttl cfg.wire_compat cfg.ttl;
  }

  -- the value of issueCookie
  unfoldable pub issue_value : ℕ → Text → Text
  issue_value now backend = k.encode cfg.wire_compat (record {
    unsigned = payload now backend;
    signature = k.mac cfg.secret (payload now backend);
  })

  unfoldable pub issue_cookie : ℕ → Text → SetCookie
  issue_cookie now backend = issued (issue_value now backend) (cfg.ttl / ms / 1000)

  abbrev check_ttl : ℕ → GatewayCookie → Verdict
  check_ttl now gc =
      if is_expired now (k.parse_ttl gc.unsigned.ttl) gc.unsigned.ts
      then stale
      else valid gc.unsigned.delete_paths

  unfoldable pub validate_cookie : ℕ → Text → Verdict
  validate_cookie now value = elim (k.decode cfg.wire_compat value) [
    | none ↦ tampered
    | some gc ↦
        if text_eq (k.mac cfg.secret gc.unsigned) gc.signature then check_ttl now gc else tampered
  ]

  abbrev pub apply_verdict : Text → Verdict → Bool × Option SetCookie
  apply_verdict path (valid paths) =
      if matches_any path paths then (true, some deleted) else (true, none)
  apply_verdict path stale = (true, some deleted)
  apply_verdict path tampered = (false, none)

  -- applyCookies: whether the response may go on, and what is set on it
  unfoldable pub apply_cookies : ℕ → Inbound → Text → Bool × Option SetCookie
  apply_cookies now r backend = if is_empty cfg.secret then (true, none) else elim r.cookie [
    | some value ↦ apply_verdict r.path (validate_cookie now value)
    | none ↦
        if has_prefix r.path (codes "/oauth2")
        then (true, some (issue_cookie now backend))
        else (true, none)
  ]
