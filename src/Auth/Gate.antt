-- ===== src/Auth/Gate.antt =====
-- The authenticators: Noop of internal/auth/noop.go, the LDAP one of internal/auth/ldap.go, the handler
-- of internal/auth/oidc.go, and RequireRole of internal/auth/roles.go. Each says what is done with a
-- request: it is answered with 401 and a message, or handed on with a principal.
pub mod Allow
use trino_goway.Base.{
  Bool, true, false, ◌||◌, Option, none, some, List, [], ◌∷◌, ◌++◌, if◌then◌else◌, Text, codes,
  is_empty, has_prefix, drop,
}
use trino_goway.Dict.{lookup}
use trino_goway.Http.{Header, header_get}
use trino_goway.Auth.Roles.{Principal, Authorization, has_role}

pub data Verdict : Type 0 where
  unauthorized : Text → Verdict
  allow : Principal → Verdict

-- with the calls of Metrics.AuthRequest: the type and the result
pub record Decision : Type 0 where
  pub verdict : Verdict
  pub recorded : List (Text × Text)

-- orNoop: nothing is recorded without a recorder
abbrev pub auth_request : Bool → Text → Text → List (Text × Text)
auth_request has_metrics type result = if has_metrics then (type, result) ∷ [] else []

abbrev pub allow_text : Text
allow_text = codes "allow"

abbrev pub deny_text : Text
deny_text = codes "deny"

abbrev pub denied : Bool → Text → Text → Decision
denied has_metrics type msg = record {
  verdict = unauthorized msg;
  recorded = auth_request has_metrics type deny_text;
}

abbrev pub allowed : Bool → Text → Principal → Decision
allowed has_metrics type p = record {
  verdict = allow p;
  recorded = auth_request has_metrics type allow_text;
}

-- Noop
unfoldable pub noop : Bool → Header → Decision
noop has_metrics h =
    allowed has_metrics (codes "noop") (record { name = codes "anonymous"; member_of = [] })

-- What the source uses of the LDAP client: a call gives `none` for an error, and a bind a connection
-- that is bound.
pub record Entry : Type 0 where
  pub dn : Text
  pub member_of : Text

pub record Directory (C : Type 0) : Type 0 where
  pub dial : Text → Option C
  pub bind : C → Text → Text → Option C
  pub search : C → Text → Text → Option (List Entry)
  pub escape_filter : Text → Text

-- config.LDAPConfig
pub record LdapConfig : Type 0 where
  pub url : Text
  pub bind_dn : Text
  pub bind_pass : Text
  pub user_base : Text
  pub user_attr : Text

module _ {C : Type 0} (d : Directory C) (cfg : LdapConfig) where
  -- the connection, after the bind of the service account
  unfoldable pub service_connection : Option C
  service_connection = elim (d.dial cfg.url) [
    | none ↦ none
    | some c ↦ if is_empty cfg.bind_dn then some c else d.bind c cfg.bind_dn cfg.bind_pass
  ]

  abbrev pub user_filter : Text → Text
  user_filter username =
      codes "("
      ++ (if is_empty cfg.user_attr then codes "uid" else cfg.user_attr)
      ++ codes "="
      ++ d.escape_filter username
      ++ codes ")"

  abbrev pub member_of_bound : Entry → Option C → Option Text
  member_of_bound e none = none
  member_of_bound e (some c) = some e.member_of

  abbrev pub bind_first : C → Text → Option (List Entry) → Option Text
  bind_first c password none = none
  bind_first c password (some []) = none
  bind_first c password (some (e ∷ es)) = member_of_bound e (d.bind c e.dn password)

  -- LDAPMiddleware.authenticate
  unfoldable pub authenticate : Text → Text → Option Text
  unfolding service_connection
  authenticate username password = elim service_connection [
    | none ↦ none
    | some c ↦ bind_first c password (d.search c cfg.user_base (user_filter username))
  ]

  abbrev pub bound : Bool → Text → Option Text → Decision
  bound has_metrics username none = denied has_metrics (codes "ldap") (codes "invalid credentials")
  bound has_metrics username (some member_of) =
      allowed has_metrics (codes "ldap") (record { name = username; member_of = member_of })

  -- LDAPMiddleware.Handler; the second argument is what r.BasicAuth reads in the request
  unfoldable pub ldap : Bool → Option (Text × Text) → Decision
  unfolding authenticate
  ldap has_metrics none = denied has_metrics (codes "ldap") (codes "Basic auth required")
  ldap has_metrics (some (username, password)) =
      if is_empty username || is_empty password
      then denied has_metrics (codes "ldap") (codes "Basic auth required")
      else bound has_metrics username (authenticate username password)

-- a claim of a token, as encoding/json reads it
pub data Claim : Type 0 where
  text : Text → Claim
  items : List (Option Text) → Claim
  other : Claim

abbrev pub Claims : Type 0
Claims = List (Text × Claim)

-- strings.Join with a comma
unfoldable pub comma_joined : List Text → Text
comma_joined [] = []
comma_joined (s ∷ []) = s
comma_joined (s ∷ t ∷ l) = s ++ b',' ∷ comma_joined (t ∷ l)

unfoldable pub strings : List (Option Text) → List Text
strings [] = []
strings (none ∷ l) = strings l
strings (some s ∷ l) = s ∷ strings l

unfoldable pub claim_or : Text → Option Claim → Text
unfolding comma_joined strings
claim_or next none = next
claim_or next (some (text s)) = s
claim_or next (some (items l)) = comma_joined (strings l)
claim_or next (some other) = next

-- groupsClaim
unfoldable pub groups_claim : Claims → Text
unfolding claim_or
groups_claim claims =
    claim_or (claim_or [] (lookup (codes "memberOf") claims)) (lookup (codes "groups") claims)

-- bearerToken
unfoldable pub bearer_token : Header → Text
bearer_token h =
    let v = header_get (codes "Authorization") h in
    if has_prefix v (codes "Bearer ") then drop 7 v else []

-- `parse` is jwt.ParseWithClaims under a key set; `subject` is GetSubject, empty where it fails
module _ {K : Type 0} (parse : K → Text → Option Claims) (subject : Claims → Text) where
  unfoldable pub identity : Claims → Principal
  unfolding groups_claim
  identity claims = record { name = subject claims; member_of = groups_claim claims }

  abbrev pub parsed : Bool → Option Claims → Decision
  parsed has_metrics none = denied has_metrics (codes "oidc") (codes "invalid token")
  parsed has_metrics (some claims) = allowed has_metrics (codes "oidc") (identity claims)

  abbrev pub with_keys : Bool → Text → Option K → Decision
  with_keys has_metrics raw none = denied has_metrics (codes "oidc") (codes "JWKS not available")
  with_keys has_metrics raw (some keys) = parsed has_metrics (parse keys raw)

  -- OIDCMiddleware.Handler
  unfoldable pub oidc : Bool → Option K → Header → Decision
  unfolding bearer_token
  oidc has_metrics jwks h =
      let raw = bearer_token h in
      if is_empty raw
      then denied has_metrics (codes "oidc") (codes "missing Bearer token")
      else with_keys has_metrics raw jwks

-- RequireRole: whether the request is handed on; otherwise it is answered with 403
unfoldable pub require_role :
    (Text → Text → Option Bool) → Text → Authorization → Option Principal → Bool
require_role match role cfg p = has_role match p role cfg
