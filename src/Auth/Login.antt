-- ===== src/Auth/Login.antt =====
-- The web login of internal/auth/weblogin.go. The HTTP client, url.Values.Encode, JSON and the check of
-- a token's signature are parameters; a call of the client gives `none` when no answer comes, else the
-- status and the body, `none` for a body that cannot be read.
pub mod Exchanged
use trino_goway.Base.{
  ℕ, Bool, true, false, not, ◌&&◌, ◌||◌, ◌==◌, Option, none, some, List, [], ◌∷◌, ◌++◌,
  if◌then◌else◌, Text, codes, is_empty, text_eq, take,
}
use mathlib.Core.List.{reverse}
use trino_goway.Dict.{lookup}
use trino_goway.Auth.Gate.{Claim, text, Claims}

-- the fields of config.OIDCConfig that the login reads
pub record OidcConfig : Type 0 where
  pub issuer_url : Text
  pub client_id : Text
  pub client_secret : Text
  pub scopes : List Text
  pub redirect_url : Text
  pub authorization_endpoint : Text
  pub token_endpoint : Text

pub record DiscoveryDocument : Type 0 where
  pub authorization_endpoint : Text
  pub token_endpoint : Text

pub record TokenResponse : Type 0 where
  pub id_token : Text
  pub error : Text
  pub error_desc : Text

pub data LoginError : Type 0 where
  redirect_required client_required issuer_required endpoints_unresolved no_jwks : LoginError
  request_failed body_unreadable undecodable missing_id_token invalid_token nonce_mismatch :
      LoginError
  discovery_failed : ℕ → LoginError
  endpoint_failed : ℕ → Text → LoginError

pub data Result (A : Type 0) : Type 0 where
  ok : A → Result A
  err : LoginError → Result A

infixl 5 ◌>>=◌
abbrev pub ◌>>=◌ : {A B : Type 0} → Result A → (A → Result B) → Result B
ok a >>= f = f a
err e >>= f = err e

abbrev pub or_err : {A : Type 0} → Option A → LoginError → Result A
or_err none e = err e
or_err (some a) e = ok a

abbrev pub check : Bool → LoginError → Result (Unit {0})
check b e = if b then ok tt else err e

abbrev pub Answer : Type 0
Answer = Option (ℕ × Option Text)

-- io.LimitReader(resp.Body, 1<<20)
abbrev pub body_limit : ℕ
body_limit = 1048576

abbrev drop_slashes : Text → Text
drop_slashes [] = []
drop_slashes (c ∷ s) = if c == b'/' then drop_slashes s else c ∷ s

-- strings.TrimRight(s, "/")
unfoldable pub trim_slashes : Text → Text
trim_slashes s = reverse (drop_slashes (reverse s))

-- discover; `get` is the client, `decode` json.Unmarshal
unfoldable pub discover :
    (Text → Answer) → (Text → Option DiscoveryDocument) → Text → Result DiscoveryDocument
unfolding trim_slashes
discover get decode issuer_url = do
  _ ← check (not (is_empty issuer_url)) issuer_required
  (status, read) ←
      or_err (get (trim_slashes issuer_url ++ codes "/.well-known/openid-configuration"))
        request_failed
  _ ← check (status == 200) (discovery_failed status)
  body ← or_err read body_unreadable
  or_err (decode (take body_limit body)) undecodable

-- the endpoints of a login, and its key set
pub record WebLogin (K : Type 0) : Type 0 where
  pub cfg : OidcConfig
  pub authz_url : Text
  pub token_url : Text
  pub jwks : K

abbrev pub or_else : Text → Text → Text
or_else s t = if is_empty s then t else s

-- the endpoints that the configuration names, and what discovery adds
unfoldable pub endpoints : OidcConfig → Result DiscoveryDocument → Result (Text × Text)
endpoints cfg discovered =
    if is_empty cfg.authorization_endpoint || is_empty cfg.token_endpoint
    then discovered >>= (λ doc. ok (
      or_else cfg.authorization_endpoint doc.authorization_endpoint,
      or_else cfg.token_endpoint doc.token_endpoint,
    ))
    else ok (cfg.authorization_endpoint, cfg.token_endpoint)

-- NewOIDCWebLogin; `jwks` is what keyfunc.NewDefaultCtx gives
unfoldable pub new_web_login :
    {K : Type 0}
    → (Text → Answer)
    → (Text → Option DiscoveryDocument)
    → Option K
    → OidcConfig
    → Result (WebLogin K)
unfolding endpoints
new_web_login get decode jwks cfg = do
  _ ← check (not (is_empty cfg.redirect_url)) redirect_required
  _ ← check (not (is_empty cfg.client_id)) client_required
  (authz, token) ← endpoints cfg (discover get decode cfg.issuer_url)
  _ ← check (not (is_empty authz || is_empty token)) endpoints_unresolved
  k ← or_err jwks no_jwks
  ok (record { cfg = cfg; authz_url = authz; token_url = token; jwks = k })

-- strings.Join(scopes, " ")
unfoldable pub space_joined : List Text → Text
space_joined [] = []
space_joined (s ∷ []) = s
space_joined (s ∷ t ∷ l) = s ++ b' ' ∷ space_joined (t ∷ l)

abbrev openid_or : List Text → List Text
openid_or [] = codes "openid" ∷ []
openid_or (s ∷ l) = s ∷ l

unfoldable pub has_question : Text → Bool
has_question [] = false
has_question (c ∷ s) = c == b'?' || has_question s

-- AuthCodeURL
unfoldable pub auth_code_url :
    {K : Type 0} → (List (Text × Text) → Text) → WebLogin K → Text → Text → Text
unfolding space_joined has_question
auth_code_url encode w state nonce =
    w.authz_url
    ++ (if has_question w.authz_url then codes "&" else codes "?")
    ++ encode (
        (codes "response_type", codes "code")
        ∷ (codes "client_id", w.cfg.client_id)
        ∷ (codes "redirect_uri", w.cfg.redirect_url)
        ∷ (codes "scope", space_joined (openid_or w.cfg.scopes))
        ∷ (codes "state", state)
        ∷ (codes "nonce", nonce)
        ∷ [])

abbrev secret_field : Text → List (Text × Text)
secret_field s = if is_empty s then [] else (codes "client_secret", s) ∷ []

-- the form of Exchange
unfoldable pub token_form : OidcConfig → Text → List (Text × Text)
token_form cfg code =
    (codes "grant_type", codes "authorization_code")
    ∷ (codes "code", code)
    ∷ (codes "redirect_uri", cfg.redirect_url)
    ∷ (codes "client_id", cfg.client_id)
    ∷ secret_field cfg.client_secret

-- tokenResponse.errorMessage
unfoldable pub error_message : TokenResponse → Text
error_message t = if is_empty t.error_desc then t.error else t.error ++ codes ": " ++ t.error_desc

abbrev text_or_empty : Option Claim → Text
text_or_empty (some (text s)) = s
text_or_empty (some c) = []
text_or_empty none = []

unfoldable pub nonce_claim : Claims → Text
nonce_claim claims = text_or_empty (lookup (codes "nonce") claims)

module _ {K : Type 0} (parse : K → Text → Option Claims) where
  -- validateIDToken
  unfoldable pub validate_id_token : K → Text → Text → Result (Unit {0})
  unfolding nonce_claim
  validate_id_token jwks id_token nonce = do
    claims ← or_err (parse jwks id_token) invalid_token
    check (is_empty nonce || text_eq (nonce_claim claims) nonce) nonce_mismatch

  -- the first part of Exchange: the status and the decoded answer of the token endpoint
  unfoldable pub token_answer :
      (Text → List (Text × Text) → Answer)
      → (Text → Option TokenResponse)
      → WebLogin K
      → Text
      → Result (ℕ × TokenResponse)
  unfolding token_form
  token_answer post decode w code = do
    (status, read) ← or_err (post w.token_url (token_form w.cfg code)) request_failed
    body ← or_err read body_unreadable
    tr ← or_err (decode (take body_limit body)) undecodable
    ok (status, tr)

  -- Exchange; `post` is the client with the form, `decode` json.Unmarshal
  unfoldable pub exchange :
      (Text → List (Text × Text) → Answer)
      → (Text → Option TokenResponse)
      → WebLogin K
      → Text
      → Text
      → Result Text
  unfolding token_answer error_message validate_id_token
  exchange post decode w code nonce = do
    (status, tr) ← token_answer post decode w code
    _ ← check (status == 200 && is_empty tr.error) (endpoint_failed status (error_message tr))
    _ ← check (not (is_empty tr.id_token)) missing_id_token
    _ ← validate_id_token w.jwks tr.id_token nonce
    ok tr.id_token
