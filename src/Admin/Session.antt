-- ===== src/Admin/Session.antt =====
-- The handlers of internal/admin/authhandlers.go and health.go, and the static ones of router.go.
pub mod Handshake
use trino_goway.Base.{
  ℕ, Bool, true, false, ◌||◌, ◌==◌, Option, none, some, List, [], ◌∷◌, ◌++◌, if◌then◌else◌, Text,
  codes, is_empty, text_eq, to_lower,
}
use trino_goway.Http.{header_get}
use trino_goway.Auth.Roles.{
  Principal, has_role, role_admin, role_user, role_api, resolve_page_permissions,
}
use trino_goway.Auth.Login.{Result, ok, err}
use trino_goway.Admin.Wire.{
  UserinfoResponse, token, string, userinfo, null, plain, empty, result_ok, result_err, NewCookie,
  Response, respond, Request, Config, decode_json,
}
use trino_goway.Admin.Webapp.{fail}

-- handleLoginType
unfoldable pub login_type : Text → Text
login_type type =
    if text_eq type (codes "OIDC")
    then codes "oauth"
    else if text_eq type (codes "LDAP")
    then codes "form"
    else codes "none"

unfoldable pub handle_login_type : Config → Response
unfolding login_type
handle_login_type cfg = respond 200 (result_ok (string (login_type cfg.auth_type)))

-- handleLogin; the body decodes to the user name
unfoldable pub handle_login : (Text → Option Text) → Config → Request → Response
unfolding decode_json
handle_login decode cfg r = elim (decode_json decode r.body) [
  | none ↦ fail (codes "bad request")
  | some username ↦
      if text_eq cfg.auth_type (codes "NOOP") || is_empty cfg.auth_type
      then respond 200 (result_ok (token username))
      else fail (codes "login not implemented for auth type: " ++ cfg.auth_type)
]

-- handleLogout
abbrev pub handle_logout : Response
handle_logout = respond 200 (result_ok null)

-- requestIsHTTPS
unfoldable pub request_is_https : Request → Bool
request_is_https r =
    r.is_tls
    || text_eq (to_lower (header_get (codes "X-Forwarded-Proto") r.headers)) (codes "https")

abbrev pub oidc_state_cookie : Text
oidc_state_cookie = codes "trino-gateway-oidc"

abbrev pub callback_path : Text
callback_path = codes "/oidc/callback"

-- What the handlers use of the login: `none` when there is none. The random tokens come from outside.
pub record WebLogin : Type 0 where
  pub auth_code_url : Text → Text → Text
  pub exchange : Text → Text → Result Text

-- an age of 0 deletes the cookie
abbrev pub state_cookie : Request → Text → ℕ → NewCookie
state_cookie r value max_age = record {
  name = oidc_state_cookie;
  value = value;
  path = callback_path;
  max_age = max_age;
  http_only = true;
  secure = request_is_https r;
}

abbrev begun : Request → WebLogin → Text → Text → Response
begun r login state nonce =
    record (respond 200 (result_ok (string (login.auth_code_url state nonce)))) {
      cookies = state_cookie r (state ++ b':' ∷ nonce) 900 ∷ [];
    }

abbrev with_tokens : Request → WebLogin → Option Text → Option Text → Response
with_tokens r login none second = fail (codes "internal error")
with_tokens r login (some state) none = fail (codes "internal error")
with_tokens r login (some state) (some nonce) = begun r login state nonce

-- handleSSO
unfoldable pub handle_sso :
    Config → Option WebLogin → Option Text → Option Text → Request → Response
unfolding request_is_https
handle_sso cfg none first second r = fail (codes "SSO not configured")
handle_sso cfg (some login) first second r =
    if text_eq cfg.auth_type (codes "OIDC")
    then with_tokens r login first second
    else fail (codes "SSO not configured")

-- strings.Cut at a colon
unfoldable pub cut_colon : Text → Option (Text × Text)
cut_colon [] = none
cut_colon (c ∷ s) =
    let rest = cut_colon s in
    if c == b':' then some ([], s) else elim rest [ none ↦ none | some (a, b) ↦ some (c ∷ a, b) ]

abbrev both_there : Option (Text × Text) → Option (Text × Text)
both_there none = none
both_there (some (state, nonce)) =
    if is_empty state || is_empty nonce then none else some (state, nonce)

-- readOIDCStateCookie
unfoldable pub read_oidc_state_cookie : Request → Option (Text × Text)
unfolding cut_colon
read_oidc_state_cookie r = elim (r.cookie oidc_state_cookie) [
  | none ↦ none
  | some value ↦ both_there (cut_colon value)
]

abbrev pub logged_in : Request → Result Text → Response
logged_in r (err e) = respond 401 (plain (codes "login failed"))
logged_in r (ok id_token) = record (respond 303 empty) {
  cookies =
      state_cookie r [] 0
      ∷ record {
        name = codes "token";
        value = id_token;
        path = codes "/";
        max_age = 86400;
        http_only = false;
        secure = request_is_https r;
      }
      ∷ [];
  location = codes "/trino-gateway";
}

abbrev with_state : Request → WebLogin → Text → Option (Text × Text) → Response
with_state r login code none = respond 400 (plain (codes "missing or malformed login state"))
with_state r login code (some (state, nonce)) =
    if text_eq (r.query (codes "state")) state
    then logged_in r (login.exchange code nonce)
    else respond 400 (plain (codes "state mismatch"))

-- handleOIDCCallback
unfoldable pub handle_oidc_callback : Config → Option WebLogin → Request → Response
unfolding request_is_https read_oidc_state_cookie
handle_oidc_callback cfg none r = respond 500 (plain (codes "OIDC not configured"))
handle_oidc_callback cfg (some login) r =
    if text_eq cfg.auth_type (codes "OIDC")
    then if is_empty (r.query (codes "code"))
      then respond 400 (plain (codes "missing authorization code"))
      else with_state r login (r.query (codes "code")) (read_oidc_state_cookie r)
    else respond 500 (plain (codes "OIDC not configured"))

abbrev add_role : Bool → Text → List Text → List Text
add_role held role roles = if held then role ∷ roles else roles

module _ (match : Text → Text → Option Bool) (cfg : Config) where
  -- the roles of handleUserinfo
  unfoldable pub roles_of : Principal → List Text
  roles_of p = add_role (has_role match (some p) role_admin cfg.authorization) role_admin (
      add_role (has_role match (some p) role_user cfg.authorization) role_user
        (add_role (has_role match (some p) role_api cfg.authorization) role_api []))

  unfoldable pub info_of : Option Principal → UserinfoResponse
  unfolding roles_of
  info_of none = record { user_id = []; user_name = []; roles = []; permissions = [] }
  info_of (some p) = record {
    user_id = p.name;
    user_name = p.name;
    roles = roles_of p;
    permissions = resolve_page_permissions (roles_of p) cfg.authorization.page_permissions;
  }

  -- handleUserinfo
  unfoldable pub handle_userinfo : Request → Response
  unfolding info_of
  handle_userinfo r = respond 200 (result_ok (userinfo (info_of r.principal)))

-- handleLivez
abbrev pub handle_livez : Response
handle_livez = respond 200 (plain (codes "ok"))

-- handleReadyz; the flag is what SetReady sets
abbrev pub handle_readyz : Bool → Response
handle_readyz ready =
    if ready then respond 200 (plain (codes "ok")) else respond 503 (plain (codes "not ready"))
