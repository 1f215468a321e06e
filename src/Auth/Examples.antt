-- ===== src/Auth/Examples.antt =====
-- Runs of the authenticators, the key set and the web login of internal/auth.
use trino_goway.Base.{
  ℕ, ◌<◌, ◌≡◌, refl, true, false, not, ◌&&◌, Option, none, some, List, [], ◌∷◌, Text, codes,
  is_empty, text_eq, contains, has_prefix, IsDistinct, take, if◌then◌else◌,
}
use trino_goway.Dict.{lookup}
use trino_goway.Http.{
  Header, header_get, canonical_key, canonical_from, all_token_bytes, is_token_byte,
}
use trino_goway.Auth.Roles.{Principal, resolve_page_permissions}
use trino_goway.Auth.Roles.Pages.{resolved_pages, all_listed, grants}
use trino_goway.Auth.Gate.{
  Entry, Directory, LdapConfig, allow, Claims, text, items, ldap, oidc, bearer_token, identity,
}
use trino_goway.Auth.Gate.Allow.{IsBound, ldap_allows, oidc_allows}
use trino_goway.Auth.Keys.{Keys, Fetched, new_oidc, usable, refresh, ticks}
use trino_goway.Auth.Keys.Kept.{keys_kept, last_usable}
use trino_goway.Auth.Login.{
  OidcConfig, TokenResponse, WebLogin, Answer, ok, err, nonce_mismatch, exchange, token_form,
  body_limit,
}
use trino_goway.Auth.Login.Exchanged.{IsValid, exchange_ok}

abbrev permissions : List (Text × Text)
permissions =
    (codes "ADMIN", codes "dashboard_cluster__history")
    ∷ (codes "USER", codes "history_dashboard_resource")
    ∷ []

both_roles :
    resolve_page_permissions (codes "USER" ∷ codes "ADMIN" ∷ []) permissions
    ≡ codes "history" ∷ codes "dashboard" ∷ codes "resource" ∷ codes "cluster" ∷ []
unfolding resolve_page_permissions lookup text_eq contains
both_roles = refl

resolved_pages_example :
    IsDistinct (resolve_page_permissions (codes "USER" ∷ []) permissions)
    × ((p : Text)
        → contains (resolve_page_permissions (codes "USER" ∷ []) permissions) p ≡ (
            not (is_empty p)
            && (all_listed (codes "USER" ∷ []) permissions
                && grants (codes "USER" ∷ []) permissions p)))
resolved_pages_example = resolved_pages (codes "USER" ∷ []) permissions

abbrev entry : Entry
entry = record { dn = codes "uid=eve,dc=x"; member_of = codes "cn=admins" }

-- one user with one password
abbrev directory : Directory Text
directory = record {
  dial = λ url. some url;
  bind = λ c dn password. if text_eq password (codes "pw") then some dn else none;
  search =
      λ c base filter. if text_eq filter (codes "(uid=eve)") then some (entry ∷ []) else some [];
  escape_filter = λ s. s;
}

abbrev ldap_config : LdapConfig
ldap_config = record {
  url = codes "ldap://d";
  bind_dn = [];
  bind_pass = [];
  user_base = codes "dc=x";
  user_attr = codes "uid";
}

abbrev eve : Principal
eve = record { name = codes "eve"; member_of = codes "cn=admins" }

abbrev credentials : Option (Text × Text)
credentials = some (codes "eve", codes "pw")

eve_allowed : (ldap directory ldap_config true credentials).verdict ≡ allow eve
unfolding ldap text_eq
eve_allowed = refl

ldap_allows_example :
    (username : Text) × (password : Text) × (credentials ≡ some (username, password))
    × (is_empty username ≡ false)
    × (is_empty password ≡ false)
    × (eve.name ≡ username)
    × IsBound directory ldap_config username password eve.member_of
ldap_allows_example = ldap_allows directory ldap_config true credentials eve eve_allowed

-- the key set is a text, and a token parses when it is that text
abbrev claims : Claims
claims =
    (codes "groups", items (some (codes "a") ∷ none ∷ some (codes "b") ∷ []))
    ∷ (codes "nonce", text (codes "n"))
    ∷ []

abbrev parse : Text → Text → Option Claims
parse keys raw = if text_eq keys raw then some claims else none

abbrev subject : Claims → Text
subject cs = codes "eve"

abbrev bearer : Header
bearer = (codes "Authorization", codes "Bearer tok" ∷ []) ∷ []

abbrev grouped : Principal
grouped = record { name = codes "eve"; member_of = codes "a,b" }

bearer_allowed : (oidc parse subject false (some (codes "tok")) bearer).verdict ≡ allow grouped
unfolding oidc has_prefix header_get lookup text_eq canonical_key all_token_bytes is_token_byte
    canonical_from identity
bearer_allowed = refl

oidc_allows_example :
    (keys : Text) × (cs : Claims) × (some (codes "tok") ≡ some keys)
    × (is_empty (bearer_token bearer) ≡ false)
    × (parse keys (bearer_token bearer) ≡ some cs)
    × (grouped ≡ identity parse subject cs)
oidc_allows_example =
    oidc_allows parse subject false (some (codes "tok")) bearer grouped bearer_allowed

abbrev first_fetch : Fetched Text
first_fetch = some (codes "k1", some 2)

abbrev later_fetches : List (Fetched Text)
later_fetches =
    none ∷ some (codes "k2", some 1) ∷ some (codes "k3", some 0) ∷ some (codes "k4", none) ∷ []

abbrev authenticator : Keys Text
authenticator = refresh first_fetch (record { jwks = none; recorded = [] })

keys_kept_example :
    (k : Text) × (n : ℕ) × (usable first_fetch ≡ some (k, n))
    × (0 < n)
    × ((ticks authenticator later_fetches).jwks ≡ some (last_usable k later_fetches))
unfolding new_oidc
keys_kept_example = keys_kept first_fetch later_fetches authenticator refl

kept_second : (ticks authenticator later_fetches).jwks ≡ some (codes "k2")
unfolding ticks refresh
kept_second = refl

abbrev oidc_config : OidcConfig
oidc_config = record {
  issuer_url = [];
  client_id = codes "gw";
  client_secret = [];
  scopes = [];
  redirect_url = codes "https://gw/oidc/callback";
  authorization_endpoint = codes "https://idp/a";
  token_endpoint = codes "https://idp/t";
}

abbrev web_login : WebLogin Text
web_login = record {
  cfg = oidc_config;
  authz_url = codes "https://idp/a";
  token_url = codes "https://idp/t";
  jwks = codes "tok";
}

abbrev answer_ok : Text → List (Text × Text) → Answer
answer_ok url form = some (200, some (codes "body"))

abbrev decode_token : Text → Option TokenResponse
decode_token body = some (record { id_token = codes "tok"; error = []; error_desc = [] })

exchanged :
    exchange parse answer_ok decode_token web_login (codes "c") (codes "n") ≡ ok (codes "tok")
unfolding exchange text_eq lookup
exchanged = refl

wrong_nonce :
    exchange parse answer_ok decode_token web_login (codes "c") (codes "m") ≡ err nonce_mismatch
unfolding exchange text_eq lookup
wrong_nonce = refl

exchange_ok_example :
    (body : Text) × (tr : TokenResponse) × (answer_ok web_login.token_url
        (token_form web_login.cfg (codes "c"))
      ≡ some (200, some body))
    × (decode_token (take body_limit body) ≡ some tr)
    × (tr.id_token ≡ codes "tok")
    × (tr.error ≡ [])
    × (is_empty (codes "tok") ≡ false)
    × IsValid parse web_login.jwks (codes "tok") (codes "n")
exchange_ok_example =
    exchange_ok parse answer_ok decode_token web_login (codes "c") (codes "n") (codes "tok")
      exchanged
