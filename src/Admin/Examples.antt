-- ===== src/Admin/Examples.antt =====
-- Requests to the admin API of internal/admin.
use trino_goway.Base.{
  ℕ, ◌≡◌, refl, ◌⊎◌, inl, inr, Bool, true, false, Option, none, some, List, [], ◌∷◌, arith,
  if◌then◌else◌, Text, codes, text_eq, Bool-cases, All, Any, pos, map,
}
use trino_goway.Auth.Roles.{Principal, has_role}
use trino_goway.Auth.Gate.{Decision, allowed}
use trino_goway.Auth.Login.{ok, err, nonce_mismatch}
use trino_goway.Store.History.{QueryRecord, columns, scanned, find_by_filter}
use trino_goway.Admin.Wire.{ProxyBackend, FindQueryHistoryRequest, Request, World, Outside, Config}
use trino_goway.Admin.Queries.{is_admin, history_shown, distribution_shown, rows_of}
use trino_goway.Admin.Queries.Scope.{own_queries}
use trino_goway.Admin.Webapp.{search}
use trino_goway.Admin.Session.{WebLogin, handle_sso, handle_oidc_callback, oidc_state_cookie}
use trino_goway.Admin.Session.Handshake.{first_value}
use trino_goway.Admin.Serve.SignIn.{sign_in}
use trino_goway.Admin.Routes.{
  Endpoint, webapp_save, sso, oidc_callback, authenticated, routes, Route,
}
use trino_goway.Admin.Serve.{Services, missing, handle, serve}
use trino_goway.Admin.Serve.Guarded.{IsEntitled, changes_guarded}
use trino_goway.Admin.Serve.Effects.{IsEffected, command_of, write_effect}

abbrev admin : Principal
admin = record { name = codes "root"; member_of = codes "admins" }

abbrev eve : Principal
eve = record { name = codes "eve"; member_of = codes "users" }

abbrev cfg : Config
cfg = record {
  driver = codes "postgres";
  auth_type = codes "OIDC";
  authorization = record {
    admin_regex = codes "admins";
    user_regex = codes "users";
    api_regex = codes "apis";
    page_permissions = [];
  };
  has_status_mut = true;
  stats = none;
  disable_pages = [];
}

-- a pattern matches the text that it is
abbrev match : Text → Text → Option Bool
match pattern s = some (text_eq pattern s)

abbrev answering : Outside
answering = record {
  backends_answer = true;
  count_answers = true;
  select_answers = true;
  group_answers = true;
  sql = record { same_text = text_eq; rank = λ row. 0 };
  now = 100;
}

abbrev posted : ProxyBackend
posted = record {
  name = codes "a";
  proxy_to = codes "http://a";
  external_url = [];
  active = true;
  routing_group = codes "adhoc";
}

abbrev login : WebLogin
login = record {
  auth_code_url = λ state second. state;
  exchange =
      λ code second. if text_eq second (codes "n") then ok (codes "tok") else err nonce_mismatch;
}

abbrev services : Services
services = record {
  match = match;
  decode_backend = λ body. some posted;
  decode_find = λ body. none;
  decode_hours = λ body. none;
  decode_login = λ body. none;
  web_login = some login;
  first_token = some (codes "s");
  second_token = some (codes "n");
  ready = true;
  has_bundle = false;
  read_file = λ name. none;
  open_file = λ name. missing;
  clean = λ s. s;
  join = λ a b. b;
}

abbrev record_of : Text → Text → ℕ → QueryRecord
record_of id user time = record {
  query_id = id;
  backend_url = codes "http://a";
  external_url = [];
  user_name = user;
  source = [];
  routing_group = [];
  query_text = [];
  created_at = time;
}

abbrev world : World
world = record {
  backends = [];
  history =
      map columns
        (record_of (codes "q1") (codes "eve") 3 ∷ record_of (codes "q2") (codes "root") 5 ∷ []);
  statuses = [];
}

abbrev request : Request
request = record {
  param = [];
  query = λ name. if text_eq name (codes "code") then codes "c" else codes "s";
  cookie = λ name. some (codes "s:n");
  headers = [];
  is_tls = false;
  body = some (codes "{}");
  principal = none;
}

write_effect_example :
    IsEffected services cfg answering webapp_save
      (command_of services cfg answering webapp_save request)
      world
      (handle services cfg answering webapp_save request world)
unfolding trino_goway.Admin.Serve.Guarded.writes
write_effect_example = write_effect services cfg answering webapp_save request world refl

-- every request is for the route that saves a backend
abbrev is_save : Endpoint → Bool
is_save webapp_save = true
is_save _ = false

abbrev first_save : List Route → Option (Route × Text)
first_save [] = none
first_save (r ∷ rs) = let rest = first_save rs in if is_save r.endpoint then some (r, []) else rest

abbrev resolve : List Route → Text → Text → Option (Route × Text)
resolve rs method path = first_save rs

abbrev auth_mw : Option (Request → Decision)
auth_mw = some (λ r. allowed false (codes "oidc") admin)

first_save_sound :
    (rs : List Route) (route : Route) (param : Text)
    → first_save rs ≡ some (route, param)
    → Any (λ x. x ≡ route) rs
first_save_sound [] route param e = ground arith
first_save_sound (r ∷ rs) route param e = elim (Bool-cases (is_save r.endpoint)) [
  | inl y ↦ inl (ground arith)
  | inr n ↦ inr (first_save_sound rs route param (ground arith))
]

changes_guarded_example :
    ((serve services cfg answering resolve auth_mw
        (codes "POST")
        (codes "/webapp/saveBackend")
        request
        world).1
      ≡ world)
    ⊎ ((param : Text) × IsEntitled services cfg answering auth_mw
          (record request { param = param }))
changes_guarded_example =
    changes_guarded services cfg answering resolve auth_mw (codes "POST")
      (codes "/webapp/saveBackend") request world first_save_sound

abbrev asked : FindQueryHistoryRequest
asked = record {
  user_name = codes "root";
  backend_url = [];
  query_id = [];
  source = [];
  page = pos 1;
  page_size = pos 10;
}

abbrev own : List QueryRecord
own = map scanned (columns (record_of (codes "q1") (codes "eve") 3) ∷ [])

eve_is_no_admin : is_admin match cfg answering (some eve) ≡ false
unfolding is_admin has_role text_eq
eve_is_no_admin = refl

own_shown : history_shown match cfg answering (some eve) world ≡ some own
unfolding history_shown has_role text_eq find_by_filter
own_shown = refl

own_counted : distribution_shown match cfg answering (some eve) world ≡ some own
unfolding distribution_shown find_by_filter has_role text_eq
own_counted = refl

own_searched : rows_of (search match cfg answering (some eve) asked world) ≡ some own
unfolding search find_by_filter has_role text_eq
own_searched = refl

own_queries_example :
    All (λ q. answering.sql.same_text q.user_name eve.name ≡ true) own
    × All (λ q. answering.sql.same_text q.user_name eve.name ≡ true) own
    × All (λ q. answering.sql.same_text q.user_name eve.name ≡ true) own
own_queries_example =
    own_queries match cfg answering eve world asked own own own eve_is_no_admin refl own_shown
      own_counted own_searched

-- a path is found by its pattern
abbrev by_pattern : List Route → Text → Text → Option (Route × Text)
by_pattern [] method path = none
by_pattern (r ∷ rs) method path =
    let rest = by_pattern rs method path in if text_eq r.pattern path then some (r, []) else rest

by_pattern_sound :
    (rs : List Route) (method path : Text) (route : Route) (param : Text)
    → by_pattern rs method path ≡ some (route, param)
    → Any (λ x. x ≡ route) rs
by_pattern_sound [] method path route param e = ground arith
by_pattern_sound (r ∷ rs) method path route param e = elim (Bool-cases (text_eq r.pattern path)) [
  | inl y ↦ inl (ground arith)
  | inr n ↦ inr (by_pattern_sound rs method path route param (ground arith))
]

abbrev sso_route : Route
sso_route = record {
  access = authenticated;
  method = codes "POST";
  pattern = codes "/sso";
  endpoint = sso;
}

abbrev callback_route : Route
callback_route = record {
  access = authenticated;
  method = codes "GET";
  pattern = codes "/oidc/callback";
  endpoint = oidc_callback;
}

sso_found : by_pattern routes (codes "POST") (codes "/sso") ≡ some (sso_route, [])
unfolding routes text_eq
sso_found = refl

callback_found :
    by_pattern routes (codes "GET") (codes "/oidc/callback") ≡ some (callback_route, [])
unfolding routes text_eq
callback_found = refl

cookie_given :
    request.cookie oidc_state_cookie
    ≡ first_value
        (serve services cfg answering by_pattern auth_mw
          (codes "POST")
          (codes "/sso")
          request
          world).0.cookies
unfolding serve handle handle_sso routes text_eq trino_goway.Admin.Serve.dispatched
cookie_given = refl

sign_in_example :
    let res =
      (serve services cfg answering by_pattern auth_mw
        (codes "GET")
        (codes "/oidc/callback")
        request
        world).0 in
    (res.status ≡ 303)
    × (res.location ≡ codes "/trino-gateway")
    × Any (λ c. (c.name ≡ codes "token") × (c.value ≡ codes "tok")) res.cookies
unfolding text_eq trino_goway.Admin.Session.Handshake.has_colon
sign_in_example =
    sign_in services cfg answering by_pattern by_pattern_sound auth_mw (codes "POST") (codes "/sso")
      (codes "GET") (codes "/oidc/callback") request request world world sso_route callback_route []
      [] login (codes "s") (codes "n") (codes "tok") sso_found refl callback_found refl
      (admin, refl) (admin, refl) refl refl refl refl refl refl refl cookie_given refl refl refl
