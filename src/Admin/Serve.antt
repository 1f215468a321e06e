-- ===== src/Admin/Serve.antt =====
-- What internal/admin/router.go puts behind the routes and in front of them: the handlers, and the
-- middlewares of the groups. The matching of a path with the patterns is chi's, a parameter.
pub mod Guarded
pub mod Effects
pub mod SignIn
use trino_goway.Base.{
  ℕ, Bool, true, false, Option, none, some, List, [], ◌∷◌, ◌++◌, if◌then◌else◌, Text, codes, ℤ,
  drop, has_prefix,
}
use trino_goway.Http.{Header}
use trino_goway.Auth.Roles.{Principal, Authorization, has_role, role_admin, role_user, role_api}
use trino_goway.Auth.Gate.{Verdict, unauthorized, allow, Decision, require_role}
use trino_goway.Admin.Routes.{
  Endpoint, livez, readyz, index, logo, assets, public_backends, public_backend,
  public_backend_state, sso, oidc_callback, login, logout, login_type, ping, all_backends,
  active_backends, activate, deactivate, add, update, remove, entity_types, entity_upsert, entities,
  userinfo, history, active_legacy, history_distribution, webapp_all, webapp_find,
  webapp_distribution, webapp_ui, webapp_rules, webapp_update_rules, webapp_save, webapp_update,
  webapp_delete, Access, public, authenticated, role, Route, routes,
}
use trino_goway.Admin.Wire.{
  ProxyBackend, FindQueryHistoryRequest, Response, respond, Payload, plain, empty, Request, World,
  Outside, Config,
}
use trino_goway.Admin.Backends.{
  not_found, list_public_backends, list_all_backends, list_active_backends, legacy_active_backends,
  get_public_backend, get_public_backend_state, handle_gateway_ping, activate_backend,
  deactivate_backend, delete_backend, list_entity_types, list_entities, add_backend, update_backend,
  upsert_entity,
}
use trino_goway.Admin.Queries.{query_history, query_history_distribution}
use trino_goway.Admin.Webapp.{
  webapp_get_all_backends, webapp_find_query_history, webapp_get_distribution, webapp_get_ui_config,
  webapp_get_routing_rules, webapp_update_routing_rules, webapp_save_backend, webapp_update_backend,
  webapp_delete_backend,
}
use trino_goway.Admin.Session.{
  WebLogin, handle_login_type, handle_login, handle_logout, handle_sso, handle_oidc_callback,
  handle_userinfo, handle_livez, handle_readyz,
}

-- a file of the UI bundle that was opened
pub data Opened : Type 0 where
  missing directory unseekable : Opened
  file : Text → Opened

-- What is not in the repository, and the state of the process: the matcher of roles, the decoders of
-- bodies, the login with its random tokens, and the UI bundle.
pub record Services : Type 0 where
  pub match : Text → Text → Option Bool
  pub decode_backend : Text → Option ProxyBackend
  pub decode_find : Text → Option FindQueryHistoryRequest
  pub decode_hours : Text → Option ℤ
  pub decode_login : Text → Option Text
  pub web_login : Option WebLogin
  pub first_token : Option Text
  pub second_token : Option Text
  pub ready : Bool
  pub has_bundle : Bool
  pub read_file : Text → Option Text
  pub open_file : Text → Opened
  pub clean : Text → Text
  pub join : Text → Text → Text

abbrev file_or : Text → Option Text → Response
file_or placeholder none = respond 200 (plain placeholder)
file_or placeholder (some content) = respond 200 (plain content)

-- serveIndex and serveLogoSVG, with readUIFile
unfoldable pub serve_file : Services → Text → Text → Response
serve_file s name placeholder =
    file_or placeholder (if s.has_bundle then s.read_file name else none)

abbrev asset : Opened → Response
asset missing = not_found
asset directory = not_found
asset unseekable = respond 500 (plain (codes "internal server error"))
asset (file content) = respond 200 (plain content)

abbrev trim_slash : Text → Text
trim_slash name = if has_prefix name (codes "/") then drop 1 name else name

-- serveAssets
unfoldable pub serve_assets : Services → Text → Response
serve_assets s rest =
    if s.has_bundle
    then asset (s.open_file (trim_slash (s.join (codes "assets") (s.clean (codes "/" ++ rest)))))
    else not_found

module _ (s : Services) (cfg : Config) (io : Outside) where
  -- the handler of a route
  unfoldable pub handle : Endpoint → Request → World → Response × World
  unfolding serve_file serve_assets
  handle livez r w = (handle_livez, w)
  handle readyz r w = (handle_readyz s.ready, w)
  handle index r w = (
    serve_file s (codes "index.html")
        (codes "<!DOCTYPE html><html><body>Trino Gateway</body></html>"),
    w,
  )
  handle logo r w =
      (serve_file s (codes "logo.svg") (codes "<svg xmlns=\"http://www.w3.org/2000/svg\"/>"), w)
  handle assets r w = (serve_assets s r.param, w)
  handle public_backends r w = (list_public_backends io w, w)
  handle public_backend r w = (get_public_backend io r w, w)
  handle public_backend_state r w = (get_public_backend_state cfg io r w, w)
  handle sso r w = (handle_sso cfg s.web_login s.first_token s.second_token r, w)
  handle oidc_callback r w = (handle_oidc_callback cfg s.web_login r, w)
  handle login r w = (handle_login s.decode_login cfg r, w)
  handle logout r w = (handle_logout, w)
  handle login_type r w = (handle_login_type cfg, w)
  handle ping r w = (handle_gateway_ping, w)
  handle all_backends r w = (list_all_backends io w, w)
  handle active_backends r w = (list_active_backends io w, w)
  handle activate r w = activate_backend io r w
  handle deactivate r w = deactivate_backend io r w
  handle add r w = add_backend s.decode_backend cfg io r w
  handle update r w = update_backend s.decode_backend cfg io r w
  handle remove r w = delete_backend io r w
  handle entity_types r w = (list_entity_types, w)
  handle entity_upsert r w = upsert_entity s.decode_backend cfg io r w
  handle entities r w = (list_entities io r w, w)
  handle userinfo r w = (handle_userinfo s.match cfg r, w)
  handle history r w = (query_history s.match cfg io r w, w)
  handle active_legacy r w = (legacy_active_backends io w, w)
  handle history_distribution r w = (query_history_distribution s.match cfg io r w, w)
  handle webapp_all r w = (webapp_get_all_backends cfg io w, w)
  handle webapp_find r w = (webapp_find_query_history s.match cfg io s.decode_find r w, w)
  handle webapp_distribution r w = (webapp_get_distribution s.decode_hours cfg io r w, w)
  handle webapp_ui r w = (webapp_get_ui_config cfg, w)
  handle webapp_rules r w = (webapp_get_routing_rules, w)
  handle webapp_update_rules r w = (webapp_update_routing_rules, w)
  handle webapp_save r w = webapp_save_backend s.decode_backend cfg io r w
  handle webapp_update r w = webapp_update_backend s.decode_backend cfg io r w
  handle webapp_delete r w = webapp_delete_backend s.decode_backend cfg io r w

  -- the principal that a group's middlewares put into the context, or their answer
  unfoldable pub admitted : Option Decision → Option Text × Option Principal
  admitted none = (none, none)
  admitted (some d) = elim d.verdict [
    | unauthorized msg ↦ (some msg, none)
    | allow p ↦ (none, some p)
  ]

  unfoldable pub run : Endpoint → Request → World → Option Principal → Response × World
  unfolding handle
  run e r w p = handle e (record r { principal = p }) w

  unfoldable pub after_auth :
      (Option Principal → Response × World)
      → World
      → Option Text × Option Principal
      → Response × World
  after_auth next w (some msg, p) = (respond 401 (plain msg), w)
  after_auth next w (none, p) = next p

  unfoldable pub with_role :
      (Option Principal → Response × World) → World → Text → Option Principal → Response × World
  with_role next w wanted p =
      if require_role s.match wanted cfg.authorization p
      then next p
      else (respond 403 (plain (codes "{\"error\":\"forbidden\"}")), w)

  -- A handler behind the middlewares of its group. The authenticator may be absent; then the context
  -- has no principal.
  unfoldable pub guarded :
      Option (Request → Decision) → Access → Endpoint → Request → World → Response × World
  unfolding admitted run after_auth with_role require_role
  guarded auth_mw public e r w = run e r w none
  guarded none authenticated e r w = run e r w none
  guarded (some m) authenticated e r w = after_auth (run e r w) w (admitted (some (m r)))
  guarded none (role wanted) e r w = with_role (run e r w) w wanted none
  guarded (some m) (role wanted) e r w =
      after_auth (with_role (run e r w) w wanted) w (admitted (some (m r)))

  -- what the router does with the route that it found, and the URL parameter
  unfoldable pub dispatched :
      Option (Request → Decision) → Request → World → Option (Route × Text) → Response × World
  unfolding guarded
  dispatched auth_mw r w none = (not_found, w)
  dispatched auth_mw r w (some (route, param)) =
      guarded auth_mw route.access route.endpoint (record r { param = param }) w

  -- ServeHTTP; `resolve` finds the route of a method and a path, and the URL parameter
  unfoldable pub serve :
      (List Route → Text → Text → Option (Route × Text))
      → Option (Request → Decision)
      → Text
      → Text
      → Request
      → World
      → Response × World
  serve resolve auth_mw method path r w = dispatched auth_mw r w (resolve routes method path)
