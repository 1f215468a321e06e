-- ===== src/Admin/Routes.antt =====
-- internal/admin/router.go: the routes of buildRouter with the groups that they are in. The redirect of
-- the root and the metrics are left out, for they touch nothing of the model.
use trino_goway.Base.{List, [], ◌∷◌, ◌++◌, Text, codes}
use trino_goway.Auth.Roles.{role_admin, role_user, role_api}

pub data Endpoint : Type 0 where
  livez readyz index logo assets : Endpoint
  public_backends public_backend public_backend_state : Endpoint
  sso oidc_callback login logout login_type : Endpoint
  ping all_backends active_backends activate deactivate add update remove : Endpoint
  entity_types entity_upsert entities : Endpoint
  userinfo history active_legacy history_distribution : Endpoint
  webapp_all webapp_find webapp_distribution webapp_ui : Endpoint
  webapp_rules webapp_update_rules webapp_save webapp_update webapp_delete : Endpoint

-- the group that a route is in: no middleware, the authenticator, or that and RequireRole
pub data Access : Type 0 where
  public authenticated : Access
  role : Text → Access

pub record Route : Type 0 where
  pub method : Text
  pub pattern : Text
  pub access : Access
  pub endpoint : Endpoint

abbrev get : Access → Text → Endpoint → Route
get a pattern e = record { method = codes "GET"; pattern = pattern; access = a; endpoint = e }

abbrev post : Access → Text → Endpoint → Route
post a pattern e = record { method = codes "POST"; pattern = pattern; access = a; endpoint = e }

unfoldable pub public_routes : List Route
public_routes =
    get public (codes "/trino-gateway/livez") livez
    ∷ get public (codes "/trino-gateway/readyz") readyz
    ∷ get public (codes "/trino-gateway") index
    ∷ get public (codes "/trino-gateway/logo.svg") logo
    ∷ get public (codes "/trino-gateway/assets/*") assets
    ∷ get public (codes "/api/public/backends") public_backends
    ∷ get public (codes "/api/public/backends/{name}") public_backend
    ∷ get public (codes "/api/public/backends/{name}/state") public_backend_state
    ∷ get public (codes "/trino-gateway/*") index
    ∷ []

unfoldable pub auth_routes : List Route
auth_routes =
    post authenticated (codes "/sso") sso
    ∷ get authenticated (codes "/oidc/callback") oidc_callback
    ∷ post authenticated (codes "/login") login
    ∷ post authenticated (codes "/logout") logout
    ∷ post authenticated (codes "/loginType") login_type
    ∷ []

unfoldable pub gateway_routes : List Route
gateway_routes =
    get (role role_api) (codes "/gateway") ping
    ∷ get (role role_api) (codes "/gateway/backend/all") all_backends
    ∷ get (role role_api) (codes "/gateway/backend/active") active_backends
    ∷ post (role role_api) (codes "/gateway/backend/activate/{name}") activate
    ∷ post (role role_api) (codes "/gateway/backend/deactivate/{name}") deactivate
    ∷ post (role role_api) (codes "/gateway/backend/modify/add") add
    ∷ post (role role_api) (codes "/gateway/backend/modify/update") update
    ∷ post (role role_api) (codes "/gateway/backend/modify/delete") remove
    ∷ []

unfoldable pub user_routes : List Route
user_routes =
    post (role role_user) (codes "/userinfo") userinfo
    ∷ get (role role_user) (codes "/trino-gateway/api/queryHistory") history
    ∷ get (role role_user) (codes "/trino-gateway/api/activeBackends") active_legacy
    ∷ get (role role_user) (codes "/trino-gateway/api/queryHistoryDistribution")
        history_distribution
    ∷ post (role role_user) (codes "/webapp/getAllBackends") webapp_all
    ∷ post (role role_user) (codes "/webapp/findQueryHistory") webapp_find
    ∷ post (role role_user) (codes "/webapp/getDistribution") webapp_distribution
    ∷ post (role role_user) (codes "/webapp/getUIConfiguration") webapp_ui
    ∷ []

unfoldable pub admin_routes : List Route
admin_routes =
    get (role role_admin) (codes "/entity") entity_types
    ∷ post (role role_admin) (codes "/entity") entity_upsert
    ∷ get (role role_admin) (codes "/entity/{entityType}") entities
    ∷ post (role role_admin) (codes "/webapp/getRoutingRules") webapp_rules
    ∷ post (role role_admin) (codes "/webapp/updateRoutingRules") webapp_update_rules
    ∷ post (role role_admin) (codes "/webapp/saveBackend") webapp_save
    ∷ post (role role_admin) (codes "/webapp/updateBackend") webapp_update
    ∷ post (role role_admin) (codes "/webapp/deleteBackend") webapp_delete
    ∷ []

-- buildRouter
unfoldable pub routes : List Route
unfolding public_routes auth_routes gateway_routes user_routes admin_routes
routes = public_routes ++ auth_routes ++ gateway_routes ++ user_routes ++ admin_routes
