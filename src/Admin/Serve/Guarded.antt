-- ===== src/Admin/Serve/Guarded.antt =====
-- Who can change the world of the admin API.
use trino_goway.Base.{
  ◌≡◌, refl, sym, Bool, true, false, not, ◌&&◌, ◌||◌, ◌⊎◌, inl, inr, Option, none, some, List, [],
  ◌∷◌, arith, Text, text_eq, text_eq_iff, Any, Bool-cases,
}
use trino_goway.Auth.Roles.{Principal, has_role, role_admin, role_api}
use trino_goway.Auth.Gate.{Verdict, unauthorized, allow, Decision, require_role}
use trino_goway.Admin.Routes.{
  Endpoint, activate, deactivate, add, update, remove, entity_upsert, webapp_save, webapp_update,
  webapp_delete, livez, readyz, index, logo, assets, public_backends, public_backend,
  public_backend_state, sso, oidc_callback, login, logout, login_type, ping, all_backends,
  active_backends, entity_types, entities, userinfo, history, active_legacy, history_distribution,
  webapp_all, webapp_find, webapp_distribution, webapp_ui, webapp_rules, webapp_update_rules,
  Access, public, authenticated, role, Route, routes,
}
use trino_goway.Admin.Wire.{Request, World, Outside, Config}
use trino_goway.Admin.Serve.{
  Services, handle, guarded, dispatched, serve, with_role, after_auth, admitted, run,
}

-- the endpoints that change the backends
unfoldable pub writes : Endpoint → Bool
writes activate = true
writes deactivate = true
writes add = true
writes update = true
writes remove = true
writes entity_upsert = true
writes webapp_save = true
writes webapp_update = true
writes webapp_delete = true
writes _ = false

abbrev is_protected : Access → Bool
is_protected public = false
is_protected authenticated = false
is_protected (role wanted) = text_eq wanted role_admin || text_eq wanted role_api

abbrev all_protected : List Route → Bool
all_protected [] = true
all_protected (r ∷ rs) = (not (writes r.endpoint) || is_protected r.access) && all_protected rs

routes_protected : all_protected routes ≡ true
unfolding routes writes text_eq
routes_protected = refl

protected_among :
    (rs : List Route) (r : Route)
    → all_protected rs ≡ true
    → Any (λ x. x ≡ r) rs
    → writes r.endpoint ≡ true
    → is_protected r.access ≡ true
protected_among [] r h a w = elim a [ ]
protected_among (x ∷ rs) r h (inl e) w = rw (sym e) (ground (arith, sym e))
protected_among (x ∷ rs) r h (inr a) w = protected_among rs r (ground arith) a w

Verdict-cases :
    (v : Verdict) → ((msg : Text) × (v ≡ unauthorized msg)) ⊎ ((p : Principal) × (v ≡ allow p))
Verdict-cases (unauthorized msg) = inl (msg, refl)
Verdict-cases (allow p) = inr (p, refl)

module _ (s : Services) (cfg : Config) (io : Outside) where
  handle_keeps :
      (e : Endpoint) (r : Request) (w : World) → writes e ≡ false → (handle s cfg io e r w).1 ≡ w
  unfolding handle writes
  handle_keeps livez r w h = refl
  handle_keeps readyz r w h = refl
  handle_keeps index r w h = refl
  handle_keeps logo r w h = refl
  handle_keeps assets r w h = refl
  handle_keeps public_backends r w h = refl
  handle_keeps public_backend r w h = refl
  handle_keeps public_backend_state r w h = refl
  handle_keeps sso r w h = refl
  handle_keeps oidc_callback r w h = refl
  handle_keeps login r w h = refl
  handle_keeps logout r w h = refl
  handle_keeps login_type r w h = refl
  handle_keeps ping r w h = refl
  handle_keeps all_backends r w h = refl
  handle_keeps active_backends r w h = refl
  handle_keeps entity_types r w h = refl
  handle_keeps entities r w h = refl
  handle_keeps userinfo r w h = refl
  handle_keeps history r w h = refl
  handle_keeps active_legacy r w h = refl
  handle_keeps history_distribution r w h = refl
  handle_keeps webapp_all r w h = refl
  handle_keeps webapp_find r w h = refl
  handle_keeps webapp_distribution r w h = refl
  handle_keeps webapp_ui r w h = refl
  handle_keeps webapp_rules r w h = refl
  handle_keeps webapp_update_rules r w h = refl
  handle_keeps activate r w h = ground arith
  handle_keeps deactivate r w h = ground arith
  handle_keeps add r w h = ground arith
  handle_keeps update r w h = ground arith
  handle_keeps remove r w h = ground arith
  handle_keeps entity_upsert r w h = ground arith
  handle_keeps webapp_save r w h = ground arith
  handle_keeps webapp_update r w h = ground arith
  handle_keeps webapp_delete r w h = ground arith

  -- a change of the world needs the authenticator to let in a principal with one of the two roles
  abbrev pub IsEntitled : Option (Request → Decision) → Request → Type 0
  IsEntitled auth_mw r =
      (m : Request → Decision) × (p : Principal) × (auth_mw ≡ some m)
      × ((m r).verdict ≡ allow p)
      × ((has_role s.match (some p) role_admin cfg.authorization
            || has_role s.match (some p) role_api cfg.authorization)
          ≡ true)

  no_role : (wanted : Text) → has_role s.match none wanted cfg.authorization ≡ false
  unfolding has_role
  no_role wanted = refl

  protected_keeps :
      (auth_mw : Option (Request → Decision)) (wanted : Text) (e : Endpoint) (r : Request)
      (w : World)
      → is_protected (role wanted) ≡ true
      → ((guarded s cfg io auth_mw (role wanted) e r w).1 ≡ w) ⊎ IsEntitled auth_mw r
  unfolding guarded with_role after_auth admitted require_role
  protected_keeps none wanted e r w h = inl (rw (no_role wanted) refl)
  protected_keeps (some m) wanted e r w h = elim (Verdict-cases (m r).verdict) [
    | inl (msg, v) ↦ inl (rw (v) refl)
    | inr (p, v) ↦ elim (Bool-cases (has_role s.match (some p) wanted cfg.authorization)) [
      | inl y ↦ inr (
        m,
        p,
        refl,
        v,
        ground (arith, text_eq_iff wanted role_admin, text_eq_iff wanted role_api),
      )
      | inr n ↦ inl (rw (v, n) refl)
    ]
  ]

  -- a handler that keeps the world does so behind any middlewares
  run_keeps :
      (auth_mw : Option (Request → Decision)) (a : Access) (e : Endpoint) (r : Request) (w : World)
      → writes e ≡ false
      → (guarded s cfg io auth_mw a e r w).1 ≡ w
  unfolding guarded after_auth admitted run with_role require_role
  run_keeps auth_mw public e r w h = handle_keeps e (record r { principal = none }) w h
  run_keeps none authenticated e r w h = handle_keeps e (record r { principal = none }) w h
  run_keeps (some m) authenticated e r w h = elim (Verdict-cases (m r).verdict) [
    | inl (msg, v) ↦ rw (v) refl
    | inr (p, v) ↦ rw (v) (handle_keeps e (record r { principal = some p }) w h)
  ]
  run_keeps none (role wanted) e r w h = rw (no_role wanted) refl
  run_keeps (some m) (role wanted) e r w h = elim (Verdict-cases (m r).verdict) [
    | inl (msg, v) ↦ rw (v) refl
    | inr (p, v) ↦ elim (Bool-cases (has_role s.match (some p) wanted cfg.authorization)) [
      | inl y ↦ rw (v, y) (handle_keeps e (record r { principal = some p }) w h)
      | inr n ↦ rw (v, n) refl
    ]
  ]

  guarded_keeps :
      (auth_mw : Option (Request → Decision)) (a : Access) (e : Endpoint) (r : Request) (w : World)
      → (writes e ≡ true → is_protected a ≡ true)
      → ((guarded s cfg io auth_mw a e r w).1 ≡ w) ⊎ IsEntitled auth_mw r
  guarded_keeps auth_mw a e r w h = elim (Bool-cases (writes e)) [
    | inr n ↦ inl (run_keeps auth_mw a e r w n)
    | inl y ↦ go a (h y)
  ]
    where
      go :
          (b : Access)
          → is_protected b ≡ true
          → ((guarded s cfg io auth_mw b e r w).1 ≡ w) ⊎ IsEntitled auth_mw r
      go public k = ground arith
      go authenticated k = ground arith
      go (role wanted) k = protected_keeps auth_mw wanted e r w k

  dispatched_keeps :
      (auth_mw : Option (Request → Decision)) (r : Request) (w : World) (o : Option (Route × Text))
      → ((route : Route) (param : Text) → o ≡ some (route, param) → Any (λ x. x ≡ route) routes)
      → ((dispatched s cfg io auth_mw r w o).1 ≡ w)
        ⊎ ((param : Text) × IsEntitled auth_mw (record r { param = param }))
  unfolding dispatched
  dispatched_keeps auth_mw r w none sound = inl refl
  dispatched_keeps auth_mw r w (some (route, param)) sound =
      elim (guarded_keeps auth_mw route.access route.endpoint (record r { param = param }) w
        (protected_among routes route routes_protected (sound route param refl))) [
          | inl k ↦ inl k
          | inr i ↦ inr (param, i)
        ]

  -- Where the router finds only routes of its table, a request changes the world only if there is an
  -- authenticator, it hands the request on with a principal, and the principal has the role ADMIN or API.
  pub changes_guarded :
      (resolve : List Route → Text → Text → Option (Route × Text))
      (auth_mw : Option (Request → Decision)) (method path : Text) (r : Request) (w : World)
      → ((rs : List Route) (route : Route) (param : Text)
          → resolve rs method path ≡ some (route, param)
          → Any (λ x. x ≡ route) rs)
      → ((serve s cfg io resolve auth_mw method path r w).1 ≡ w)
        ⊎ ((param : Text) × IsEntitled auth_mw (record r { param = param }))
  unfolding serve
  changes_guarded resolve auth_mw method path r w sound =
      dispatched_keeps auth_mw r w (resolve routes method path) (sound routes)
