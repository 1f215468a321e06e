-- ===== src/Admin/Serve/SignIn.antt =====
-- The sign-in through the routes of the admin API and the middlewares before its two handlers.
use trino_goway.Base.{
  ◌≡◌, refl, sym, ap, ◌∙◌, Bool, true, false, not, ◌&&◌, ◌||◌, Option, none, some, List, [], ◌∷◌,
  arith, Text, codes, is_empty, text_eq, Any, inl, inr,
}
use trino_goway.Auth.Roles.{Principal}
use trino_goway.Auth.Gate.{allow, Decision}
use trino_goway.Auth.Login.{ok}
use trino_goway.Admin.Routes.{
  Endpoint, sso, oidc_callback, Access, public, authenticated, role, Route, routes,
}
use trino_goway.Admin.Wire.{Request, World, Outside, Config}
use trino_goway.Admin.Session.{WebLogin, oidc_state_cookie, handle_sso, handle_oidc_callback}
use trino_goway.Admin.Session.Handshake.{has_colon, first_value, login_round_trip}
use trino_goway.Admin.Serve.{
  Services, handle, guarded, dispatched, serve, after_auth, admitted, run,
}

abbrev is_sign_in : Endpoint → Bool
is_sign_in sso = true
is_sign_in oidc_callback = true
is_sign_in _ = false

abbrev is_authenticated : Access → Bool
is_authenticated public = false
is_authenticated authenticated = true
is_authenticated (role wanted) = false

abbrev all_authenticated : List Route → Bool
all_authenticated [] = true
all_authenticated (r ∷ rs) =
    (not (is_sign_in r.endpoint) || is_authenticated r.access) && all_authenticated rs

sign_in_authenticated : all_authenticated routes ≡ true
unfolding routes
sign_in_authenticated = refl

authenticated_among :
    (rs : List Route) (r : Route)
    → all_authenticated rs ≡ true
    → Any (λ x. x ≡ r) rs
    → is_sign_in r.endpoint ≡ true
    → is_authenticated r.access ≡ true
authenticated_among [] r h a w = elim a [ ]
authenticated_among (x ∷ rs) r h (inl e) w = rw (sym e) (ground (arith, sym e))
authenticated_among (x ∷ rs) r h (inr a) w = authenticated_among rs r (ground arith) a w

Access-authenticated : (a : Access) → is_authenticated a ≡ true → a ≡ authenticated
Access-authenticated public h = ground arith
Access-authenticated authenticated h = refl
Access-authenticated (role wanted) h = ground arith

-- There is no authenticator, or it lets the request pass.
abbrev pub IsPassed : Option (Request → Decision) → Request → Type 0
IsPassed none r = Unit
IsPassed (some m) r = (p : Principal) × ((m r).verdict ≡ allow p)

module _ (s : Services) (cfg : Config) (io : Outside) where
  guarded_passed :
      (auth_mw : Option (Request → Decision)) (e : Endpoint) (r : Request) (w : World)
      → IsPassed auth_mw r
      → (p : Option Principal) × (guarded s cfg io auth_mw authenticated e r w
          ≡ handle s cfg io e (record r { principal = p }) w)
  unfolding guarded run after_auth admitted
  guarded_passed none e r w h = (none, refl)
  guarded_passed (some m) e r w (p, h) = (some p, rw (h, admitted) refl)

  module _ (resolve : List Route → Text → Text → Option (Route × Text))
      (sound : (rs : List Route) (method path : Text) (route : Route) (param : Text)
        → resolve rs method path ≡ some (route, param)
        → Any (λ x. x ≡ route) rs)
      (auth_mw : Option (Request → Decision)) where
    served :
        (method path : Text) (r : Request) (w : World) (route : Route) (param : Text)
        → resolve routes method path ≡ some (route, param)
        → is_sign_in route.endpoint ≡ true
        → IsPassed auth_mw (record r { param = param })
        → (p : Option Principal) × (serve s cfg io resolve auth_mw method path r w
            ≡ handle s cfg io route.endpoint (record r { param = param; principal = p }) w)
    unfolding serve dispatched
    served method path r w route param e i h =
        let a : route.access ≡ authenticated = Access-authenticated route.access (
          authenticated_among routes route sign_in_authenticated
            (sound routes method path route param e) i) in
        let (p, g) = guarded_passed auth_mw route.endpoint (record r { param = param }) w h in
        (p, rw (e, a) g)

    begun_cookies :
        (method path : Text) (r : Request) (w : World) (route : Route) (param : Text)
        → resolve routes method path ≡ some (route, param)
        → route.endpoint ≡ sso
        → IsPassed auth_mw (record r { param = param })
        → (p : Option Principal) × ((serve s cfg io resolve auth_mw method path r w).0
            ≡ handle_sso cfg s.web_login s.first_token s.second_token
                (record r { param = param; principal = p }))
    unfolding handle
    begun_cookies method path r w route param e i h =
        let (p, q) = served method path r w route param e (rw (i) refl) h in
        (p, ap (λ x. x.0) q ∙ rw (i) refl)

    called_back :
        (method path : Text) (r : Request) (w : World) (route : Route) (param : Text)
        → resolve routes method path ≡ some (route, param)
        → route.endpoint ≡ oidc_callback
        → IsPassed auth_mw (record r { param = param })
        → (p : Option Principal) × ((serve s cfg io resolve auth_mw method path r w).0
            ≡ handle_oidc_callback cfg s.web_login (record r { param = param; principal = p }))
    unfolding handle
    called_back method path r w route param e i h =
        let (p, q) = served method path r w route param e (rw (i) refl) h in
        (p, ap (λ x. x.0) q ∙ rw (i) refl)

    -- A sign-in that /sso begins can be ended through the router, if chi finds the two routes and the
    -- authenticator in front of them, if there is one, lets both requests pass: when the browser returns
    -- the cookie that it was given, with the state in the query and a code that the exchange turns into
    -- a token, the callback answers with the redirect and hands the token over. The type of the
    -- authentication is OIDC, and the random tokens are not empty and the first has no colon, as base64
    -- text has none.
    pub sign_in :
        (method path method' path' : Text) (r r' : Request) (w w' : World) (begin end : Route)
        (param param' : Text) (login : WebLogin) (state nonce_text id_token : Text)
        → resolve routes method path ≡ some (begin, param)
        → begin.endpoint ≡ sso
        → resolve routes method' path' ≡ some (end, param')
        → end.endpoint ≡ oidc_callback
        → IsPassed auth_mw (record r { param = param })
        → IsPassed auth_mw (record r' { param = param' })
        → s.web_login ≡ some login
        → s.first_token ≡ some state
        → s.second_token ≡ some nonce_text
        → text_eq cfg.auth_type (codes "OIDC") ≡ true
        → has_colon state ≡ false
        → is_empty state ≡ false
        → is_empty nonce_text ≡ false
        → r'.cookie oidc_state_cookie
          ≡ first_value (serve s cfg io resolve auth_mw method path r w).0.cookies
        → r'.query (codes "state") ≡ state
        → is_empty (r'.query (codes "code")) ≡ false
        → login.exchange (r'.query (codes "code")) nonce_text ≡ ok id_token
        → ((serve s cfg io resolve auth_mw method' path' r' w').0.status ≡ 303)
          × ((serve s cfg io resolve auth_mw method' path' r' w').0.location
              ≡ codes "/trino-gateway")
          × Any
              (λ c. (c.name ≡ codes "token") × (c.value ≡ id_token))
              (serve s cfg io resolve auth_mw method' path' r' w').0.cookies
    sign_in method path method' path' r r' w w' begin end param param' login state nonce_text
          id_token e i e' i' h h' l t1 t2 a c n m k q d x =
        let (p, b) = begun_cookies method path r w begin param e i h in
        let (p', b') = called_back method' path' r' w' end param' e' i' h' in
        let started : handle_sso cfg s.web_login s.first_token s.second_token
              (record r { param = param; principal = p })
            ≡ handle_sso cfg (some login) (some state) (some nonce_text)
                (record r { param = param; principal = p }) =
          rw (l, t1, t2) refl in
        let ended : handle_oidc_callback cfg s.web_login
              (record r' { param = param'; principal = p' })
            ≡ handle_oidc_callback cfg (some login) (record r' { param = param'; principal = p' }) =
          rw (l) refl in
        rw (b' ∙ ended) (
          login_round_trip cfg login (record r { param = param; principal = p })
            (record r' { param = param'; principal = p' }) state nonce_text id_token a c n m
            (k ∙ ap (λ x. first_value x.cookies) (b ∙ started)) q d x)
