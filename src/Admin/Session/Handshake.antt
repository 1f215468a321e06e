-- ===== src/Admin/Session/Handshake.antt =====
-- The state cookie between /sso and /oidc/callback.
use trino_goway.Base.{
  ◌≡◌, refl, ◌∙◌, Bool, true, false, ◌||◌, ◌==◌, Option, none, some, List, [], ◌∷◌, ◌++◌, arith,
  Text, codes, is_empty, text_eq, text_eq_iff, Option-cases, Any, Bool-cases, inl, inr,
}
use trino_goway.Auth.Login.{ok}
use trino_goway.Auth.Login.Exchanged.{Result-cases}
use trino_goway.Admin.Wire.{NewCookie, Request, Config}
use trino_goway.Admin.Session.{
  WebLogin, handle_sso, handle_oidc_callback, logged_in, cut_colon, read_oidc_state_cookie,
  oidc_state_cookie, logged_in,
}

unfoldable pub has_colon : Text → Bool
has_colon [] = false
has_colon (c ∷ s) = c == b':' || has_colon s

cut_colon-append : (a b : Text) → has_colon a ≡ false → cut_colon (a ++ b':' ∷ b) ≡ some (a, b)
unfolding cut_colon has_colon
cut_colon-append [] b h = ground arith
cut_colon-append (c ∷ a) b h = ground (arith, cut_colon-append a b)

-- the cookie that /sso sets, as the callback reads it
pub cookie_round_trip :
    (r : Request) (state nonce_text : Text)
    → r.cookie oidc_state_cookie ≡ some (state ++ b':' ∷ nonce_text)
    → has_colon state ≡ false
    → is_empty state ≡ false
    → is_empty nonce_text ≡ false
    → read_oidc_state_cookie r ≡ some (state, nonce_text)
unfolding read_oidc_state_cookie
cookie_round_trip r state nonce_text e h s n =
    let c : cut_colon (state ++ b':' ∷ nonce_text) ≡ some (state, nonce_text) =
      cut_colon-append state nonce_text h in
    ground arith

-- The callback sets a token only with a login of type OIDC, a code, and a state cookie whose state and
-- nonce are not empty, whose state is the one of the query, and under whose nonce the exchange of the
-- code gives that token.
pub callback_token :
    (cfg : Config) (o : Option WebLogin) (r : Request)
    → (handle_oidc_callback cfg o r).status ≡ 303
    → (login : WebLogin) × (state : Text) × (nonce_text : Text) × (id_token : Text) × (o
        ≡ some login)
      × (is_empty (r.query (codes "code")) ≡ false)
      × (read_oidc_state_cookie r ≡ some (state, nonce_text))
      × (r.query (codes "state") ≡ state)
      × (login.exchange (r.query (codes "code")) nonce_text ≡ ok id_token)
unfolding handle_oidc_callback
callback_token cfg none r h = ground arith
callback_token cfg (some login) r h = elim (Bool-cases (is_empty (r.query (codes "code")))) [
  | inl e ↦ ground arith
  | inr e ↦ elim (Option-cases (read_oidc_state_cookie r)) [
    | inl k ↦ ground arith
    | inr ((state, nonce_text), k) ↦
        elim (Result-cases (login.exchange (r.query (codes "code")) nonce_text)) [
          | inr (x, f) ↦ ground arith
          | inl (id_token, f) ↦ (
            login,
            state,
            nonce_text,
            id_token,
            refl,
            e,
            k,
            ground (arith, text_eq_iff (r.query (codes "state")) state),
            f,
          )
        ]
  ]
]

callback_ok :
    (cfg : Config) (login : WebLogin) (r : Request) (state nonce_text id_token : Text)
    → text_eq cfg.auth_type (codes "OIDC") ≡ true
    → read_oidc_state_cookie r ≡ some (state, nonce_text)
    → r.query (codes "state") ≡ state
    → is_empty (r.query (codes "code")) ≡ false
    → login.exchange (r.query (codes "code")) nonce_text ≡ ok id_token
    → handle_oidc_callback cfg (some login) r ≡ logged_in r (ok id_token)
unfolding handle_oidc_callback
callback_ok cfg login r state nonce_text id_token a t q k x =
    rw (a, k, t) (ground (arith, text_eq_iff (r.query (codes "state")) state))

abbrev pub first_value : List NewCookie → Option Text
first_value [] = none
first_value (c ∷ cs) = some c.value

-- A login that /sso begins can be ended: when the browser returns the cookie that it set, with the state in
-- the query and a code that the exchange turns into a token, the callback answers with the redirect and
-- hands the token over. The random tokens are not empty and have no colon, as base64 text has none.
pub login_round_trip :
    (cfg : Config) (login : WebLogin) (r r' : Request) (state nonce_text id_token : Text)
    → text_eq cfg.auth_type (codes "OIDC") ≡ true
    → has_colon state ≡ false
    → is_empty state ≡ false
    → is_empty nonce_text ≡ false
    → r'.cookie oidc_state_cookie
      ≡ first_value (handle_sso cfg (some login) (some state) (some nonce_text) r).cookies
    → r'.query (codes "state") ≡ state
    → is_empty (r'.query (codes "code")) ≡ false
    → login.exchange (r'.query (codes "code")) nonce_text ≡ ok id_token
    → ((handle_oidc_callback cfg (some login) r').status ≡ 303)
      × ((handle_oidc_callback cfg (some login) r').location ≡ codes "/trino-gateway")
      × (Any
          (λ c. (c.name ≡ codes "token") × (c.value ≡ id_token))
          (handle_oidc_callback cfg (some login) r').cookies)
unfolding handle_sso
login_round_trip cfg login r r' state nonce_text id_token a h s n c q k x =
    let t : read_oidc_state_cookie r' ≡ some (state, nonce_text) =
      cookie_round_trip r' state nonce_text (c ∙ rw (a) refl) h s n in
    rw (callback_ok cfg login r' state nonce_text id_token a t q k x)
      (refl, refl, inr (inl (refl, refl)))
