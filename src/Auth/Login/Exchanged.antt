-- ===== src/Auth/Login/Exchanged.antt =====
-- What stands behind a token of the web login, and behind its endpoints.
use trino_goway.Base.{
  ℕ, ◌≡◌, refl, true, false, ◌||◌, Option, none, some, List, [], ◌∷◌, arith, Text, is_empty,
  text_eq, take, ◌==◌, ◌&&◌, ◌⊎◌, Bool-cases, Option-cases, inl, inr,
}
use trino_goway.Auth.Gate.{Claims}
use trino_goway.Auth.Login.{
  OidcConfig, TokenResponse, DiscoveryDocument, new_web_login, endpoints, discover, or_else,
  WebLogin, Result, ok, err, Answer, LoginError, token_answer, body_limit, token_form, nonce_claim,
  exchange, validate_id_token,
}

pub Result-cases :
    {A : Type 0} (r : Result A) → ((a : A) × (r ≡ ok a)) ⊎ ((e : LoginError) × (r ≡ err e))
Result-cases (ok a) = inl (a, refl)
Result-cases (err e) = inr (e, refl)

is_empty_nil : (s : Text) → is_empty s ≡ true → s ≡ []
is_empty_nil [] h = refl
is_empty_nil (c ∷ s) h = ground arith

module _ {K : Type 0} (parse : K → Text → Option Claims) where
  -- the token parses, and has the nonce if one is asked for
  abbrev pub IsValid : K → Text → Text → Type 0
  IsValid jwks id_token nonce =
      (claims : Claims) × (parse jwks id_token ≡ some claims)
      × ((is_empty nonce || text_eq (nonce_claim claims) nonce) ≡ true)

  validate-IsValid :
      (jwks : K) (id_token nonce : Text)
      → validate_id_token parse jwks id_token nonce ≡ ok tt
      → IsValid jwks id_token nonce
  unfolding validate_id_token
  validate-IsValid jwks id_token nonce h = elim (Option-cases (parse jwks id_token)) [
    | inl e ↦ ground arith
    | inr (claims, e) ↦ (claims, e, ground arith)
  ]

  token_answer_ok :
      (post : Text → List (Text × Text) → Answer) (decode : Text → Option TokenResponse)
      (w : WebLogin K) (code : Text) (status : ℕ) (tr : TokenResponse)
      → token_answer parse post decode w code ≡ ok (status, tr)
      → (body : Text) × (post w.token_url (token_form w.cfg code) ≡ some (status, some body))
        × (decode (take body_limit body) ≡ some tr)
  unfolding token_answer
  token_answer_ok post decode w code status tr h =
      elim (Option-cases (post w.token_url (token_form w.cfg code))) [
        | inl e ↦ ground arith
        | inr ((n, none), e) ↦ ground arith
        | inr ((n, some body), e) ↦ elim (Option-cases (decode (take body_limit body))) [
          | inl e1 ↦ ground arith
          | inr (tr', e1) ↦ (body, ground arith, ground arith)
        ]
      ]

  -- Exchange gives a token only if the token endpoint answered the form of the code with status 200, a
  -- body that decodes to that token and no error, and the token is not empty, parses under the key set,
  -- and has the nonce in its claim if one is asked for.
  pub exchange_ok :
      (post : Text → List (Text × Text) → Answer) (decode : Text → Option TokenResponse)
      (w : WebLogin K) (code nonce token : Text)
      → exchange parse post decode w code nonce ≡ ok token
      → (body : Text) × (tr : TokenResponse) × (post w.token_url (token_form w.cfg code)
          ≡ some (200, some body))
        × (decode (take body_limit body) ≡ some tr)
        × (tr.id_token ≡ token)
        × (tr.error ≡ [])
        × (is_empty token ≡ false)
        × IsValid w.jwks token nonce
  unfolding exchange
  exchange_ok post decode w code nonce token h =
      elim (Result-cases (token_answer parse post decode w code)) [
        | inr (e, g) ↦ ground arith
        | inl ((status, tr), g) ↦ elim (Bool-cases (status == 200 && is_empty tr.error)) [
          | inr n ↦ ground arith
          | inl y ↦ elim (Bool-cases (is_empty tr.id_token)) [
            | inl m ↦ ground arith
            | inr i ↦ elim (Result-cases (validate_id_token parse w.jwks tr.id_token nonce)) [
              | inr (e, v) ↦ ground arith
              | inl (u, v) ↦
                  let (body, e0, e1) = token_answer_ok post decode w code 200 tr (ground arith) in
                  (
                    body,
                    tr,
                    e0,
                    e1,
                    ground arith,
                    is_empty_nil tr.error (ground arith),
                    ground arith,
                    validate-IsValid w.jwks token nonce (ground arith),
                  )
            ]
          ]
        ]
      ]

endpoints_keep :
    (cfg : OidcConfig) (r : Result DiscoveryDocument) (authz token : Text)
    → endpoints cfg r ≡ ok (authz, token)
    → (or_else cfg.authorization_endpoint authz ≡ authz)
      × (or_else cfg.token_endpoint token ≡ token)
unfolding endpoints
endpoints_keep cfg (ok doc) authz token h = (ground arith, ground arith)
endpoints_keep cfg (err e) authz token h = (ground arith, ground arith)

-- A login that is made has a redirect URL and a client id, and both its endpoints; an endpoint that the
-- configuration names is the one that is used.
pub web_login_endpoints :
    {K : Type 0} (get : Text → Answer) (decode : Text → Option DiscoveryDocument) (jwks : Option K)
    (cfg : OidcConfig) (w : WebLogin K)
    → new_web_login get decode jwks cfg ≡ ok w
    → (is_empty cfg.redirect_url ≡ false)
      × (is_empty cfg.client_id ≡ false)
      × (is_empty w.authz_url ≡ false)
      × (is_empty w.token_url ≡ false)
      × (or_else cfg.authorization_endpoint w.authz_url ≡ w.authz_url)
      × (or_else cfg.token_endpoint w.token_url ≡ w.token_url)
unfolding new_web_login
web_login_endpoints get decode jwks cfg w h =
    elim (Result-cases (endpoints cfg (discover get decode cfg.issuer_url))) [
      | inr (e, g) ↦ ground arith
      | inl ((authz, token), g) ↦ elim (Option-cases jwks) [
        | inl j ↦ ground arith
        | inr (k, j) ↦
            let (ea, et) = endpoints_keep cfg _ authz token g in
            (ground arith, ground arith, ground arith, ground arith, ground arith, ground arith)
      ]
    ]
