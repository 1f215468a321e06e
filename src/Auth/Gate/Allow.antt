-- ===== src/Auth/Gate/Allow.antt =====
-- What stands behind a request that an authenticator hands on.
use trino_goway.Base.{
  ◌≡◌, refl, Bool, false, Option, none, some, List, [], ◌∷◌, arith, Text, is_empty, Bool-cases,
  Option-cases, inl, inr,
}
use trino_goway.Http.{Header}
use trino_goway.Auth.Roles.{Principal}
use trino_goway.Auth.Gate.{
  Entry, Directory, LdapConfig, allow, Claims, service_connection, user_filter, authenticate, ldap,
  oidc, bearer_token, identity,
}

module _ {C : Type 0} (d : Directory C) (cfg : LdapConfig) where
  -- The directory found an entry of the user first, and took a bind of it with the password.
  abbrev pub IsBound : Text → Text → Text → Type 0
  IsBound username password member_of =
      (c : C) × (e : Entry) × (es : List Entry) × (c' : C) × (service_connection d cfg ≡ some c)
      × (d.search c cfg.user_base (user_filter d cfg username) ≡ some (e ∷ es))
      × (d.bind c e.dn password ≡ some c')
      × (member_of ≡ e.member_of)

  authenticate-IsBound :
      (username password member_of : Text)
      → authenticate d cfg username password ≡ some member_of
      → IsBound username password member_of
  unfolding authenticate
  authenticate-IsBound username password member_of h =
      elim (Option-cases (service_connection d cfg)) [
        | inl e0 ↦ ground arith
        | inr (c, e0) ↦
            elim (Option-cases (d.search c cfg.user_base (user_filter d cfg username))) [
              | inl e1 ↦ ground arith
              | inr ([], e1) ↦ ground arith
              | inr (e ∷ es, e1) ↦ elim (Option-cases (d.bind c e.dn password)) [
                | inl e2 ↦ ground arith
                | inr (c', e2) ↦ (c, e, es, c', e0, e1, e2, ground arith)
              ]
            ]
      ]

  -- The LDAP authenticator hands a request on only with credentials whose name and password are not
  -- empty, and after the directory found an entry of that name and took a bind of the entry with that
  -- password; the principal is then that name with the groups of that entry.
  pub ldap_allows :
      (has_metrics : Bool) (credentials : Option (Text × Text)) (p : Principal)
      → (ldap d cfg has_metrics credentials).verdict ≡ allow p
      → (username : Text) × (password : Text) × (credentials ≡ some (username, password))
        × (is_empty username ≡ false)
        × (is_empty password ≡ false)
        × (p.name ≡ username)
        × IsBound username password p.member_of
  unfolding ldap
  ldap_allows has_metrics none p h = ground arith
  ldap_allows has_metrics (some (username, password)) p h = elim (Bool-cases (is_empty username)) [
    | inl e ↦ ground arith
    | inr e ↦ elim (Bool-cases (is_empty password)) [
      | inl e' ↦ ground arith
      | inr e' ↦ elim (Option-cases (authenticate d cfg username password)) [
        | inl a ↦ ground arith
        | inr (m, a) ↦ (
          username,
          password,
          refl,
          e,
          e',
          ground arith,
          authenticate-IsBound username password p.member_of (ground arith),
        )
      ]
    ]
  ]

-- The OIDC authenticator hands a request on only with a bearer token that is not empty and that parses
-- under the key set that is stored; the principal is then the subject and the groups of its claims.
pub oidc_allows :
    {K : Type 0} (parse : K → Text → Option Claims) (subject : Claims → Text) (has_metrics : Bool)
    (jwks : Option K) (h : Header) (p : Principal)
    → (oidc parse subject has_metrics jwks h).verdict ≡ allow p
    → (keys : K) × (claims : Claims) × (jwks ≡ some keys)
      × (is_empty (bearer_token h) ≡ false)
      × (parse keys (bearer_token h) ≡ some claims)
      × (p ≡ identity parse subject claims)
unfolding oidc
oidc_allows parse subject has_metrics jwks h p g = elim (Bool-cases (is_empty (bearer_token h))) [
  | inl e ↦ ground arith
  | inr e ↦ elim (Option-cases jwks) [
    | inl j ↦ ground arith
    | inr (keys, j) ↦ elim (Option-cases (parse keys (bearer_token h))) [
      | inl c ↦ ground arith
      | inr (claims, c) ↦ (keys, claims, j, e, c, ground arith)
    ]
  ]
]
