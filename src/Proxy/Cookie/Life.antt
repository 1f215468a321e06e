-- ===== src/Proxy/Cookie/Life.antt =====
-- The life of a gateway cookie.
use trino_goway.Base.{
  ℕ, ◌≡◌, refl, ◌/◌, true, false, none, some, [], ◌∷◌, arith, if◌then◌else◌, Text, codes, is_empty,
  text_eq_refl, text_eq_iff, Option-cases, inl, inr, contains,
}
use trino_goway.Proxy.Headers.{Inbound}
use trino_goway.Proxy.Cookie.{
  Codec, CookieConfig, GatewayCookie, deleted, valid, stale, is_expired, ms, payload, issue_value,
  validate_cookie, apply_cookies, matches_any,
}

module _ (k : Codec) (cfg : CookieConfig) where
  validate_cookie-issue_value :
      (then_ now : ℕ) (backend : Text)
      → validate_cookie k cfg now (issue_value k cfg then_ backend) ≡ (
          if is_expired now (k.parse_ttl (k.format_ttl cfg.wire_compat cfg.ttl)) (then_ / ms)
          then stale
          else valid (codes "/logout" ∷ codes "/oauth2/logout" ∷ []))
  unfolding validate_cookie issue_value
  validate_cookie-issue_value then_ now backend =
      rw
        (
          k.decode-encode cfg.wire_compat (record {
            unsigned = payload k cfg then_ backend;
            signature = k.mac cfg.secret (payload k cfg then_ backend);
          }),
          validate_cookie,
        )
        (rw (text_eq_refl (k.mac cfg.secret (payload k cfg then_ backend))) refl)

  -- With a secret that is not empty, a cookie that the gateway issued is never taken for a tampered one.
  -- When it comes back, it is deleted if its time is over or the path is one of the two logout paths,
  -- and otherwise left alone.
  pub issued_cookie_returns :
      (then_ now : ℕ) (backend other : Text) (r : Inbound)
      → is_empty cfg.secret ≡ false
      → r.cookie ≡ some (issue_value k cfg then_ backend)
      → apply_cookies k cfg now r other ≡ (
        true,
        (if is_expired now (k.parse_ttl (k.format_ttl cfg.wire_compat cfg.ttl)) (then_ / ms)
            then some deleted
            else if contains (codes "/logout" ∷ codes "/oauth2/logout" ∷ []) r.path
            then some deleted
            else none),
      )
  unfolding apply_cookies matches_any
  issued_cookie_returns then_ now backend other r h e =
      rw (h, e, validate_cookie-issue_value then_ now backend) (ground arith)

  -- With a secret that is not empty, a response to a request with a cookie goes on only if the cookie
  -- decodes and carries the MAC of its own payload under that secret; every other cookie stops the
  -- response.
  pub unsigned_cookie_stops :
      (now : ℕ) (value backend : Text) (r : Inbound)
      → is_empty cfg.secret ≡ false
      → r.cookie ≡ some value
      → (apply_cookies k cfg now r backend).0 ≡ true
      → (gc : GatewayCookie) × (k.decode cfg.wire_compat value ≡ some gc)
        × (gc.signature ≡ k.mac cfg.secret gc.unsigned)
  unfolding apply_cookies validate_cookie
  unsigned_cookie_stops now value backend r h e a =
      elim (Option-cases (k.decode cfg.wire_compat value)) [
        | inl n ↦ absurd (ground arith)
        | inr (gc, n) ↦
            (gc, n, ground (arith, text_eq_iff (k.mac cfg.secret gc.unsigned) gc.signature))
      ]
