-- ===== src/Proxy/Forward/Order.antt =====
-- What a client can rely on, on every path through the handlers.
use trino_goway.Base.{
  ℕ, suc, ◌||◌, ◌≤◌, ◌≡◌, ◌⊎◌, inl, inr, refl, Bool, true, false, Option, none, some, List, [], ◌∷◌,
  ◌++◌, arith, ltb, if◌then◌else◌, length, Text, is_empty, Bool-cases,
}
use trino_goway.Http.{Header}
use trino_goway.Routing.Router.{RouteResult}
use trino_goway.Proxy.Headers.{Inbound}
use trino_goway.Proxy.Cookie.{Codec, apply_cookies}
use trino_goway.Proxy.Forward.{
  Effect, panics, write_cache, http_error, write_response, ProxyConfig, upstream_response, finish,
  remember, statement_response, handle_statement, upstream_of,
}

abbrev pub is_response : Effect → Bool
is_response (http_error code t) = true
is_response (write_response s h c b) = true
is_response e = false

-- how many responses the client is sent, and how many requests are recorded
abbrev pub responses : List Effect → ℕ
responses [] = 0
responses (e ∷ es) = if is_response e then suc (responses es) else responses es

abbrev pub is_panic : Effect → Bool
is_panic panics = true
is_panic e = false

abbrev pub panicked : List Effect → ℕ
panicked [] = 0
panicked (e ∷ es) = if is_panic e then suc (panicked es) else panicked es

-- Nothing is written to the client but errors, before the cache holds this entry.
abbrev pub CachedFirst : Text → Text → List Effect → Type 0
CachedFirst id url [] = Unit
CachedFirst id url (write_cache i u ∷ es) = ((i ≡ id) × (u ≡ url)) ⊎ CachedFirst id url es
CachedFirst id url (write_response s h c b ∷ es) = ⊥
CachedFirst id url (e ∷ es) = CachedFirst id url es

-- Each body that is written to the client is this one, and within the limit.
abbrev pub WritesOnly : ℕ → Text → List Effect → Type 0
WritesOnly limit body [] = Unit
WritesOnly limit body (write_response s h c b ∷ es) =
    (b ≡ body) × (length body ≤ limit) × WritesOnly limit body es
WritesOnly limit body (e ∷ es) = WritesOnly limit body es

module _ (k : Codec) (query_id_of : Text → Text) (cfg : ProxyConfig) (now : ℕ) (r : Inbound)
    (parses : Text → Bool) where
  -- The router gives a backend, and no request can be made from its URL.
  abbrev pub unparsed : Option RouteResult → ℕ
  unparsed none = 0
  unparsed (some res) = if is_empty res.backend_url || parses res.backend_url then 0 else 1

  abbrev pub routed : (Text → Option RouteResult) → Option Text → Option RouteResult
  routed route none = none
  routed route (some body) = route body

  CachedFirst-remember :
      (res : RouteResult) (body : Text) (es : List Effect)
      → is_empty (query_id_of body) ≡ false
      → CachedFirst
          (query_id_of body)
          res.backend_url
          (remember k query_id_of cfg now r res body ++ es)
  unfolding remember
  CachedFirst-remember res body es h = rw h (inl (refl, refl))

  CachedFirst-response :
      (res : RouteResult) (status : ℕ) (headers : Header) (body : Text)
      → is_empty (query_id_of body) ≡ false
      → CachedFirst (query_id_of body) res.backend_url (
          statement_response k query_id_of cfg now r res
            (upstream_response status headers (some body)))
  unfolding statement_response
  CachedFirst-response res status headers body h =
      elim (Bool-cases (ltb cfg.response_size (length body))) [
        | inl e ↦ rw e tt
        | inr e ↦ rw e (CachedFirst-remember res body _ h)
      ]

  CachedFirst-routed :
      (res : RouteResult) (status : ℕ) (headers : Header) (body : Text)
      → is_empty (query_id_of body) ≡ false
      → CachedFirst (query_id_of body) res.backend_url (
          handle_statement k query_id_of cfg now r parses
            (λ _. some res)
            (some [])
            (upstream_response status headers (some body)))
  unfolding handle_statement upstream_of
  CachedFirst-routed res status headers body h =
      ground (arith, CachedFirst-response res status headers body h)

  -- When the upstream answers with a body that carries a query id, no part of a response but an error is
  -- written to the client before the pair of that id and the backend is put into the cache.
  pub cached_before_response :
      (route : Text → Option RouteResult) (res : RouteResult) (status : ℕ) (headers : Header)
      (request body : Text)
      → route request ≡ some res
      → is_empty (query_id_of body) ≡ false
      → CachedFirst (query_id_of body) res.backend_url (
          handle_statement k query_id_of cfg now r parses route
            (some request)
            (upstream_response status headers (some body)))
  unfolding handle_statement upstream_of
  cached_before_response route res status headers request body e h =
      rw e (ground (arith, CachedFirst-response res status headers body h))

  WritesOnly-finish :
      (res : RouteResult) (status : ℕ) (headers : Header) (body : Text)
      → length body ≤ cfg.response_size
      → WritesOnly cfg.response_size body (finish k query_id_of cfg now r res status headers body)
  unfolding finish
  WritesOnly-finish res status headers body h =
      elim (Bool-cases (apply_cookies k cfg.cookie now r res.backend_url).0) [
        | inl e ↦ rw e (refl, h, tt)
        | inr e ↦ rw e tt
      ]

  WritesOnly-remember :
      (res : RouteResult) (body : Text) (es : List Effect)
      → WritesOnly cfg.response_size body es
      → WritesOnly cfg.response_size body (remember k query_id_of cfg now r res body ++ es)
  unfolding remember
  WritesOnly-remember res body es h = elim (Bool-cases (is_empty (query_id_of body))) [
    | inl e ↦ rw e h
    | inr e ↦ elim (Bool-cases cfg.has_history) [ inl f ↦ rw (e, f) h | inr f ↦ rw (e, f) h ]
  ]

  WritesOnly-response :
      (res : RouteResult) (status : ℕ) (headers : Header) (body : Text)
      → WritesOnly cfg.response_size body (
          statement_response k query_id_of cfg now r res
            (upstream_response status headers (some body)))
  unfolding statement_response
  WritesOnly-response res status headers body =
      elim (Bool-cases (ltb cfg.response_size (length body))) [
        | inl e ↦ rw e tt
        | inr e ↦ rw e (
            WritesOnly-remember res body _
              (WritesOnly-finish res status headers body (ground arith)))
      ]

  WritesOnly-routed :
      (o : Option RouteResult) (status : ℕ) (headers : Header) (body : Text)
      → WritesOnly cfg.response_size body (
          handle_statement k query_id_of cfg now r parses
            (λ _. o)
            (some [])
            (upstream_response status headers (some body)))
  unfolding handle_statement upstream_of
  WritesOnly-routed none status headers body = tt
  WritesOnly-routed (some res) status headers body =
      ground (arith, WritesOnly-response res status headers body)

  -- Each body that the handler of a statement writes to the client is the upstream's own and not over
  -- the size limit.
  pub statement_writes_upstream :
      (route : Text → Option RouteResult) (status : ℕ) (headers : Header) (request : Option Text)
      (body : Text)
      → WritesOnly cfg.response_size body (
          handle_statement k query_id_of cfg now r parses route request
            (upstream_response status headers (some body)))
  unfolding handle_statement
  statement_writes_upstream route status headers none body = tt
  statement_writes_upstream route status headers (some text) body =
      WritesOnly-routed (route text) status headers body
