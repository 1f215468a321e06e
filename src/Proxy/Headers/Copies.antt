-- ===== src/Proxy/Headers/Copies.antt =====
-- Which headers reach the other side.
use trino_goway.Base.{
  ◌≡◌, ◌∙◌, refl, ap, Option, none, some, List, [], ◌∷◌, arith, if◌then◌else◌, Text, text_eq,
  text_eq_iff, codes, contains, map, false,
}
use trino_goway.Dict.{lookup, lookup-put}
use trino_goway.Http.{Header, canonical_key, header_set}
use trino_goway.Proxy.Headers.{is_hop_by_hop, copy_headers, set_all, Inbound, inject_headers}

abbrev pub or_else {ℓ} : {A : Type ℓ} → Option A → Option A → Option A
or_else none b = b
or_else (some a) b = some a

lookup-copy_headers :
    (dst src : Header) (k : Text)
    → lookup k (copy_headers dst src)
      ≡ (if is_hop_by_hop k then lookup k dst else or_else (lookup k src) (lookup k dst))
unfolding copy_headers lookup
lookup-copy_headers dst [] k = ground arith
lookup-copy_headers dst ((j, vv) ∷ src) k = ground (
  arith,
  text_eq_iff j k,
  lookup-put j k vv (copy_headers dst src),
  lookup-copy_headers dst src k,
)

-- the value that the external headers give for a canonical key
abbrev pub external_value : Text → List (Text × Text) → Option Text
external_value k [] = none
external_value k ((j, v) ∷ ext) =
    let later = external_value k ext in if text_eq (canonical_key j) k then some v else later

abbrev pub single : Option Text → Option (List Text)
single none = none
single (some v) = some (v ∷ [])

lookup-set_all :
    (ext : List (Text × Text)) (h : Header) (k : Text)
    → lookup k (set_all ext h) ≡ or_else (single (external_value k ext)) (lookup k h)
unfolding set_all header_set
lookup-set_all [] h k = refl
lookup-set_all ((j, v) ∷ ext) h k =
    ground (arith, lookup-put (canonical_key j) k (v ∷ []) (set_all ext h), lookup-set_all ext h k)

external_headers_replace :
    (r : Inbound) (ext : List (Text × Text)) (h : Header) (k : Text)
    → lookup k (inject_headers r ext h)
      ≡ or_else (single (external_value k ext)) (lookup k (inject_headers r [] h))
unfolding inject_headers
external_headers_replace r ext h k =
    lookup-set_all ext _ k ∙ ap (or_else (single (external_value k ext))) (unfold set_all in refl)

abbrev pub forwarded_names : List Text
forwarded_names =
    codes "X-Forwarded-Port"
    ∷ codes "X-Forwarded-Host"
    ∷ codes "X-Forwarded-Proto"
    ∷ codes "X-Forwarded-For"
    ∷ []

lookup-header_set_other :
    (name v : Text) (h : Header) (k : Text)
    → text_eq (canonical_key name) k ≡ false
    → lookup k (header_set name v h) ≡ lookup k h
unfolding header_set
lookup-header_set_other name v h k e = ground (arith, lookup-put (canonical_key name) k (v ∷ []) h)

lookup-forwarded :
    (r : Inbound) (h : Header) (k : Text)
    → contains (map canonical_key forwarded_names) k ≡ false
    → lookup k (inject_headers r [] h) ≡ lookup k h
unfolding inject_headers set_all contains
lookup-forwarded r h k e =
    lookup-header_set_other (codes "X-Forwarded-Port") _ _ k (ground arith)
    ∙ lookup-header_set_other (codes "X-Forwarded-Host") _ _ k (ground arith)
    ∙ lookup-header_set_other (codes "X-Forwarded-Proto") _ _ k (ground arith)
    ∙ lookup-header_set_other (codes "X-Forwarded-For") _ h k (ground arith)

or_else-none {ℓ} : {A : Type ℓ} (o : Option A) → or_else o none ≡ o
or_else-none none = refl
or_else-none (some a) = refl

-- In the request that goes upstream, a header other than the four X-Forwarded ones has the one value of the
-- routing decision, if the decision names it, whatever the client sent; otherwise it is the client's
-- own, and absent if it is hop-by-hop.
pub upstream_headers :
    (r : Inbound) (ext : List (Text × Text)) (k : Text)
    → contains (map canonical_key forwarded_names) k ≡ false
    → lookup k (inject_headers r ext (copy_headers [] r.headers))
      ≡ or_else
          (single (external_value k ext))
          (if is_hop_by_hop k then none else lookup k r.headers)
unfolding lookup
upstream_headers r ext k e =
    external_headers_replace r ext (copy_headers [] r.headers) k
    ∙ rw (lookup-forwarded r (copy_headers [] r.headers) k e, lookup-copy_headers [] r.headers k)
        (rw (or_else-none (lookup k r.headers)) refl)
