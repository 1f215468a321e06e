-- ===== src/Routing/External/Headers.antt =====
-- Excluded headers are neither sent to the routing service nor taken from it.
use trino_goway.Base.{
  ◌≡◌, refl, false, not, ◌||◌, none, List, [], ◌∷◌, arith, if◌then◌else◌, Text, codes, contains,
  text_eq,
}
use trino_goway.Dict.{lookup, lookup-keep}
use trino_goway.Http.{Header, canonical_key}
use trino_goway.Routing.External.{is_excluded, filter_excluded_headers, forwarded_headers}

lookup-excluded_nil : (k : Text) → is_excluded [] k ≡ false
unfolding is_excluded contains
lookup-excluded_nil k = refl

-- Of the external headers exactly those are kept whose canonical key is not among the canonical keys
-- of the excluded names; and of the inbound headers, which go to the routing service, exactly those
-- that moreover are not Content-Length.
pub excluded_headers :
    (exclude : List Text) (external : List (Text × Text)) (inbound : Header) (k : Text)
    → (lookup k (filter_excluded_headers exclude external)
        ≡ (if is_excluded exclude k then none else lookup k external))
      × (lookup k (forwarded_headers exclude inbound) ≡ (
          if is_excluded exclude k || text_eq (canonical_key k) (codes "Content-Length")
          then none
          else lookup k inbound))
unfolding filter_excluded_headers forwarded_headers
excluded_headers [] external inbound k = (
  ground (arith, lookup-excluded_nil k),
  ground (
    arith,
    lookup-keep (λ j. not (is_excluded [] j || text_eq (canonical_key j) (codes "Content-Length")))
        k inbound,
  ),
)
excluded_headers (e ∷ es) external inbound k = (
  ground (arith, lookup-keep (λ j. not (is_excluded (e ∷ es) j)) k external),
  ground (
    arith,
    lookup-keep
        (λ j. not (is_excluded (e ∷ es) j || text_eq (canonical_key j) (codes "Content-Length"))) k
        inbound,
  ),
)
