-- ===== src/Auth/Keys/Kept.antt =====
-- The key set over the refreshes.
use trino_goway.Base.{
  ℕ, ◌≡◌, none, some, List, [], ◌∷◌, arith, Option-cases, inl, inr, ◌<◌, ◌∙◌, ap, sym,
}
use trino_goway.Auth.Keys.{Keys, Fetched, usable, refresh, new_oidc, ticks}

module _ {K : Type 0} where
  -- the last usable key set of the fetches, or else the given one
  unfoldable pub last_usable : K → List (Fetched K) → K
  last_usable k [] = k
  last_usable k (f ∷ fs) = elim (usable f) [
    | none ↦ last_usable k fs
    | some (l, n) ↦ last_usable l fs
  ]

  last_usable_step :
      (k : K) (f : Fetched K) (fs : List (Fetched K)) (m : Keys K)
      → m.jwks ≡ some k
      → (l : K) × ((refresh f m).jwks ≡ some l) × (last_usable k (f ∷ fs) ≡ last_usable l fs)
  unfolding last_usable refresh
  last_usable_step k f fs m h = elim (Option-cases (usable f)) [
    | inl e ↦ (k, ground arith, ground arith)
    | inr ((l, n), e) ↦ (l, ground arith, ground arith)
  ]

  jwks-ticks :
      (m : Keys K) (k : K) (fs : List (Fetched K))
      → m.jwks ≡ some k
      → (ticks m fs).jwks ≡ some (last_usable k fs)
  unfolding ticks last_usable
  jwks-ticks m k [] h = h
  jwks-ticks m k (f ∷ fs) h =
      let (l, e, q) = last_usable_step k f fs m h in
      jwks-ticks (refresh f m) l fs e ∙ ap some (sym q)

  usable_positive : (f : Fetched K) (k : K) (n : ℕ) → usable f ≡ some (k, n) → 0 < n
  unfolding usable
  usable_positive none k n h = ground arith
  usable_positive (some (k', none)) k n h = ground arith
  usable_positive (some (k', some j)) k n h = ground arith

  -- An authenticator that was made from a fetch has, after any further fetches, the key set of the last
  -- fetch that gave keys, the first one counted: a fetch that fails, or gives no keys, changes nothing.
  pub keys_kept :
      (f : Fetched K) (fs : List (Fetched K)) (m : Keys K)
      → new_oidc f ≡ some m
      → (k : K) × (n : ℕ) × (usable f ≡ some (k, n))
        × (0 < n)
        × ((ticks m fs).jwks ≡ some (last_usable k fs))
  unfolding new_oidc refresh
  keys_kept f fs m h = elim (Option-cases (usable f)) [
    | inl e ↦ ground arith
    | inr ((k, n), e) ↦ (k, n, e, usable_positive f k n e, jwks-ticks m k fs (ground arith))
  ]
