-- ===== src/Dict.antt =====
-- A Go map with string keys, as an association list with at most one entry for a key that was put.
use trino_goway.Base.{
  ◌≡◌, refl, Bool, Option, none, some, List, [], ◌∷◌, arith, if◌then◌else◌, Text, text_eq,
  text_eq_iff,
}

module _ {ℓ} {V : Type ℓ} where
  unfoldable pub lookup : Text → List (Text × V) → Option V
  lookup k [] = none
  lookup k ((j, v) ∷ m) = if text_eq j k then some v else lookup k m

  unfoldable pub put : Text → V → List (Text × V) → List (Text × V)
  put k v [] = (k, v) ∷ []
  put k v ((j, w) ∷ m) = let rest = put k v m in if text_eq j k then (k, v) ∷ m else (j, w) ∷ rest

  -- the entries whose key passes a test
  unfoldable pub keep : (Text → Bool) → List (Text × V) → List (Text × V)
  keep p [] = []
  keep p ((j, v) ∷ m) = let rest = keep p m in if p j then (j, v) ∷ rest else rest

  pub lookup-put :
      (k j : Text) (v : V) (m : List (Text × V))
      → lookup j (put k v m) ≡ (if text_eq k j then some v else lookup j m)
  unfolding lookup put
  lookup-put k j v [] = refl
  lookup-put k j v ((i, w) ∷ m) =
      ground (arith, text_eq_iff k j, text_eq_iff i k, text_eq_iff i j, lookup-put k j v m)

  pub lookup-keep :
      (p : Text → Bool) (j : Text) (m : List (Text × V))
      → lookup j (keep p m) ≡ (if p j then lookup j m else none)
  unfolding lookup keep
  lookup-keep p j [] = ground arith
  lookup-keep p j ((i, w) ∷ m) = ground (arith, text_eq_iff i j, lookup-keep p j m)
