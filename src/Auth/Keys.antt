-- ===== src/Auth/Keys.antt =====
-- The key set of internal/auth/oidc.go: NewOIDC, refresh and doRefresh. What one fetch gives comes from
-- outside: the key set with its number of keys, `none` inside for keys that cannot be read.
pub mod Kept
use trino_goway.Base.{ℕ, ◌*◌, ◌==◌, Bool, Option, none, some, List, [], ◌∷◌, ◌++◌, if◌then◌else◌}

pub data Recorded : Type 0 where
  refreshed failed : Recorded
  loaded : ℕ → Recorded

pub record Keys (K : Type 0) : Type 0 where
  pub jwks : Option K
  pub recorded : List Recorded

-- keyfunc.NewDefaultCtx, and then KeyReadAll
abbrev pub Fetched : Type 0 → Type 0
Fetched K = Option (K × Option ℕ)

module _ {K : Type 0} where
  -- the key set that doRefresh stores, with the number of its keys
  unfoldable pub usable : Fetched K → Option (K × ℕ)
  usable none = none
  usable (some (k, none)) = none
  usable (some (k, some n)) = if n == 0 then none else some (k, n)

  abbrev store : Option (K × ℕ) → Keys K → Keys K
  store none m = record m { recorded = m.recorded ++ failed ∷ [] }
  store (some (k, n)) m = record m {
    jwks = some k;
    recorded = m.recorded ++ loaded n ∷ refreshed ∷ [];
  }

  -- refresh, with a recorder
  unfoldable pub refresh : Fetched K → Keys K → Keys K
  unfolding usable
  refresh f m = store (usable f) m

  abbrev started : Option (K × ℕ) → Keys K → Option (Keys K)
  started none m = none
  started (some k) m = some m

  -- NewOIDC: no authenticator when the first refresh fails
  unfoldable pub new_oidc : Fetched K → Option (Keys K)
  unfolding refresh usable
  new_oidc f = started (usable f) (refresh f (record { jwks = none; recorded = [] }))

  -- the ticks of the goroutine
  unfoldable pub ticks : Keys K → List (Fetched K) → Keys K
  ticks m [] = m
  ticks m (f ∷ fs) = ticks (refresh f m) fs
