-- ===== src/Routing/Recovery.antt =====
-- The recovery chain: internal/routing/recovery.go. The history, the lists of active backends and the
-- answers of the probes come from outside and are parameters; a call of ListActive is numbered, since
-- the backends may change between two calls of one request.
pub mod Probe
use trino_goway.Base.{
  ℕ, Bool, true, false, ◌==◌, Option, none, some, List, [], ◌∷◌, ◌++◌, if◌then◌else◌, Text, codes,
  is_empty,
}

pub record ActiveBackend : Type 0 where
  pub name : Text
  pub url : Text
  pub routing_group : Text

-- The steps that the metrics recorder is told of.
pub data RecoveryStep : Type 0 where
  by_history by_probe by_default : RecoveryStep

pub record World : Type 0 where
  -- the url that LookupByQueryID gives, empty if there is none; its error is not looked at
  pub history : Text → Text
  -- the n-th answer of ListActive within the request, `none` for an error
  pub list_active : ℕ → Option (List ActiveBackend)
  -- the status code that answers HEAD on this URL, `none` for a failed request
  pub head : Text → Option ℕ
  -- the backends in the order in which their probes end
  pub arrival : List ActiveBackend → List ActiveBackend

abbrev pub is_ok : Option ℕ → Bool
is_ok none = false
is_ok (some code) = code == 200

unfoldable pub probe_one : World → Text → Text → Bool
probe_one w base_url id = is_ok (w.head (base_url ++ (codes "/v1/query/" ++ id)))

-- the loop over the channel of results
unfoldable pub first_result : World → Text → List ActiveBackend → Text
first_result w id [] = []
first_result w id (b ∷ bs) =
    let rest = first_result w id bs in
    if probe_one w b.url id then (if is_empty b.url then rest else b.url) else rest

unfoldable pub head_probe_fan_out : World → Text → List ActiveBackend → Text
head_probe_fan_out w id bs = first_result w id (w.arrival bs)

abbrev probe_or_default : Text → ActiveBackend → Text × List RecoveryStep
probe_or_default url b = if is_empty url then (b.url, by_default ∷ []) else (url, by_probe ∷ [])

abbrev recover_listed : World → Text → Option (List ActiveBackend) → Text × List RecoveryStep
recover_listed w id none = ([], [])
recover_listed w id (some []) = ([], [])
recover_listed w id (some (b ∷ bs)) = probe_or_default (head_probe_fan_out w id (b ∷ bs)) b

-- recoverBackend, with its call of ListActive as the n-th; the singleflight group gives each caller
-- the result of one lookup of its key
unfoldable pub recover_backend : World → ℕ → Text → Text × List RecoveryStep
recover_backend w n id =
    if is_empty (w.history id)
    then recover_listed w id (w.list_active n)
    else (w.history id, by_history ∷ [])
