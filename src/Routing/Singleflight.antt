-- ===== src/Routing/Singleflight.antt =====
-- singleFlightGroup.do of internal/routing/recovery.go, as steps of its callers. What a caller does under
-- the mutex is one step, and so are the call of fn with wg.Done and the return from wg.Wait. A caller
-- and a call record are numbers; fn gives a URL, or `none` for an error.
pub mod Share
use trino_goway.Base.{
  ℕ, ◌+◌, Bool, true, false, ◌==◌, Option, none, some, List, [], ◌∷◌, if◌then◌else◌, Text, text_eq,
}

-- Where a caller stands: before the lock, with its key; in wg.Wait on a call; in fn as the call's
-- maker; before the lock that deletes the entry; or returned, with the call's result.
pub data Phase : Type 0 where
  entering : Text → Phase
  waiting : Text → ℕ → Phase
  leading : Text → ℕ → Phase
  ending : Text → ℕ → Phase
  returned : Text → ℕ → Option Text → Phase

-- `inflight` is the map; `result` is what a call record holds, `none` before wg.Done; `made` counts the
-- call records.
pub record Group : Type 0 where
  pub inflight : Text → Option ℕ
  pub result : ℕ → Option (Option Text)
  pub made : ℕ
  pub callers : ℕ → Phase

abbrev pub at_number {ℓ} : {A : Type ℓ} → ℕ → A → (ℕ → A) → ℕ → A
at_number i a f j = if i == j then a else f j

abbrev pub at_text {ℓ} : {A : Type ℓ} → Text → A → (Text → A) → Text → A
at_text k a f l = if text_eq k l then a else f l

abbrev pub enter : ℕ → Text → Option ℕ → Group → Group
enter i k (some c) g = record g { callers = at_number i (waiting k c) g.callers }
enter i k none g = record g {
  inflight = at_text k (some g.made) g.inflight;
  made = g.made + 1;
  callers = at_number i (leading k g.made) g.callers;
}

abbrev pub wake : ℕ → Text → ℕ → Option (Option Text) → Group → Group
wake i k c none g = g
wake i k c (some v) g = record g { callers = at_number i (returned k c v) g.callers }

-- the maker of a call returns what its record holds
abbrev pub leave : ℕ → Text → ℕ → Option (Option Text) → Group → Group
leave i k c none g = g
leave i k c (some v) g = record g {
  inflight = at_text k none g.inflight;
  callers = at_number i (returned k c v) g.callers;
}

-- The next step of caller `i` from where it stands; `v` is what fn gives, if it is called.
abbrev pub step_from : ℕ → Option Text → Phase → Group → Group
step_from i v (entering k) g = enter i k (g.inflight k) g
step_from i v (waiting k c) g = wake i k c (g.result c) g
step_from i v (leading k c) g = record g {
  result = at_number c (some v) g.result;
  callers = at_number i (ending k c) g.callers;
}
step_from i v (ending k c) g = leave i k c (g.result c) g
step_from i v (returned k c w) g = g

unfoldable pub step : ℕ → Option Text → Group → Group
step i v g = step_from i v (g.callers i) g

-- The callers take their steps in any order.
unfoldable pub run : List (ℕ × Option Text) → Group → Group
run [] g = g
run ((i, v) ∷ s) g = run s (step i v g)

-- a new group, with a key for each caller
abbrev pub start : (ℕ → Text) → Group
start keys = record {
  inflight = λ k. none;
  result = λ c. none;
  made = 0;
  callers = λ i. entering (keys i);
}
