-- ===== src/Monitor/Probe/Ticks.antt =====
-- The first tick, on which readiness waits.
use trino_goway.Base.{◌≡◌, refl, ◌∙◌, true, List, [], ◌∷◌, ◌++◌, arith, if◌then◌else◌}
use trino_goway.Monitor.Probe.{
  Backend, Monitor, Answer, Event, backends_set, status_set, tick, checked, notify_observer,
  set_backends, set_backend_status, first_tick, probe_begin, probe_end, step, run,
}

-- The callback is set, and its calls are one or none as the once says.
abbrev pub IsOnce : Monitor → Type 0
IsOnce m = (m.has_first_tick ≡ true) × (m.first_ticks ≡ (if m.ticked then 1 else 0))

step-IsOnce : (e : Event) (m : Monitor) → IsOnce m → IsOnce (step e m)
unfolding step set_backends set_backend_status notify_observer first_tick probe_begin probe_end
step-IsOnce (backends_set bs) m h = ground arith
step-IsOnce (status_set old url s) m h = ground arith
step-IsOnce tick m h = ground arith
step-IsOnce (checked check arrival) m h = ground arith

run-IsOnce : (es : List Event) (m : Monitor) → IsOnce m → IsOnce (run es m)
unfolding run
run-IsOnce [] m h = h
run-IsOnce (e ∷ es) m h = run-IsOnce es (step e m) (step-IsOnce e m h)

run-append : (es fs : List Event) (m : Monitor) → run (es ++ fs) m ≡ run fs (run es m)
unfolding run
run-append [] fs m = refl
run-append (e ∷ es) fs m = run-append es fs (step e m)

probe_ticks :
    (check : Backend → Answer) (arrival : List Backend → List Backend) (m : Monitor)
    → (run (tick ∷ checked check arrival ∷ []) m).ticked ≡ true
unfolding run step probe_begin probe_end first_tick notify_observer
probe_ticks check arrival m = ground arith

-- Whatever the goroutines do, in any order, the callback of the first tick is called at most once; and
-- when a tick and the end of its checks come after that, it has been called exactly once.
pub first_tick_once :
    (es : List Event) (check : Backend → Answer) (arrival : List Backend → List Backend)
    (m : Monitor)
    → IsOnce m
    → ((run es m).first_ticks ≡ (if (run es m).ticked then 1 else 0))
      × ((run (es ++ (tick ∷ checked check arrival ∷ [])) m).first_ticks ≡ 1)
first_tick_once es check arrival m h = (
  (run-IsOnce es m h).1,
  (run-IsOnce (es ++ (tick ∷ checked check arrival ∷ [])) m h).1
      ∙ rw
          (
            run-append es (tick ∷ checked check arrival ∷ []) m,
            probe_ticks check arrival (run es m),
          )
          refl,
)
