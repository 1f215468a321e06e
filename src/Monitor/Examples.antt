-- ===== src/Monitor/Examples.antt =====
-- Runs of the monitor of internal/monitor.
use trino_goway.Base.{◌≡◌, refl, true, false, none, some, [], ◌∷◌, ◌++◌, codes, if◌then◌else◌}
use trino_goway.Monitor.Probe.{
  Backend, Monitor, Answer, answer, backends_set, tick, checked, run, probe_end, status_of,
}
use trino_goway.Monitor.Probe.Health.{Verdict, probe_verdict}
use trino_goway.Monitor.Probe.Ticks.{first_tick_once}

abbrev t1 : Backend
t1 = record { name = codes "t1"; url = codes "http://t1" }

abbrev t2 : Backend
t2 = record { name = codes "t2"; url = codes "http://t2" }

abbrev monitor : Monitor
monitor = record {
  status = [];
  backends = t1 ∷ t2 ∷ [];
  observed = some [];
  has_first_tick = true;
  ticked = false;
  first_ticks = 0;
  probing = none;
}

abbrev probing : Monitor
probing = record monitor { probing = some (t1 ∷ []) }

abbrev all_up : Backend → Answer
all_up b = answer 200 (some false)

probe_verdict_example :
    Verdict all_up
      (codes "http://t1")
      (status_of (codes "http://t1") (probe_end all_up (λ bs. bs) probing))
      (t1 ∷ [])
probe_verdict_example =
    probe_verdict all_up (λ bs. bs) probing (t1 ∷ []) (codes "http://t1") refl
      (λ P. ((λ a. a), (λ a. a)))

first_tick_once_example :
    ((run (backends_set [] ∷ tick ∷ []) monitor).first_ticks
      ≡ (if (run (backends_set [] ∷ tick ∷ []) monitor).ticked then 1 else 0))
    × ((run
          ((backends_set [] ∷ tick ∷ []) ++ (tick ∷ checked all_up (λ bs. bs) ∷ []))
          monitor).first_ticks
        ≡ 1)
first_tick_once_example =
    first_tick_once (backends_set [] ∷ tick ∷ []) all_up (λ bs. bs) monitor (refl, refl)
