-- ===== src/Monitor/Probe.antt =====
-- internal/monitor/monitor.go. A map of statuses is an association list by URL. A probe has two steps,
-- since the backends are copied when it begins and the statuses are stored when its checks are done;
-- SetBackendStatus has as argument the map that it loaded. The answers to the checks come from outside.
-- The collection of cluster statistics, the goroutines and their timeouts are left out.
pub mod Health
pub mod Ticks
use trino_goway.Base.{
  ℕ, ◌+◌, Bool, true, false, not, ◌==◌, Option, none, some, List, [], ◌∷◌, if◌then◌else◌, Text,
}
use trino_goway.Dict.{lookup, put}

-- clusterstatus.Status
pub data Status : Type 0 where
  unknown healthy unhealthy pending : Status

-- the parts of a backend that the health probe reads
pub record Backend : Type 0 where
  pub name : Text
  pub url : Text

-- what the observer is told: the statuses and the names, by URL
pub record Snapshot : Type 0 where
  pub statuses : List (Text × Status)
  pub names : List (Text × Text)

-- `observed` is `none` without an observer, and holds the latest call first; `first_ticks` counts the
-- calls of onFirstTick, and `ticked` is the state of the once. `probing` are the backends that a
-- probe has copied and not yet stored the results of.
pub record Monitor : Type 0 where
  pub status : List (Text × Status)
  pub backends : List Backend
  pub observed : Option (List Snapshot)
  pub has_first_tick : Bool
  pub ticked : Bool
  pub first_ticks : ℕ
  pub probing : Option (List Backend)

-- How GET /v1/info ends: an error, or a code with the decoded `starting`, `none` where it does not
-- decode.
pub data Answer : Type 0 where
  no_answer : Answer
  answer : ℕ → Option Bool → Answer

abbrev of_info : Option Bool → Status
of_info none = unhealthy
of_info (some is_starting) = if is_starting then pending else healthy

unfoldable pub check_one : Answer → Status
check_one no_answer = unhealthy
check_one (answer code info) = if code == 200 then of_info info else unhealthy

unfoldable pub names_from : List (Text × Text) → List Backend → List (Text × Text)
names_from names [] = names
names_from names (b ∷ bs) = names_from (put b.url b.name names) bs

abbrev pub names_of : List Backend → List (Text × Text)
names_of bs = names_from [] bs

abbrev pub or_else_pending : Option Status → Status
or_else_pending none = pending
or_else_pending (some s) = s

unfoldable pub known_or_pending : List (Text × Status) → List (Text × Text) → List (Text × Status)
known_or_pending status [] = []
known_or_pending status ((url, name) ∷ names) =
    (url, or_else_pending (lookup url status)) ∷ known_or_pending status names

unfoldable pub snapshot : Monitor → Snapshot
snapshot m = record {
  statuses = known_or_pending m.status (names_of m.backends);
  names = names_of m.backends;
}

unfoldable pub notify_observer : Monitor → Monitor
notify_observer m = elim m.observed [
  | none ↦ m
  | some seen ↦ record m { observed = some (snapshot m ∷ seen) }
]

unfoldable pub set_backends : List Backend → Monitor → Monitor
set_backends bs m = notify_observer (record m { backends = bs })

abbrev pub or_unknown : Option Status → Status
or_unknown none = unknown
or_unknown (some s) = s

-- Status of a URL
unfoldable pub status_of : Text → Monitor → Status
status_of url m = or_unknown (lookup url m.status)

unfoldable pub set_backend_status : List (Text × Status) → Text → Status → Monitor → Monitor
set_backend_status old url s m = notify_observer (record m { status = put url s old })

-- the map of results; the check that ends first is the last of the list
unfoldable pub results : (Backend → Answer) → List Backend → List (Text × Status)
results check [] = []
results check (b ∷ bs) = put b.url (check_one (check b)) (results check bs)

-- the deferred firstTickOnce.Do
unfoldable pub first_tick : Monitor → Monitor
first_tick m = if m.ticked then m else record m {
  ticked = true;
  first_ticks = if m.has_first_tick then m.first_ticks + 1 else m.first_ticks;
}

-- probe up to the checks; without a backend it is over
unfoldable pub probe_begin : Monitor → Monitor
probe_begin m = elim m.backends [
  | [] ↦ first_tick m
  | b ∷ bs ↦ record m { probing = some (b ∷ bs) }
]

-- the rest of probe; `arrival` puts the backends in the order in which their checks end
unfoldable pub probe_end : (Backend → Answer) → (List Backend → List Backend) → Monitor → Monitor
probe_end check arrival m = elim m.probing [
  | none ↦ m
  | some bs ↦
      first_tick
        (notify_observer (record m { status = results check (arrival bs); probing = none }))
]

-- What the goroutines do to the monitor.
pub data Event : Type 0 where
  backends_set : List Backend → Event
  status_set : List (Text × Status) → Text → Status → Event
  tick : Event
  checked : (Backend → Answer) → (List Backend → List Backend) → Event

-- a tick waits for the probe before it, so it is no step while there is one
unfoldable pub step : Event → Monitor → Monitor
step (backends_set bs) m = set_backends bs m
step (status_set old url s) m = set_backend_status old url s m
step tick m = elim m.probing [ none ↦ probe_begin m | some bs ↦ m ]
step (checked check arrival) m = probe_end check arrival m

unfoldable pub run : List Event → Monitor → Monitor
run [] m = m
run (e ∷ es) m = run es (step e m)
