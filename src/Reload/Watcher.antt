-- ===== src/Reload/Watcher.antt =====
-- routing-service/internal/reload/watcher.go. What the file holds at each of the two reads of a
-- reload is an argument, as are the hash of the bytes and yaml.Unmarshal. The sinks are the calls made
-- to them, `none` for a nil callback; the hook of the tests is left out, and the log but its audit
-- events. Counters are 64-bit patterns.
pub mod Outcome
pub mod Debounce
use trino_goway.Base.{
  ℕ, ◌+◌, ◌%◌, ◌^◌, Bool, true, false, ◌||◌, Option, none, some, List, [], ◌∷◌, if◌then◌else◌, Text,
}
use trino_goway.Engine.Method.{RoutingMethod}
use trino_goway.Engine.Pipeline.{Pipeline, swap}
use trino_goway.Engine.Registry.{Registry, MethodConfig, build, Built, built, refused}
use trino_goway.Reload.Config.{Config, load}

-- an audit event: the result, the old and the new hash
pub record Audit : Type 0 where
  pub is_ok : Bool
  pub old_hash : Text
  pub new_hash : Text

pub record Watcher : Type 0 where
  pub pipeline : Pipeline
  pub registry : Registry
  pub reload_success_total : ℕ
  pub reload_error_total : ℕ
  pub reload_count : ℕ
  pub last_hash : Option Text
  pub audits : List Audit
  pub reload_sink : Option (List Bool)
  pub version_sink : Option (List Text)

abbrev pub u64 : ℕ → ℕ
u64 n = n % 2 ^ 64

unfoldable pub new : Pipeline → Registry → Watcher
new p r = record {
  pipeline = p;
  registry = r;
  reload_success_total = 0;
  reload_error_total = 0;
  reload_count = 0;
  last_hash = none;
  audits = [];
  reload_sink = none;
  version_sink = none;
}

abbrev pub old_hash : Watcher → Text
old_hash w = elim w.last_hash [ none ↦ [] | some h ↦ h ]

abbrev pub notify {ℓ} : {A : Type ℓ} → Option (List A) → A → Option (List A)
notify none a = none
notify (some l) a = some (a ∷ l)

-- fail
unfoldable pub fail : Text → Watcher → Watcher
fail new_hash w = record w {
  reload_error_total = u64 (w.reload_error_total + 1);
  audits = record { is_ok = false; old_hash = old_hash w; new_hash = new_hash } ∷ w.audits;
  reload_sink = notify w.reload_sink false;
}

-- step 4 of reload
unfoldable pub apply : Text → List RoutingMethod → Watcher → Watcher
apply new_hash ms w = record w {
  pipeline = swap w.pipeline ms;
  last_hash = some new_hash;
  reload_success_total = u64 (w.reload_success_total + 1);
  audits = record { is_ok = true; old_hash = old_hash w; new_hash = new_hash } ∷ w.audits;
  reload_sink = notify w.reload_sink true;
  version_sink = notify w.version_sink new_hash;
}

abbrev pub add_built : Built → Option (List RoutingMethod) → Option (List RoutingMethod)
add_built (refused e) l = none
add_built (built m) none = none
add_built (built m) (some ms) = some (m ∷ ms)

-- step 3 of reload: `none` if any method is refused
unfoldable pub build_all : Registry → List MethodConfig → Option (List RoutingMethod)
build_all r [] = some []
build_all r (c ∷ cs) = add_built (build r c) (build_all r cs)

-- the deferred count
abbrev counted : Watcher → Watcher
counted w = record w { reload_count = u64 (w.reload_count + 1) }

-- the bits of a fsnotify event that the loop tests
pub record FileEvent : Type 0 where
  pub is_write : Bool
  pub is_create : Bool
  pub is_rename : Bool

-- What the loop's select takes: a file event, the end of a channel, an error of the watcher, the end
-- of the context, or the timer, with what the two reads of the reload find.
pub data Event : Type 0 where
  file_event : FileEvent → Event
  watch_error : Event
  closed : Event
  cancelled : Event
  timer_fired : Option Text → Option Text → Event

pub record Loop : Type 0 where
  pub watcher : Watcher
  pub is_armed : Bool

abbrev pub wants_reload : FileEvent → Bool
wants_reload e = e.is_write || e.is_create || e.is_rename

module _ (hash_bytes : Text → Text) (unmarshal : Text → Config → Option Config) where
  abbrev build_and_swap : Text → Config → Watcher → Watcher
  build_and_swap h cfg w = elim (build_all w.registry cfg.methods) [
    | none ↦ fail h w
    | some ms ↦ apply h ms w
  ]

  unfoldable pub reload : Option Text → Option Text → Watcher → Watcher
  reload first_read second_read w = counted (elim first_read [
    | none ↦ fail [] w
    | some bytes ↦ elim (load unmarshal second_read) [
      | none ↦ fail (hash_bytes bytes) w
      | some cfg ↦ build_and_swap (hash_bytes bytes) cfg w
    ]
  ])

  -- the loop over the events that the select takes; a timer that is not armed does not fire
  unfoldable pub loop : List Event → Loop → Loop
  loop [] s = s
  loop (file_event e ∷ es) s = loop es (if wants_reload e then record s { is_armed = true } else s)
  loop (watch_error ∷ es) s = loop es s
  loop (closed ∷ es) s = s
  loop (cancelled ∷ es) s = s
  loop (timer_fired a b ∷ es) s =
      loop es
        (if s.is_armed then record { watcher = reload a b s.watcher; is_armed = false } else s)
