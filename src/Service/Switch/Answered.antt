-- ===== src/Service/Switch/Answered.antt =====
-- What the calls of the switches answer.
use trino_goway.Base.{
  ◌≡◌, refl, true, Option, none, some, List, [], ◌∷◌, arith, if◌then◌else◌, Text, contains,
  Option-cases, inl, inr,
}
use trino_goway.Engine.Method.{RoutingMethod, provider, disabled}
use trino_goway.Engine.Pipeline.{
  Pipeline, load, type_of, is_disabled, disable_one, update_first, update_method, disable_method,
  disabled_types, disabled_methods,
}
use trino_goway.Service.Switch.{
  AdminServer, now_disabled, already_disabled, unknown_type, answer_disable, notify,
}

unfoldable pub types : List RoutingMethod → List Text
types [] = []
types (m ∷ ms) = type_of m ∷ types ms

type_of-disable_one : (m : RoutingMethod) → type_of (disable_one m) ≡ type_of m
unfolding type_of
type_of-disable_one (provider m) = refl
type_of-disable_one (disabled m) = refl

is_disabled-disable_one : (m : RoutingMethod) → is_disabled (disable_one m) ≡ true
unfolding is_disabled
is_disabled-disable_one (provider m) = refl
is_disabled-disable_one (disabled m) = refl

abbrev set_after : List RoutingMethod → Option (List RoutingMethod) → List Text
set_after ms none = disabled_types ms
set_after ms (some l) = disabled_types l

contains-set_after :
    (t : Text) (ms : List RoutingMethod)
    → contains (set_after ms (update_first t disable_one ms)) t ≡ contains (types ms) t
unfolding update_first disabled_types types contains
contains-set_after t [] = refl
contains-set_after t (m ∷ ms) = elim (Option-cases (update_first t disable_one ms)) [
  | inl e ↦
      ground (arith, e, contains-set_after t ms, type_of-disable_one m, is_disabled-disable_one m)
  | inr (l, e) ↦
      ground (arith, e, contains-set_after t ms, type_of-disable_one m, is_disabled-disable_one m)
]

disabled_methods-disable_method :
    (t : Text) (p : Pipeline)
    → disabled_methods (disable_method t p)
      ≡ set_after (load p) (update_first t disable_one (load p))
unfolding disable_method update_method disabled_methods
disabled_methods-disable_method t p = elim (Option-cases (update_first t disable_one (load p))) [
  | inl e ↦ rw (e, update_method) refl
  | inr (l, e) ↦ rw (e, update_method) refl
]

pipeline-notify : (set : List Text) (a : AdminServer) → (notify set a).pipeline ≡ a.pipeline
unfolding notify
pipeline-notify set a = elim (Option-cases a.told) [
  | inl e ↦ rw (e, notify) refl
  | inr (sets, e) ↦ rw (e, notify) refl
]

-- After a call that turns a type off, the set that it answers has the type exactly when a method of the
-- pipeline is of that type; the message says that there is none, that one was off before, or that one is
-- off now; and the set is that of the pipeline that is left.
pub answered :
    (t : Text) (a : AdminServer)
    → let (after, answer) = answer_disable t a in
      (contains answer.disabled_set t ≡ contains (types (load a.pipeline)) t)
      × (answer.disabled_set ≡ disabled_methods after.pipeline)
      × (answer.message ≡ (
          if contains (disabled_methods a.pipeline) t
          then already_disabled
          else if contains (types (load a.pipeline)) t
          then now_disabled
          else unknown_type))
unfolding answer_disable
answered t a =
    let e : contains (disabled_methods (disable_method t a.pipeline)) t
        ≡ contains (types (load a.pipeline)) t =
      rw (disabled_methods-disable_method t a.pipeline) (contains-set_after t (load a.pipeline)) in
    (
      e,
      rw
          (pipeline-notify (disabled_methods (disable_method t a.pipeline))
            (record a { pipeline = disable_method t a.pipeline }))
          refl,
      ground arith,
    )
