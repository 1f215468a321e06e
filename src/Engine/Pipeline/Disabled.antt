-- ===== src/Engine/Pipeline/Disabled.antt =====
-- What a method that is switched off decides.
use trino_goway.Base.{
  ◌≡◌, IsDistinct, refl, Bool, true, false, not, ◌&&◌, ◌||◌, List, [], ◌∷◌, arith, Text, All,
  text_eq, text_eq_iff, contains, map,
}
use trino_goway.Engine.Method.{RouteInput, RoutingMethod, provider, disabled}
use trino_goway.Engine.Pipeline.{
  Pipeline, load, result_loop, evaluate_result, is_disabled, type_of, disable_one, enable_one,
  update_first, update_method, disable_method, enable_method,
}
use trino_goway.Engine.Pipeline.Switches.{updated, type_of-disable_one}

-- Each method of the list that has the type is off.
abbrev all_off : Text → List RoutingMethod → Bool
all_off name [] = true
all_off name (m ∷ ms) = (not (text_eq (type_of m) name) || is_disabled m) && all_off name ms

all_off-absent :
    (name : Text) (ms : List RoutingMethod)
    → contains (map type_of ms) name ≡ false
    → all_off name ms ≡ true
unfolding contains
all_off-absent name [] h = refl
all_off-absent name (m ∷ ms) h = ground (arith, all_off-absent name ms)

is_disabled-disable_one : (m : RoutingMethod) → is_disabled (disable_one m) ≡ true
unfolding is_disabled
is_disabled-disable_one (provider m) = refl
is_disabled-disable_one (disabled m) = refl

all_off-updated :
    (name : Text) (ms : List RoutingMethod)
    → IsDistinct (map type_of ms)
    → all_off name (updated name disable_one ms) ≡ true
unfolding update_first
all_off-updated name [] d = refl
all_off-updated name (m ∷ ms) d = ground (
  arith,
  text_eq_iff (type_of m) name,
  all_off-absent name ms,
  is_disabled-disable_one m,
  all_off-updated name ms d.1,
)

result_loop-all_off :
    (name dg : Text) (input : RouteInput) (e : Bool) (ms : List RoutingMethod)
    → all_off name ms ≡ true
    → (result_loop dg input e ms).decided ≡ true
    → text_eq (result_loop dg input e ms).method_type name ≡ false
unfolding result_loop
result_loop-all_off name dg input e [] h k = cc
result_loop-all_off name dg input e (m ∷ ms) h k =
    ground
      (arith, result_loop-all_off name dg input e ms, result_loop-all_off name dg input true ms)

load-disable_method :
    (name : Text) (p : Pipeline)
    → IsDistinct (map type_of (load p))
    → all_off name (load (disable_method name p)) ≡ true
unfolding disable_method update_method
load-disable_method name p d = ground (arith, all_off-updated name (load p) d)

-- A call of DisableMethod or EnableMethod.
pub data Switch : Type 0 where
  turned_off turned_on : Text → Switch

abbrev pub switched : Switch → Pipeline → Pipeline
switched (turned_off n) p = disable_method n p
switched (turned_on n) p = enable_method n p

abbrev pub switched_all : List Switch → Pipeline → Pipeline
switched_all [] p = p
switched_all (s ∷ later) p = switched_all later (switched s p)

-- the call does not turn this type on
abbrev pub leaves_off : Text → Switch → Bool
leaves_off name (turned_off n) = true
leaves_off name (turned_on n) = not (text_eq n name)

type_of-enable_one : (m : RoutingMethod) → type_of (enable_one m) ≡ type_of m
unfolding type_of
type_of-enable_one (provider m) = refl
type_of-enable_one (disabled m) = refl

all_off-disabled :
    (name n : Text) (ms : List RoutingMethod)
    → all_off name ms ≡ true
    → all_off name (updated n disable_one ms) ≡ true
unfolding update_first
all_off-disabled name n [] h = refl
all_off-disabled name n (m ∷ ms) h =
    ground (arith, type_of-disable_one m, is_disabled-disable_one m, all_off-disabled name n ms)

all_off-enabled :
    (name n : Text) (ms : List RoutingMethod)
    → text_eq n name ≡ false
    → all_off name ms ≡ true
    → all_off name (updated n enable_one ms) ≡ true
unfolding update_first
all_off-enabled name n [] e h = refl
all_off-enabled name n (m ∷ ms) e h =
    ground (arith, text_eq_iff (type_of m) n, type_of-enable_one m, all_off-enabled name n ms e)

all_off-switched_all :
    (name : Text) (later : List Switch) (p : Pipeline)
    → All (λ s. leaves_off name s ≡ true) later
    → all_off name (load p) ≡ true
    → all_off name (load (switched_all later p)) ≡ true
unfolding disable_method enable_method update_method
all_off-switched_all name [] p l h = h
all_off-switched_all name (turned_off n ∷ later) p (k, l) h =
    all_off-switched_all name later (disable_method n p) l
      (ground (arith, all_off-disabled name n (load p) h))
all_off-switched_all name (turned_on n ∷ later) p (k, l) h =
    all_off-switched_all name later (enable_method n p) l
      (ground (arith, all_off-enabled name n (load p) (ground arith) h))

-- In a pipeline with one method for each type, a method that was switched off does not decide after any
-- further calls of DisableMethod and EnableMethod that do not turn it on again: the deciding type of an
-- answer is another one. A swap of the list of methods, as a reload makes it, is none of these calls.
pub disabled_never_decides :
    (name : Text) (p : Pipeline) (later : List Switch) (input : RouteInput)
    → IsDistinct (map type_of (load p))
    → All (λ s. leaves_off name s ≡ true) later
    → (evaluate_result (switched_all later (disable_method name p)) input).decided ≡ true
    → text_eq (evaluate_result (switched_all later (disable_method name p)) input).method_type name
      ≡ false
unfolding evaluate_result
disabled_never_decides name p later input d l =
    result_loop-all_off name (switched_all later (disable_method name p)).default_group input false
      (load (switched_all later (disable_method name p)))
      (all_off-switched_all name later (disable_method name p) l (load-disable_method name p d))
