-- ===== src/Service/Switch.antt =====
-- routing-service/internal/server/admin.go: the calls that turn methods of the pipeline off and on. The
-- hook of the caller is the list of the sets that it was told, the latest first.
pub mod Answered
use trino_goway.Base.{
  Bool, true, false, not, Option, none, some, List, [], ◌∷◌, if◌then◌else◌, Text, contains,
}
use trino_goway.Engine.Pipeline.{Pipeline, disable_method, enable_method, disabled_methods}

pub record AdminServer : Type 0 where
  pub pipeline : Pipeline
  pub told : Option (List (List Text))

pub data Message : Type 0 where
  now_disabled already_disabled unknown_type now_enabled not_disabled : Message

pub record SwitchAnswer : Type 0 where
  pub ok : Bool
  pub message : Message
  pub disabled_set : List Text

unfoldable pub notify : List Text → AdminServer → AdminServer
notify set a = elim a.told [ none ↦ a | some sets ↦ record a { told = some (set ∷ sets) } ]

-- DisableMethod
unfoldable pub answer_disable : Text → AdminServer → AdminServer × SwitchAnswer
unfolding notify
answer_disable t a =
    let before = contains (disabled_methods a.pipeline) t in
    let p = disable_method t a.pipeline in
    let set = disabled_methods p in
    let message =
      if before
      then already_disabled
      else if not (contains set t)
      then unknown_type
      else now_disabled in
    (
      notify set (record a { pipeline = p }),
      record { ok = true; message = message; disabled_set = set },
    )

-- EnableMethod
unfoldable pub answer_enable : Text → AdminServer → AdminServer × SwitchAnswer
unfolding notify
answer_enable t a =
    let was_disabled = contains (disabled_methods a.pipeline) t in
    let p = enable_method t a.pipeline in
    let set = disabled_methods p in
    (
      notify set (record a { pipeline = p }),
      record {
        ok = true;
        message = if not was_disabled then not_disabled else now_enabled;
        disabled_set = set;
      },
    )

-- ListDisabled
abbrev pub list_disabled : AdminServer → List Text
list_disabled a = disabled_methods a.pipeline
