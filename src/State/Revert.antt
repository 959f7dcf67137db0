-- ===== src/State/Revert.antt =====
-- Undoing applied changes: `plan_revert_changes` of crates/dreamwell-state/src/apply.rs.
use dreamwell.Common.{
  Bool, ◌||◌, not, Option, none, some, List, [], ◌∷◌, ◌++◌, String, if◌then◌else◌, ◌==◌, string_eq,
  opt_map, or_else, is_some, reverse, unwrap_or,
}
use dreamwell.Common.Int.{ℤ}
use dreamwell.State.Types.{
  StateKind, variable, condition, measurement, sequence, kind_eq, SessionActor, AppliedStateChange,
  FloatOps,
}
use dreamwell.State.Resolve.{normalize_target, resolve_actor_id}

pub data RevertMutation (R : Type 0) : Type 0 where
  -- actor, kind, key, value
  restore_structured : Option ℤ → StateKind → String → String → RevertMutation R
  restore_text : Option ℤ → StateKind → String → String → RevertMutation R
  -- actor, kind, key
  delete_by_key : Option ℤ → StateKind → String → RevertMutation R
  -- actor, key, float value, float minimum, float maximum, unit
  restore_measurement :
      Option ℤ → String → Option R → Option R → Option R → Option String → RevertMutation R

-- `state_kind_str`.
abbrev pub state_kind_str : StateKind → String
state_kind_str measurement = "measurement"
state_kind_str condition = "condition"
state_kind_str variable = "variable"
state_kind_str sequence = "sequence"

-- The actor that a change was made to.
abbrev pub revert_target : String → List SessionActor → Option ℤ
revert_target target actors =
    if normalize_target target == "world" then none else resolve_actor_id target actors

module _ {R : Type 0} where
  abbrev pub measurement_had_prior : AppliedStateChange R → Bool
  measurement_had_prior change = is_some change.prev_float || is_some change.prev_num

  abbrev pub replaced_kind : AppliedStateChange R → Option StateKind
  replaced_kind change = elim change.prev_kind [
    | none ↦ none
    | some prev ↦ if prev == change.kind then none else some prev
  ]

  abbrev pub delete_slot : AppliedStateChange R → Option ℤ → RevertMutation R
  delete_slot change actor_id = delete_by_key actor_id change.kind change.key

module _ {R : Type 0} (ops : FloatOps R) where
  abbrev pub revert_measurement : AppliedStateChange R → Option ℤ → RevertMutation R
  revert_measurement change actor_id =
      restore_measurement actor_id change.key
        (or_else change.prev_float (opt_map ops.of_int change.prev_num)) change.prev_float_min
        change.prev_float_max change.prev_unit

  -- How a value of a kind other than a measurement is written back.
  abbrev pub restore_value : Option ℤ → StateKind → String → String → RevertMutation R
  restore_value actor_id sequence key value = restore_structured actor_id sequence key value
  restore_value actor_id kind key value = restore_text actor_id kind key value

  abbrev pub revert_replaced_kind :
      AppliedStateChange R → Option ℤ → StateKind → List (RevertMutation R)
  revert_replaced_kind change actor_id measurement =
      if measurement_had_prior change then revert_measurement change actor_id ∷ [] else []
  revert_replaced_kind change actor_id prev_kind = elim change.prev_value [
    | none ↦ []
    | some value ↦
        if value == "" then [] else restore_value actor_id prev_kind change.key value ∷ []
  ]

  abbrev pub revert_same_kind : StateKind → AppliedStateChange R → Option ℤ → RevertMutation R
  revert_same_kind measurement change actor_id =
      if measurement_had_prior change
      then revert_measurement change actor_id
      else if not (unwrap_or change.prev_value "" == "")
      then restore_structured actor_id change.kind change.key (unwrap_or change.prev_value "")
      else delete_slot change actor_id
  revert_same_kind sequence change actor_id = elim change.prev_value [
    | none ↦ delete_slot change actor_id
    | some prev ↦
        if prev == ""
        then delete_slot change actor_id
        else restore_structured actor_id change.kind change.key prev
  ]
  revert_same_kind _ change actor_id = elim change.prev_value [
    | none ↦ delete_slot change actor_id
    | some prev ↦ restore_text actor_id change.kind change.key prev
  ]

  -- The round of the loop for one change.
  unfoldable pub revert_change : List SessionActor → AppliedStateChange R → List (RevertMutation R)
  unfolding resolve_actor_id
  revert_change actors change =
      let actor_id = revert_target change.target actors in
      elim (replaced_kind change) [
        | some prev_kind ↦
            delete_slot change actor_id ∷ revert_replaced_kind change actor_id prev_kind
        | none ↦ revert_same_kind change.kind change actor_id ∷ []
      ]

  unfoldable pub revert_all :
      List SessionActor → List (AppliedStateChange R) → List (RevertMutation R)
  unfolding revert_change
  revert_all actors [] = []
  revert_all actors (change ∷ changes) = revert_change actors change ++ revert_all actors changes

  unfoldable pub plan_revert_changes :
      List (AppliedStateChange R) → List SessionActor → List (RevertMutation R)
  unfolding revert_all
  plan_revert_changes changes actors = revert_all actors (reverse changes)
