-- ===== src/State/Mutation.antt =====
-- What a planned change asks of the table, and what a plan holds: crates/dreamwell-state/src/apply.rs.
use dreamwell.Common.{
  Bool, Option, none, some, List, [], ◌∷◌, ◌++◌, String, if◌then◌else◌, ◌==◌, opt_map, or_else,
}
use dreamwell.Common.Int.{ℤ}
use dreamwell.State.Types.{
  StateKind, variable, condition, measurement, sequence, kind_eq, StateEntry, StateChangeRequest,
  AppliedStateChange, FloatOps,
}

pub data EntryMutation (R : Type 0) : Type 0 where
  -- actor, kind, key, value, float value, float minimum, float maximum, unit
  insert :
      Option ℤ
      → StateKind
      → String
      → String
      → Option R
      → Option R
      → Option R
      → Option String
      → EntryMutation R
  update_text : ℤ → String → EntryMutation R
  -- entry, float value, float minimum, float maximum, unit, clear
  update_measurement : ℤ → Option R → Option R → Option R → Option String → Bool → EntryMutation R
  update_sequence : ℤ → String → EntryMutation R
  update_kind : ℤ → StateKind → EntryMutation R
  delete : ℤ → EntryMutation R

pub record VivifyActor : Type 0 where
  pub name : String
  pub role : String

pub record ApplyPlan (R : Type 0) : Type 0 where
  pub vivify : List VivifyActor
  pub mutations : List (EntryMutation R)
  pub audit : List (AppliedStateChange R)

pub data KindFamily : Type 0 where
  text measurements sequences : KindFamily

abbrev pub kind_family : StateKind → KindFamily
kind_family variable = text
kind_family condition = text
kind_family measurement = measurements
kind_family sequence = sequences

-- The planner of one change: the audit record, and the mutations.
abbrev pub Planner : Type 0 → Type 0
Planner R =
    StateChangeRequest R
    → Option ℤ
    → Option (StateEntry R)
    → AppliedStateChange R × List (EntryMutation R)

module _ {R : Type 0} where
  -- `existing.map(|entry| Delete { entry_id: entry.id }).into_iter().collect()`
  abbrev pub delete_of : Option (StateEntry R) → List (EntryMutation R)
  delete_of none = []
  delete_of (some entry) = delete entry.id ∷ []

  abbrev pub prev_value_of : Option (StateEntry R) → Option String
  prev_value_of none = none
  prev_value_of (some e) = some e.value

  abbrev pub prev_kind_of : Option (StateEntry R) → Option StateKind
  prev_kind_of none = none
  prev_kind_of (some e) = some e.kind

  abbrev pub float_of : Option (StateEntry R) → Option R
  float_of none = none
  float_of (some e) = e.float_value

  abbrev pub min_of : Option (StateEntry R) → Option R
  min_of none = none
  min_of (some e) = e.float_min

  abbrev pub max_of : Option (StateEntry R) → Option R
  max_of none = none
  max_of (some e) = e.float_max

  abbrev pub unit_of : Option (StateEntry R) → Option String
  unit_of none = none
  unit_of (some e) = e.unit

module _ {R : Type 0} (ops : FloatOps R) where
  -- The second part of `plan_with_collision`: the entry has another family and is replaced.
  abbrev pub with_replaced : StateEntry R → AppliedStateChange R → AppliedStateChange R
  with_replaced existing applied = record applied {
    prev_kind = some existing.kind;
    prev_value = some existing.value;
    prev_num = opt_map ops.round existing.float_value;
    prev_float = existing.float_value;
    prev_float_min = existing.float_min;
    prev_float_max = existing.float_max;
    prev_unit = existing.unit;
    unit = or_else applied.unit existing.unit;
  }

  unfoldable pub plan_with_collision :
      (StateKind → Bool)
      → Planner R
      → Planner R
      → StateChangeRequest R
      → Option ℤ
      → Option (StateEntry R)
      → AppliedStateChange R × List (EntryMutation R)
  plan_with_collision same_family plan_same plan_new change actor_id none =
      plan_new change actor_id none
  plan_with_collision same_family plan_same plan_new change actor_id (some existing) =
      let (applied, mutations) = plan_same change actor_id (some existing) in
      let (fresh, new_mutations) = plan_new change actor_id none in
      if same_family existing.kind
      then (
        applied,
        if existing.kind == change.kind
            then mutations
            else mutations ++ update_kind existing.id change.kind ∷ [],
      )
      else (with_replaced existing fresh, delete existing.id ∷ new_mutations)
