-- ===== src/State/PlanMeasurement.antt =====
-- Changes of measurements: `plan_measurement_change` of crates/dreamwell-state/src/apply.rs.
use dreamwell.Common.{
  Bool, true, false, Option, none, some, List, [], ◌∷◌, String, if◌then◌else◌, opt_map, or_else,
  and_then, unwrap_or,
}
use dreamwell.Common.Int.{ℤ, pos}
use dreamwell.Common.Decimal.{show_ℤ}
use dreamwell.State.Types.{
  StateKind, StateOp, measurement, set, add, remove, setmin, setmax, step, kind_eq, StateEntry,
  StateChangeRequest, FloatOps, clamp_measurement,
}
use dreamwell.State.Mutation.{
  EntryMutation, insert, update_measurement, Planner, delete_of, prev_value_of, prev_kind_of,
  float_of, min_of, max_of, unit_of, plan_with_collision,
}

-- The new value, bounds and unit, and whether the entry goes.
pub record Reading (R : Type 0) : Type 0 where
  pub float_value : Option R
  pub float_min : Option R
  pub float_max : Option R
  pub unit : Option String
  pub clear : Bool

abbrev pub is_measurement : StateKind → Bool
is_measurement measurement = true
is_measurement _ = false

module _ {R : Type 0} (ops : FloatOps R) where
  abbrev pub float_from_change : StateChangeRequest R → Option R
  float_from_change change =
      or_else change.float_value
        (or_else (and_then change.value ops.parse) (opt_map ops.of_int change.delta))

  -- The reading as it stands.
  abbrev pub kept : Option (StateEntry R) → Reading R
  kept existing = record {
    float_value = float_of existing;
    float_min = min_of existing;
    float_max = max_of existing;
    unit = unit_of existing;
    clear = false;
  }

  abbrev pub reading_for : StateOp → StateChangeRequest R → Option (StateEntry R) → Reading R
  reading_for remove change existing = record {
    float_value = none;
    float_min = none;
    float_max = none;
    unit = none;
    clear = true;
  }
  reading_for setmin change existing =
      let now = kept existing in record now { float_min = float_from_change change }
  reading_for setmax change existing =
      let now = kept existing in record now { float_max = float_from_change change }
  reading_for set change existing =
      let raw = unwrap_or (float_from_change change) ops.zero in
      let value = clamp_measurement ops raw (min_of existing) (max_of existing) in
      let now = kept existing in
      record now { float_value = some value; unit = or_else change.unit (unit_of existing) }
  reading_for add change existing =
      let current = unwrap_or (float_of existing) ops.zero in
      let raw = ops.plus current (ops.of_int (unwrap_or change.delta (pos 0))) in
      let value = clamp_measurement ops raw (min_of existing) (max_of existing) in
      let now = kept existing in record now { float_value = some value }
  reading_for step change existing = kept existing

  abbrev pub write_reading :
      StateChangeRequest R → Option ℤ → Option (StateEntry R) → Reading R → List (EntryMutation R)
  write_reading change actor_id none r =
      insert actor_id measurement change.key "" r.float_value r.float_min r.float_max r.unit ∷ []
  write_reading change actor_id (some entry) r =
      update_measurement entry.id r.float_value r.float_min r.float_max r.unit false ∷ []

  unfoldable pub plan_measurement_change : Planner R
  unfolding clamp_measurement
  plan_measurement_change change actor_id existing =
      let prev_num = opt_map ops.round (float_of existing) in
      let r = reading_for change.op change existing in
      let display_value = or_else (opt_map ops.show r.float_value) (opt_map show_ℤ prev_num) in
      (
        record {
          target = change.target;
          kind = measurement;
          key = change.key;
          op = change.op;
          value = display_value;
          delta = change.delta;
          prev_value = prev_value_of existing;
          prev_num = prev_num;
          prev_float = float_of existing;
          prev_float_min = min_of existing;
          prev_float_max = max_of existing;
          prev_unit = unit_of existing;
          unit = r.unit;
          prev_kind = prev_kind_of existing;
        },
        if r.clear then delete_of existing else write_reading change actor_id existing r,
      )

  unfoldable pub plan_measurement_with_collision : Planner R
  unfolding plan_with_collision plan_measurement_change
  plan_measurement_with_collision =
      plan_with_collision ops is_measurement plan_measurement_change plan_measurement_change
