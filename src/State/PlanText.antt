-- ===== src/State/PlanText.antt =====
-- Changes of variables and conditions: `plan_text_change` of crates/dreamwell-state/src/apply.rs.
use Prim.Native.String
use dreamwell.Common.{
  Bool, true, false, ◌&&◌, Option, none, some, List, [], ◌∷◌, String, if◌then◌else◌, ◌==◌,
  string_eq, opt_map, unwrap_or,
}
use dreamwell.Common.Int.{ℤ}
use dreamwell.State.Types.{
  StateKind, StateOp, variable, condition, add, remove, op_eq, StateEntry, StateChangeRequest,
  FloatOps,
}
use dreamwell.State.Mutation.{
  EntryMutation, insert, update_text, Planner, delete_of, prev_value_of, prev_kind_of, float_of,
  min_of, max_of, unit_of, plan_with_collision,
}

abbrev pub new_text : StateOp → Option String → Option String → String
new_text add value prev = String.◌++◌ (unwrap_or prev "") (unwrap_or value "")
new_text remove value prev = ""
new_text _ value prev = unwrap_or value ""

abbrev pub is_text : StateKind → Bool
is_text variable = true
is_text condition = true
is_text _ = false

module _ {R : Type 0} (ops : FloatOps R) where
  abbrev pub write_text :
      StateChangeRequest R → Option ℤ → Option (StateEntry R) → String → List (EntryMutation R)
  write_text change actor_id none new_value =
      insert actor_id change.kind change.key new_value none none none none ∷ []
  write_text change actor_id (some entry) new_value = update_text entry.id new_value ∷ []

  unfoldable pub plan_text_change : Planner R
  plan_text_change change actor_id existing =
      let prev_value = prev_value_of existing in
      let new_value = new_text change.op change.value prev_value in
      let mutation =
        if (change.op == remove) && (new_value == "")
        then delete_of existing
        else write_text change actor_id existing new_value in
      (
        record {
          target = change.target;
          kind = change.kind;
          key = change.key;
          op = change.op;
          value = some new_value;
          delta = none;
          prev_value = prev_value;
          prev_num = opt_map ops.round (float_of existing);
          prev_float = float_of existing;
          prev_float_min = min_of existing;
          prev_float_max = max_of existing;
          prev_unit = unit_of existing;
          unit = none;
          prev_kind = prev_kind_of existing;
        },
        mutation,
      )

  unfoldable pub plan_text_with_collision : Planner R
  unfolding plan_with_collision plan_text_change
  plan_text_with_collision = plan_with_collision ops is_text plan_text_change plan_text_change
