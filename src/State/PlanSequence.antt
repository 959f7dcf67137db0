-- ===== src/State/PlanSequence.antt =====
-- Changes of sequences: `plan_sequence_change` of crates/dreamwell-state/src/apply.rs.
use dreamwell.Common.{
  Bool, true, false, Option, none, some, List, [], ◌∷◌, String, opt_map, and_then, unwrap_or,
}
use dreamwell.Common.Int.{ℤ, pos}
use dreamwell.Sequence
use dreamwell.Sequence.{Json, SequencePayload, encode, decode}
use dreamwell.State.Types.{
  StateKind, StateOp, sequence, remove, step, StateEntry, StateChangeRequest, FloatOps,
}
use dreamwell.State.Mutation.{
  EntryMutation, insert, update_sequence, Planner, delete_of, prev_value_of, prev_kind_of,
  plan_with_collision,
}

-- The payload that stands in for a value that cannot be read.
abbrev pub fallback : SequencePayload
fallback = record { items = "step" ∷ []; position = pos 0; loop = false }

abbrev pub is_sequence : StateKind → Bool
is_sequence sequence = true
is_sequence _ = false

module _ {R : Type 0} (json : Json) where
  abbrev pub set_text : StateChangeRequest R → Option String
  set_text change = opt_map (encode json) (
      Sequence.new (unwrap_or change.sequence_items []) change.sequence_position
        (unwrap_or change.sequence_loop false))

  -- The new value, if there is one.
  abbrev pub encoded_for : StateOp → StateChangeRequest R → Option (StateEntry R) → Option String
  encoded_for remove change existing = none
  encoded_for step change none = none
  encoded_for step change (some entry) =
      let seq = unwrap_or (decode json entry.value) fallback in
      some (encode json (Sequence.step seq (unwrap_or change.delta (pos 1))).0)
  encoded_for _ change existing = set_text change

  abbrev pub write_sequence :
      StateOp
      → StateChangeRequest R
      → Option ℤ
      → Option (StateEntry R)
      → Option String
      → List (EntryMutation R)
  write_sequence remove change actor_id existing encoded = delete_of existing
  write_sequence _ change actor_id existing none = []
  write_sequence _ change actor_id (some entry) (some value) = update_sequence entry.id value ∷ []
  write_sequence _ change actor_id none (some value) =
      insert actor_id sequence change.key value none none none none ∷ []

  unfoldable pub plan_sequence_change : Planner R
  unfolding Sequence.new Sequence.step encode decode
  plan_sequence_change change actor_id existing =
      let decoded = and_then (prev_value_of existing) (decode json) in
      let encoded = encoded_for change.op change existing in
      (
        record {
          target = change.target;
          kind = sequence;
          key = change.key;
          op = change.op;
          value = encoded;
          delta = change.delta;
          prev_value = prev_value_of existing;
          prev_num = opt_map (λ (s : SequencePayload). s.position) decoded;
          prev_float = none;
          prev_float_min = none;
          prev_float_max = none;
          prev_unit = none;
          unit = none;
          prev_kind = prev_kind_of existing;
        },
        write_sequence change.op change actor_id existing encoded,
      )

  unfoldable pub plan_sequence_with_collision : FloatOps R → Planner R
  unfolding plan_with_collision plan_sequence_change
  plan_sequence_with_collision ops =
      plan_with_collision ops is_sequence plan_sequence_change plan_sequence_change
