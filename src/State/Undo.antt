-- ===== src/State/Undo.antt =====
-- Reverting an applied change: what plan_revert_changes and persist_state_revert make of the
-- audit record of one change to an entry that exists.
use dreamwell.Common.{
  ℕ, ◌≡◌, ◌≢◌, ◌⊎◌, refl, ap, ◌∙◌, true, false, Option, some, List, [], ◌∷◌, String, any, ◌==◌,
  ==_iff, string_eq, option_eq, Option-cases, inl, inr, arith, and_then, or_else, is_some,
}
use dreamwell.Common.Int.{ℤ, int_eq}
use dreamwell.Sequence.{Json}
use dreamwell.State.Types.{
  StateKind, variable, condition, measurement, sequence, remove as op_remove, kind_eq, op_eq,
  StateEntry, StateChangeRequest, FloatOps, SessionActor,
}
use dreamwell.State.Mutation.{
  kind_family, text, measurements, sequences, update_text, update_measurement, update_sequence,
}
use dreamwell.State.PlanText.{plan_text_with_collision, new_text}
use dreamwell.State.PlanMeasurement.{plan_measurement_with_collision, reading_for}
use dreamwell.State.PlanSequence.{plan_sequence_with_collision, encoded_for}
use dreamwell.State.Plan.{plan_family}
use dreamwell.State.Revert.{
  revert_change, revert_target, restore_text, restore_measurement, restore_structured,
}
use dreamwell.State.Table.{Table, update_where, persist_mutations, persist_reverts}
use dreamwell.State.Rows.{
  SameRows, IsUnique, at_slot, at_slot_self, update_where_twice, update_where_once,
  any-update_where_id,
}

-- What the revert relies on in the entry: a measurement has a value and no text, a sequence has
-- a text. Every measurement and sequence that the planner writes is such.
module _ {R : Type 0} where
  abbrev pub IsRestorable : StateEntry R → StateKind → Type 0
  IsRestorable e measurement = (is_some e.float_value ≡ true) × (e.value ≡ "")
  IsRestorable e sequence = e.value ≢ ""
  IsRestorable e _ = Unit

module _ {R : Type 0} (ops : FloatOps R) (json : Json) (source : ℤ) (now later : ℕ) where
  -- Apply one planned change to the table, and revert its audit record.
  abbrev pub apply_and_revert :
      List SessionActor
      → StateChangeRequest R
      → Option ℤ
      → Option (StateEntry R)
      → ℤ
      → Table R
      → Option (Table R)
  apply_and_revert actors change actor_id existing scope t =
      let (applied, mutations) =
        plan_family ops json (kind_family change.kind) change actor_id existing in
      and_then (persist_mutations scope source now [] mutations t)
        (persist_reverts scope later (revert_change ops actors applied))

  module _ (actors : List SessionActor) (change : StateChangeRequest R) (e : StateEntry R)
      (t : Table R) (unique : IsUnique e t.rows) (key : change.key ≡ e.key)
      (kind : change.kind ≡ e.kind) (target : revert_target change.target actors ≡ e.actor_id) where
    text_mutations :
        (e.kind ≡ variable) ⊎ (e.kind ≡ condition)
        → change.op ≢ op_remove
        → (plan_text_with_collision ops change e.actor_id (some e)).1
          ≡ update_text e.id (new_text change.op change.value (some e.value)) ∷ []
    unfolding plan_text_with_collision
    text_mutations k o = ground (arith, ==_iff e.kind change.kind, ==_iff change.op op_remove)

    text_revert :
        (e.kind ≡ variable) ⊎ (e.kind ≡ condition)
        → revert_change ops actors (plan_text_with_collision ops change e.actor_id (some e)).0
          ≡ restore_text e.actor_id e.kind e.key e.value ∷ []
    unfolding plan_text_with_collision revert_change
    text_revert k = ground (arith, ==_iff e.kind change.kind)

    measurement_mutations :
        e.kind ≡ measurement
        → change.op ≢ op_remove
        → let r = reading_for ops change.op change (some e) in
          (plan_measurement_with_collision ops change e.actor_id (some e)).1
          ≡ update_measurement e.id r.float_value r.float_min r.float_max r.unit false ∷ []
    unfolding plan_measurement_with_collision
    measurement_mutations k o = ground (arith, ==_iff e.kind change.kind)

    measurement_revert :
        e.kind ≡ measurement
        → is_some e.float_value ≡ true
        → revert_change ops actors
            (plan_measurement_with_collision ops change e.actor_id (some e)).0
          ≡ restore_measurement e.actor_id e.key e.float_value e.float_min e.float_max e.unit ∷ []
    unfolding plan_measurement_with_collision revert_change
    measurement_revert k v = ground (arith, ==_iff e.kind change.kind)

    sequence_mutations :
        e.kind ≡ sequence
        → change.op ≢ op_remove
        → ((plan_sequence_with_collision json ops change e.actor_id (some e)).1 ≡ [])
          ⊎ ((value : String) × ((plan_sequence_with_collision json ops change e.actor_id
                  (some e)).1
                ≡ update_sequence e.id value ∷ []))
    unfolding plan_sequence_with_collision
    sequence_mutations k o = elim (Option-cases (encoded_for json change.op change (some e))) [
      | inl lost ↦ inl (ground (arith, ==_iff e.kind change.kind))
      | inr (value, found) ↦ inr (value, ground (arith, ==_iff e.kind change.kind))
    ]

    sequence_revert :
        e.kind ≡ sequence
        → e.value ≢ ""
        → revert_change ops actors
            (plan_sequence_with_collision json ops change e.actor_id (some e)).0
          ≡ restore_structured e.actor_id e.kind e.key e.value ∷ []
    unfolding plan_sequence_with_collision revert_change
    sequence_revert k v = ground (arith, ==_iff e.kind change.kind, ==_iff e.value "")

    -- The revert of a text puts the old value back.
    text_undone :
        (v : String)
        → and_then
            (persist_mutations e.game_id source now [] (update_text e.id v ∷ []) t)
            (persist_reverts e.game_id later (restore_text e.actor_id e.kind e.key e.value ∷ []))
          ≡ some (record t {
            rows =
                update_where
                  (at_slot e)
                  (λ row. record row { value = e.value; updated_at = later })
                  (update_where
                    (λ row. row.id == e.id)
                    (λ row. record row { value = v; source_turn = source; updated_at = now })
                    t.rows);
          })
    unfolding persist_mutations persist_reverts
    text_undone v = refl

    abbrev Undone : Option (Table R) → Type 0
    Undone o = (u : Table R) × (o ≡ some u) × SameRows u.rows t.rows

    undo_text :
        kind_family change.kind ≡ text
        → (e.kind ≡ variable) ⊎ (e.kind ≡ condition)
        → change.op ≢ op_remove
        → Undone (apply_and_revert actors change e.actor_id (some e) e.game_id t)
    undo_text f k o =
        rw (f, text_mutations k o, text_revert k)
          (_, text_undone _, update_where_twice e _ _ t.rows unique (at_slot_self e) refl)

    module _ (present : any (at_slot e) t.rows ≡ true) where
      undo_measurement :
          kind_family change.kind ≡ measurements
          → e.kind ≡ measurement
          → is_some e.float_value ≡ true
          → e.value ≡ ""
          → change.op ≢ op_remove
          → Undone (apply_and_revert actors change e.actor_id (some e) e.game_id t)
      unfolding persist_mutations persist_reverts
      undo_measurement f k v w o =
          let r = reading_for ops change.op change (some e) in
          let f' : StateEntry R → StateEntry R = λ row. record row {
            float_value = or_else r.float_value row.float_value;
            float_min = r.float_min;
            float_max = r.float_max;
            unit = or_else r.unit row.unit;
            source_turn = source;
            updated_at = now;
          } in
          let kept = any-update_where_id e f' t.rows unique (at_slot_self e) present in
          let g : StateEntry R → StateEntry R = λ row. record row {
            value = "";
            float_value = e.float_value;
            float_min = e.float_min;
            float_max = e.float_max;
            unit = e.unit;
            updated_at = later;
          } in
          let done : Table R = record t {
            rows = update_where (at_slot e) g (update_where (λ row. row.id == e.id) f' t.rows);
          } in
          rw (f, measurement_mutations k o, measurement_revert k v)
            (
              done,
              rw (← k) (rw kept refl),
              update_where_twice e f' g t.rows unique (at_slot_self e) (ground (arith, w)),
            )

      undo_sequence :
          kind_family change.kind ≡ sequences
          → e.kind ≡ sequence
          → e.value ≢ ""
          → change.op ≢ op_remove
          → Undone (apply_and_revert actors change e.actor_id (some e) e.game_id t)
      unfolding persist_mutations persist_reverts
      undo_sequence f k v o = elim (sequence_mutations k o) [
        | inl nothing ↦
            rw (f, nothing, sequence_revert k v) (_, refl, update_where_once e _ t.rows unique refl)
        | inr (value, one) ↦
            rw (f, one, sequence_revert k v)
              (_, refl, update_where_twice e _ _ t.rows unique (at_slot_self e) refl)
      ]

      -- One family after the other.
      pub undo_kind :
          (k : StateKind)
          → e.kind ≡ k
          → IsRestorable e k
          → change.op ≢ op_remove
          → Undone (apply_and_revert actors change e.actor_id (some e) e.game_id t)
      undo_kind variable k r o = undo_text (ap kind_family (kind ∙ k)) (inl k) o
      undo_kind condition k r o = undo_text (ap kind_family (kind ∙ k)) (inr k) o
      undo_kind measurement k (v, w) o = undo_measurement (ap kind_family (kind ∙ k)) k v w o
      undo_kind sequence k r o = undo_sequence (ap kind_family (kind ∙ k)) k r o
