-- ===== src/State/Removal.antt =====
-- Reverting a removal: crates/dreamwell-state/src/apply.rs and crates/server/src/state_persist.rs.
use dreamwell.Common.{
  ℕ, ◌≡◌, ◌≢◌, ◌⊎◌, refl, ap, ◌∙◌, true, false, some, List, [], ◌∷◌, ◌++◌, any, ◌==◌, ==_iff,
  string_eq, option_eq, arith, is_some, inl, inr,
}
use dreamwell.Common.Int.{ℤ, negsuc, pos, ◌+ℤ◌, int_eq}
use dreamwell.Common.Dict.{lookup}
use dreamwell.Sequence.{Json}
use dreamwell.State.Types.{
  StateKind, variable, condition, measurement, sequence, kind_eq, remove, op_eq, StateEntry,
  StateChangeRequest, FloatOps, SessionActor,
}
use dreamwell.State.Mutation.{delete, kind_family}
use dreamwell.State.PlanText.{plan_text_with_collision}
use dreamwell.State.PlanMeasurement.{plan_measurement_with_collision}
use dreamwell.State.PlanSequence.{plan_sequence_with_collision}
use dreamwell.State.Plan.{index_entries, slot_eq}
use dreamwell.State.Revert.{
  revert_change, revert_target, restore_text, restore_structured, restore_measurement,
}
use dreamwell.State.Table.{
  Table, matches, new_row, delete_where, conflicts, persist_mutations, persist_reverts,
}
use dreamwell.State.Rows.{IsUnique, at_slot, any-delete_where, update_where_none}
use dreamwell.State.Undo.{apply_and_revert, IsRestorable}
use dreamwell.State.RoundTrip.{IsKnown, turn_and_rewind, turn-eq-apply}

module _ {R : Type 0} (ops : FloatOps R) (json : Json) (source : ℤ) (now later : ℕ)
    (actors : List SessionActor) (change : StateChangeRequest R) (e : StateEntry R)
    (target : revert_target change.target actors ≡ e.actor_id) (key : change.key ≡ e.key)
    (kind : change.kind ≡ e.kind) (op : change.op ≡ remove) where
  text_removed :
      (e.kind ≡ variable) ⊎ (e.kind ≡ condition)
      → (plan_text_with_collision ops change e.actor_id (some e)).1 ≡ delete e.id ∷ []
  unfolding plan_text_with_collision
  text_removed k = rw op (ground (arith, ==_iff e.kind change.kind))

  text_reverted :
      (e.kind ≡ variable) ⊎ (e.kind ≡ condition)
      → revert_change ops actors (plan_text_with_collision ops change e.actor_id (some e)).0
        ≡ restore_text e.actor_id e.kind e.key e.value ∷ []
  unfolding plan_text_with_collision revert_change
  text_reverted k = ground (arith, ==_iff e.kind change.kind)

  sequence_removed :
      e.kind ≡ sequence
      → (plan_sequence_with_collision json ops change e.actor_id (some e)).1 ≡ delete e.id ∷ []
  unfolding plan_sequence_with_collision
  sequence_removed k = ground (arith, ==_iff e.kind change.kind)

  sequence_reverted :
      e.kind ≡ sequence
      → e.value ≢ ""
      → revert_change ops actors
          (plan_sequence_with_collision json ops change e.actor_id (some e)).0
        ≡ restore_structured e.actor_id e.kind e.key e.value ∷ []
  unfolding plan_sequence_with_collision revert_change
  sequence_reverted k v = ground (arith, ==_iff e.kind change.kind, ==_iff e.value "")

  measurement_removed :
      e.kind ≡ measurement
      → (plan_measurement_with_collision ops change e.actor_id (some e)).1 ≡ delete e.id ∷ []
  unfolding plan_measurement_with_collision
  measurement_removed k = ground (arith, ==_iff e.kind change.kind)

  measurement_reverted :
      e.kind ≡ measurement
      → is_some e.float_value ≡ true
      → revert_change ops actors (plan_measurement_with_collision ops change e.actor_id (some e)).0
        ≡ restore_measurement e.actor_id e.key e.float_value e.float_min e.float_max e.unit ∷ []
  unfolding plan_measurement_with_collision revert_change
  measurement_reverted k v = ground (arith, ==_iff e.kind change.kind)

  module _ (t : Table R) (known : IsKnown change.target actors)
      (entry : lookup (record { actor_id = e.actor_id; key = change.key }) (index_entries t.rows [])
        ≡ some e)
      (unique : IsUnique e t.rows) where
    abbrev without : List (StateEntry R)
    without = delete_where (λ row. row.id == e.id) t.rows

    removed : any (at_slot e) without ≡ false
    removed = any-delete_where e t.rows unique

    -- The table after the removal and the revert.
    removal_kept :
        (k : StateKind)
        → e.kind ≡ k
        → IsRestorable e k
        → k ≢ measurement
        → apply_and_revert ops json source now later actors change e.actor_id (some e) e.game_id t
          ≡ some (record t { rows = without })
    unfolding persist_mutations persist_reverts
    removal_kept variable k r m =
        rw (ap kind_family (kind ∙ k), text_removed (inl k), text_reverted (inl k))
          (rw (update_where_none (at_slot e) _ without removed) refl)
    removal_kept condition k r m =
        rw (ap kind_family (kind ∙ k), text_removed (inr k), text_reverted (inr k))
          (rw (update_where_none (at_slot e) _ without removed) refl)
    removal_kept sequence k r m =
        rw (ap kind_family (kind ∙ k), sequence_removed k, sequence_reverted k r)
          (rw (update_where_none (at_slot e) _ without removed) refl)
    removal_kept measurement k r m = absurd (m refl)

    -- A variable, condition or sequence that a change removed is not brought back by the revert of that
    -- change: the revert succeeds and the slot stays empty.
    pub revert-remove_lost :
        e.kind ≢ measurement
        → IsRestorable e e.kind
        → (u : Table R) × (turn_and_rewind ops json source now later e.game_id change actors t
            ≡ some u)
          × (any (at_slot e) u.rows ≡ false)
    revert-remove_lost m r = (
      record t { rows = without },
      turn-eq-apply ops json source now later e.game_id change actors t e known target entry
          ∙ removal_kept e.kind refl r m,
      removed,
    )

    abbrev pub restored : StateEntry R
    restored =
        new_row t.next_id e.game_id e.actor_id measurement e.key "" e.float_value e.float_min
          e.float_max e.unit (negsuc 0) later

    -- No row stands in the way of the restored one.
    no_conflict : e.kind ≡ measurement → any (conflicts restored) without ≡ false
    no_conflict k = none_found without (rw k at removed)
      where
        none_found :
            (rows : List (StateEntry R))
            → any (matches e.game_id e.actor_id measurement e.key) rows ≡ false
            → any (conflicts restored) rows ≡ false
        none_found [] h = refl
        none_found (row ∷ rows) h = ground (arith, none_found rows)

    -- A removed measurement is brought back with its value, bounds and unit, in a new row.
    pub revert-remove_measurement :
        e.kind ≡ measurement
        → IsRestorable e measurement
        → turn_and_rewind ops json source now later e.game_id change actors t
          ≡ some (record { rows = without ++ restored ∷ []; next_id = t.next_id +ℤ pos 1 })
    unfolding persist_mutations persist_reverts
    revert-remove_measurement k r =
        turn-eq-apply ops json source now later e.game_id change actors t e known target entry
        ∙ rw (ap kind_family (kind ∙ k), measurement_removed k, measurement_reverted k r.0)
            (rw (rw k at removed, r.0, no_conflict k) refl)
