-- ===== src/State/RoundTrip.antt =====
-- A turn of one change, applied and then reverted through the whole engine: planning
-- (dreamwell-state/src/apply.rs), the table (server/src/state_persist.rs) and the revert.
use dreamwell.Common.{
  ℕ, ◌≡◌, ◌⊎◌, refl, true, false, not, ◌&&◌, Option, some, List, [], ◌∷◌, String, ◌==◌, string_eq,
  arith, and_then, inl, inr, is_some, is_none,
}
use mathlib.Core.List.{append-nil}
use dreamwell.Common.Int.{ℤ}
use dreamwell.Common.Dict.{lookup}
use dreamwell.Sequence.{Json}
use dreamwell.State.Types.{StateEntry, StateChangeRequest, FloatOps, SessionActor}
use dreamwell.State.Resolve.{normalize_target}
use dreamwell.State.Plan.{
  plan_state_changes, plan_change, index_entries, slot_eq, resolve_target, Vivified, no_one,
  plan_slot, Planning,
}
use dreamwell.State.Revert.{revert_target, plan_revert_changes}
use dreamwell.State.Table.{Table, persist_mutations, persist_reverts}
use dreamwell.State.Undo.{apply_and_revert}

-- A target that names the world, or an actor of the session.
abbrev pub IsKnown : String → List SessionActor → Type 0
IsKnown target actors =
    ((normalize_target target == "world") ≡ true) ⊎ (is_some (revert_target target actors) ≡ true)

pub resolve_target_of_IsKnown :
    (target : String) (actors : List SessionActor) (v : Vivified)
    → IsKnown target actors
    → resolve_target target actors v ≡ (revert_target target actors, v)
unfolding resolve_target
resolve_target_of_IsKnown target actors v k = ground arith

known_test :
    (target : String) (actors : List SessionActor)
    → IsKnown target actors
    → (not (normalize_target target == "world") && is_none (revert_target target actors)) ≡ false
known_test target actors (inl world) = rw world refl
known_test target actors (inr actor) = ground arith

module _ {R : Type 0} (ops : FloatOps R) (json : Json) (source : ℤ) (now later : ℕ) where
  -- The change as it is made against the rows and written, and its audit records reverted.
  abbrev pub turn_and_rewind :
      ℤ → StateChangeRequest R → List SessionActor → Table R → Option (Table R)
  turn_and_rewind scope change actors t =
      let plan = plan_state_changes ops json (change ∷ []) actors t.rows in
      and_then (persist_mutations scope source now [] plan.mutations t)
        (persist_reverts scope later (plan_revert_changes ops plan.audit actors))

  abbrev pub start : Table R → Planning R
  start t = record {
    index = index_entries t.rows [];
    vivified = no_one;
    mutations = [];
    audit = [];
  }

  plan_change_of_IsKnown :
      (change : StateChangeRequest R) (actors : List SessionActor) (s : Planning R)
      → IsKnown change.target actors
      → plan_change ops json actors change s
        ≡ plan_slot ops json change (revert_target change.target actors) s
  unfolding plan_change
  plan_change_of_IsKnown change actors s k =
      rw (resolve_target_of_IsKnown change.target actors s.vivified k)
        (rw (known_test change.target actors k) refl)

  pub turn-eq-apply :
      (scope : ℤ) (change : StateChangeRequest R) (actors : List SessionActor) (t : Table R)
      (e : StateEntry R)
      → IsKnown change.target actors
      → revert_target change.target actors ≡ e.actor_id
      → lookup (record { actor_id = e.actor_id; key = change.key }) (index_entries t.rows [])
        ≡ some e
      → turn_and_rewind scope change actors t
        ≡ apply_and_revert ops json source now later actors change e.actor_id (some e) scope t
  unfolding plan_state_changes plan_revert_changes
  turn-eq-apply scope change actors t e k r l =
      rw (plan_change_of_IsKnown change actors (start t) k) (rw (r, l, append-nil) refl)
