-- ===== src/State/Plan.antt =====
-- The plan of a list of changes: `plan_state_changes` of crates/dreamwell-state/src/apply.rs.
use dreamwell.Common.{
  Bool, true, false, ◌&&◌, not, Option, none, some, List, [], ◌∷◌, ◌++◌, String, if◌then◌else◌,
  ◌==◌, string_eq, option_eq, Eq, is_none, any, ◌↔◌, ◌≡◌, ==_iff, arith,
}
use dreamwell.Common.Int.{ℤ, pos, negsuc, ◌-ℤ◌, int_eq}
use dreamwell.Common.Dict.{lookup, remove}
use dreamwell.Common.Dict
use dreamwell.Sequence.{Json}
use dreamwell.State.Types.{
  SessionActor, StateEntry, StateChangeRequest, AppliedStateChange, FloatOps,
}
use dreamwell.State.Mutation.{
  EntryMutation, delete, VivifyActor, ApplyPlan, KindFamily, text, measurements, sequences,
  kind_family, Planner,
}
use dreamwell.State.Resolve.{normalize_target, resolve_actor_id}
use dreamwell.State.PlanText.{plan_text_with_collision}
use dreamwell.State.PlanMeasurement.{plan_measurement_with_collision}
use dreamwell.State.PlanSequence.{plan_sequence_with_collision}

-- An actor (none for the world) and a key.
pub record Slot : Type 0 where
  pub actor_id : Option ℤ
  pub key : String

abbrev pub slot_beq : Slot → Slot → Bool
slot_beq a b = (a.actor_id == b.actor_id) && (a.key == b.key)

pub slot_beq_iff : (a b : Slot) → (slot_beq a b ≡ true) ↔ (a ≡ b)
slot_beq_iff a b = ground (arith, ==_iff a.actor_id b.actor_id, ==_iff a.key b.key)

instance abbrev pub slot_eq : Eq Slot
slot_eq = record { eqb = slot_beq; eqb_iff = slot_beq_iff }

-- What the closure `resolve_target` keeps: the actors to create, their temporary ids, the next one.
pub record Vivified : Type 0 where
  pub vivify : List VivifyActor
  pub vivify_ids : List (String × ℤ)
  pub next_temp_id : ℤ

abbrev pub no_one : Vivified
no_one = record { vivify = []; vivify_ids = []; next_temp_id = negsuc 0 }

abbrev pub vivify_new : String → Vivified → Option ℤ × Vivified
vivify_new name v = (
  some v.next_temp_id,
  record {
    vivify = v.vivify ++ record { name = name; role = "npc" } ∷ [];
    vivify_ids = Dict.insert name v.next_temp_id v.vivify_ids;
    next_temp_id = v.next_temp_id -ℤ pos 1;
  },
)

abbrev pub vivify_named : String → Vivified → Option ℤ × Vivified
vivify_named name v = elim (lookup name v.vivify_ids) [
  | none ↦ vivify_new name v
  | some id ↦ (some id, v)
]

unfoldable pub resolve_target : String → List SessionActor → Vivified → Option ℤ × Vivified
resolve_target target actors v =
    if normalize_target target == "world"
    then (none, v)
    else elim (resolve_actor_id target actors) [
      | some id ↦ (some id, v)
      | none ↦ if normalize_target target == "pc" then (none, v) else vivify_named target v
    ]

module _ {R : Type 0} where
  unfoldable pub index_entries :
      List (StateEntry R) → List (Slot × StateEntry R) → List (Slot × StateEntry R)
  unfolding Dict.insert
  index_entries [] index = index
  index_entries (entry ∷ current) index =
      index_entries current
        (Dict.insert (record { actor_id = entry.actor_id; key = entry.key }) entry index)

  abbrev pub is_delete : EntryMutation R → Bool
  is_delete (delete _) = true
  is_delete _ = false

-- The variables of the loop of `plan_state_changes`.
pub record Planning (R : Type 0) : Type 0 where
  pub index : List (Slot × StateEntry R)
  pub vivified : Vivified
  pub mutations : List (EntryMutation R)
  pub audit : List (AppliedStateChange R)

module _ {R : Type 0} (ops : FloatOps R) (json : Json) where
  abbrev pub plan_family : KindFamily → Planner R
  plan_family text = plan_text_with_collision ops
  plan_family measurements = plan_measurement_with_collision ops
  plan_family sequences = plan_sequence_with_collision json ops

  -- The round of the loop once the actor is known.
  abbrev pub plan_slot : StateChangeRequest R → Option ℤ → Planning R → Planning R
  plan_slot change actor_id s =
      let slot : Slot = record { actor_id = actor_id; key = change.key } in
      let (applied, change_mutations) =
        plan_family (kind_family change.kind) change actor_id (lookup slot s.index) in
      record s {
        index = if any is_delete change_mutations then remove slot s.index else s.index;
        mutations = s.mutations ++ change_mutations;
        audit = s.audit ++ applied ∷ [];
      }

  unfoldable pub plan_change : List SessionActor → StateChangeRequest R → Planning R → Planning R
  plan_change actors change s =
      let (actor_id, vivified) = resolve_target change.target actors s.vivified in
      let s' = record s { vivified = vivified } in
      if not (normalize_target change.target == "world") && is_none actor_id
      then s'
      else plan_slot change actor_id s'

  unfoldable pub plan_changes :
      List SessionActor → List (StateChangeRequest R) → Planning R → Planning R
  plan_changes actors [] s = s
  plan_changes actors (change ∷ changes) s =
      plan_changes actors changes (plan_change actors change s)

  unfoldable pub plan_state_changes :
      List (StateChangeRequest R) → List SessionActor → List (StateEntry R) → ApplyPlan R
  unfolding plan_changes
  plan_state_changes changes actors current =
      let s = plan_changes actors changes (record {
        index = index_entries current [];
        vivified = no_one;
        mutations = [];
        audit = [];
      }) in
      record { vivify = s.vivified.vivify; mutations = s.mutations; audit = s.audit }
