-- ===== src/State/Tests.antt =====
-- Runs of the state engine on a small session, and the theorems at it. A float is an integer here.
use dreamwell.Common.{
  ◌≡◌, refl, true, false, Option, none, some, List, [], ◌∷◌, String, any, All, inr, arith,
  if◌then◌else◌,
}
use dreamwell.Common.Int.{ℤ, pos, ◌+ℤ◌, ◌≤ℤ◌, leb_ℤ, ◌-ℤ◌}
use dreamwell.Common.Decimal.{show_ℤ}
use dreamwell.Common.Dict.{lookup}
use dreamwell.Common.Dict
use dreamwell.Sequence.{Json, SequencePayload}
use dreamwell.State.Types.{
  StateKind, variable, measurement, StateOp, set, add, remove, StateEntry, StateChangeRequest,
  FloatOps, SessionActor,
}
use dreamwell.State.Mutation.{update_measurement}
use dreamwell.State.Resolve.{resolve_actor_id, eq_ignore_ascii_case}
use dreamwell.State.PlanText.{plan_text_with_collision}
use dreamwell.State.PlanMeasurement.{plan_measurement_with_collision}
use dreamwell.State.Plan.{plan_state_changes, plan_change, index_entries, resolve_target}
use dreamwell.State.Revert.{plan_revert_changes}
use dreamwell.State.Table.{Table, map_actor_id, persist_mutations, persist_reverts}
use dreamwell.State.Rows.{at_slot}
use dreamwell.State.RoundTrip.{turn_and_rewind}
use dreamwell.State.Removal.{revert-remove_lost}
use dreamwell.State.Vivify.{insert-IsStored, AtInsert, IsStored, id_map_from}
use dreamwell.State.Bounds.{IsOrdered, measurement_within_bounds}

abbrev integers : FloatOps ℤ
integers = record {
  zero = pos 0;
  plus = ◌+ℤ◌;
  larger = λ a b. if leb_ℤ a b then b else a;
  smaller = λ a b. if leb_ℤ a b then a else b;
  of_int = λ a. a;
  round = λ a. a;
  parse = λ s. none;
  show = show_ℤ;
}

abbrev turns : SequencePayload
turns = record { items = "pc" ∷ "maya" ∷ []; position = pos 0; loop = true }

abbrev json : Json
json = record { print = λ p. "turns"; parse = λ s. some turns }

abbrev alex : SessionActor
alex = record {
  id = pos 1;
  game_id = pos 1;
  role = "pc";
  name = "Alex";
  description = "";
  skills = [];
  sort_order = pos 0;
  created_at = 0;
  updated_at = 0;
}

abbrev entry : ℤ → StateKind → String → String → Option ℤ → Option ℤ → StateEntry ℤ
entry id kind key value float_value float_max = record {
  id = id;
  game_id = pos 1;
  actor_id = some (pos 1);
  kind = kind;
  key = key;
  value = value;
  num_value = none;
  max_value = none;
  float_value = float_value;
  float_min = none;
  float_max = float_max;
  unit = none;
  source_turn = pos 1;
  updated_at = 0;
}

abbrev mood : StateEntry ℤ
mood = entry (pos 7) variable "mood" "calm" none none

abbrev stress : StateEntry ℤ
stress = entry (pos 8) measurement "stress" "" (some (pos 2)) (some (pos 5))

abbrev table : Table ℤ
table = record { rows = mood ∷ stress ∷ []; next_id = pos 9 }

abbrev request :
    String → StateKind → String → StateOp → Option String → Option ℤ → StateChangeRequest ℤ
request target kind key op value delta = record {
  target = target;
  kind = kind;
  key = key;
  op = op;
  value = value;
  delta = delta;
  float_value = none;
  float_min = none;
  float_max = none;
  unit = none;
  sequence_items = none;
  sequence_position = none;
  sequence_loop = none;
}

abbrev calm_down : StateChangeRequest ℤ
calm_down = request "user" variable "mood" set (some "wild") none

abbrev forget_mood : StateChangeRequest ℤ
forget_mood = request "user" variable "mood" remove none none

abbrev forget_stress : StateChangeRequest ℤ
forget_stress = request "pc" measurement "stress" remove none none

abbrev more_stress : StateChangeRequest ℤ
more_stress = request "pc" measurement "stress" add none (some (pos 9))

revert-remove_lost_example :
    (u : Table ℤ) × (turn_and_rewind integers json (pos 2) 5 6 (pos 1) forget_mood (alex ∷ []) table
      ≡ some u)
    × (any (at_slot mood) u.rows ≡ false)
unfolding resolve_actor_id index_entries lookup Dict.insert
revert-remove_lost_example =
    revert-remove_lost integers json (pos 2) 5 6 (alex ∷ []) forget_mood mood refl refl refl refl
      table (inr refl) refl ((λ _. refl, λ _. refl), ((λ h. cc, λ h. cc), tt)) (λ h. cc) tt

-- The whole run, by evaluation: the removed mood is gone after the revert.
mood_gone :
    turn_and_rewind integers json (pos 2) 5 6 (pos 1) forget_mood (alex ∷ []) table
    ≡ some (record { rows = stress ∷ []; next_id = pos 9 })
unfolding resolve_actor_id index_entries lookup Dict.insert plan_state_changes plan_change
    resolve_target plan_text_with_collision plan_revert_changes persist_mutations persist_reverts
    Dict.remove
mood_gone = refl

integers_IsOrdered : IsOrdered integers ◌≤ℤ◌
integers_IsOrdered = record {
  le_larger = λ a b. ground arith;
  smaller_le = λ a b. ground arith;
  le_smaller = λ c a b p q. ground arith;
}

measurement_within_bounds_example :
    (v : ℤ) × (unit : Option String) × ((plan_measurement_with_collision integers more_stress
        (some (pos 1))
        (some stress)).1
      ≡ update_measurement (pos 8) (some v) none (some (pos 5)) unit false ∷ [])
    × Unit {0}
    × (v ≤ℤ pos 5)
measurement_within_bounds_example =
    measurement_within_bounds integers ◌≤ℤ◌ integers_IsOrdered more_stress (some (pos 1)) stress
      (inr refl) refl refl tt

-- Two named strangers are created once each.
abbrev strangers : List (StateChangeRequest ℤ)
strangers =
    request "Maya" variable "mood" set (some "tense") none
    ∷ request "Ryan" variable "mood" set (some "cross") none
    ∷ request "Maya" variable "coat" set (some "red") none
    ∷ []

insert-IsStored_example :
    All
      (AtInsert (λ a.
        IsStored
          (alex ∷ [])
          (pos 4 ∷ pos 6 ∷ [])
          (map_actor_id a (id_map_from 0 (pos 4 ∷ pos 6 ∷ [])))))
      (plan_state_changes integers json strangers (alex ∷ []) []).mutations
unfolding resolve_actor_id index_entries lookup Dict.insert plan_state_changes plan_change
    resolve_target plan_text_with_collision ◌-ℤ◌ eq_ignore_ascii_case
insert-IsStored_example =
    insert-IsStored integers json strangers (alex ∷ []) [] (pos 4 ∷ pos 6 ∷ []) (omega arith, tt)
      refl
