-- ===== src/State/Vivify.antt =====
-- Actors that a plan creates: the temporary ids of `plan_state_changes` and the id map of
-- crates/server/src/game_state.rs, `apply_state_changes`.
use dreamwell.Common.{
  ℕ, zero, suc, ◌+◌, ◌<◌, ◌≤◌, ◌≡◌, ◌⊎◌, refl, true, not, ◌&&◌, Option, none, some, List, [], ◌∷◌,
  ◌++◌, any, All, length, ◌==◌, ==_iff, string_eq, option_eq, arith, is_none, inl, inr, Bool-cases,
  get_elem?,
}
use dreamwell.Common.Int.{ℤ, negsuc, pos, ◌≤ℤ◌, int_eq}
use dreamwell.Common.Dict.{lookup}
use dreamwell.Sequence.{Json}
use dreamwell.State.Types.{StateEntry, StateChangeRequest, FloatOps, SessionActor}
use dreamwell.State.Mutation.{
  EntryMutation, insert, KindFamily, text, measurements, sequences, kind_family,
}
use dreamwell.State.PlanText.{plan_text_with_collision}
use dreamwell.State.PlanMeasurement.{plan_measurement_with_collision}
use dreamwell.State.PlanSequence.{plan_sequence_with_collision}
use dreamwell.State.Resolve.{normalize_target}
use dreamwell.State.Plan.{
  plan_family, no_one, resolve_target, Planning, plan_change, plan_changes, plan_state_changes,
  index_entries,
}
use dreamwell.State.Table.{map_actor_id, map_id}
use dreamwell.State.Numbering.{IsNumbered, IsResolved, resolve_target-IsSound}

module _ {R : Type 0} where
  -- What holds of the actor of an insert; the other mutations name an entry.
  abbrev pub AtInsert : (Option ℤ → Type 0) → EntryMutation R → Type 0
  AtInsert P (insert actor_id _ _ _ _ _ _ _) = P actor_id
  AtInsert P _ = Unit

  AtInsert-mono :
      (P Q : Option ℤ → Type 0)
      → ((a : Option ℤ) → P a → Q a)
      → (ms : List (EntryMutation R)) → All (AtInsert P) ms
      → All (AtInsert Q) ms
  AtInsert-mono P Q f [] h = tt
  AtInsert-mono P Q f (insert a _ _ _ _ _ _ _ ∷ ms) (p, h) = (f a p, AtInsert-mono P Q f ms h)
  AtInsert-mono P Q f (_ ∷ ms) (p, h) = (tt, AtInsert-mono P Q f ms h)

  All-AtInsert-append :
      (P : Option ℤ → Type 0) (xs ys : List (EntryMutation R))
      → All (AtInsert P) xs
      → All (AtInsert P) ys
      → All (AtInsert P) (xs ++ ys)
  All-AtInsert-append P [] ys h k = k
  All-AtInsert-append P (x ∷ xs) ys (p, h) k = (p, All-AtInsert-append P xs ys h k)

module _ {R : Type 0} (ops : FloatOps R) (json : Json) (P : Option ℤ → Type 0) where
  plan_family-AtInsert :
      (family : KindFamily) (change : StateChangeRequest R) (actor_id : Option ℤ)
      (existing : Option (StateEntry R))
      → P actor_id
      → All (AtInsert P) (plan_family ops json family change actor_id existing).1
  unfolding plan_text_with_collision plan_measurement_with_collision plan_sequence_with_collision
  plan_family-AtInsert text change actor_id existing p = ground arith
  plan_family-AtInsert measurements change actor_id existing p = ground arith
  plan_family-AtInsert sequences change actor_id existing p = ground arith

module _ {R : Type 0} (ops : FloatOps R) (json : Json) (actors : List SessionActor) where
  -- The invariant of the loop: the numbering, and inserts at actors that are accounted for.
  record IsPlanned (s : Planning R) : Type 0 where
    vivified : IsNumbered s.vivified
    inserts : All (AtInsert (IsResolved actors (length s.vivified.vivify))) s.mutations

  IsResolved-mono :
      (n m : ℕ) → n ≤ m → (id : Option ℤ) → IsResolved actors n id → IsResolved actors m id
  IsResolved-mono n m h none r = tt
  IsResolved-mono n m h (some id) (inl known) = inl known
  IsResolved-mono n m h (some id) (inr (i, e, l)) = inr (i, e, omega arith)

  plan_change-IsPlanned :
      (change : StateChangeRequest R) (s : Planning R)
      → IsPlanned s
      → IsPlanned (plan_change ops json actors change s)
  unfolding plan_change
  plan_change-IsPlanned change s h =
      let found = resolve_target change.target actors s.vivified in
      let (numbering, more, resolved) =
        resolve_target-IsSound change.target actors s.vivified h.vivified in
      let earlier : All (AtInsert (IsResolved actors (length found.1.vivify))) s.mutations =
        AtInsert-mono _ _ (IsResolved-mono _ _ more) s.mutations h.inserts in
      elim (Bool-cases (not (normalize_target change.target == "world") && is_none found.0)) [
        | inl skip ↦ rw skip (record { vivified = numbering; inserts = earlier })
        | inr plan ↦ rw plan (record {
          vivified = numbering;
          inserts =
              All-AtInsert-append _ s.mutations _ earlier (
                plan_family-AtInsert ops json _ (kind_family change.kind) change found.0 _
                  resolved);
        })
      ]

  plan_changes-IsPlanned :
      (changes : List (StateChangeRequest R)) (s : Planning R)
      → IsPlanned s
      → IsPlanned (plan_changes ops json actors changes s)
  unfolding plan_changes
  plan_changes-IsPlanned [] s h = h
  plan_changes-IsPlanned (change ∷ changes) s h =
      plan_changes-IsPlanned changes (plan_change ops json actors change s)
        (plan_change-IsPlanned change s h)

-- The id map of `apply_state_changes`: the k-th temporary id goes to the k-th new row.
unfoldable pub id_map_from : ℕ → List ℤ → List (ℤ × ℤ)
id_map_from k [] = []
id_map_from k (id ∷ ids) = (negsuc k, id) ∷ id_map_from (suc k) ids

lookup-id_map_from :
    (k i : ℕ) (ids : List ℤ)
    → i < length ids
    → (id : ℤ) × (lookup (negsuc (k + i)) (id_map_from k ids) ≡ some id)
      × (get_elem? ids i ≡ some id)
unfolding lookup id_map_from
lookup-id_map_from k i [] h = absurd (omega arith)
lookup-id_map_from k zero (id ∷ ids) h = (id, ground arith, refl)
lookup-id_map_from k (suc i) (id ∷ ids) h =
    let (found, e, f) = lookup-id_map_from (suc k) i ids (omega arith) in
    let shift : suc k + i ≡ k + suc i = omega arith in (found, ground (arith, rw shift at e), f)

-- A row may name an actor of the session, or one of the new actors.
abbrev pub IsStored : List SessionActor → List ℤ → Option ℤ → Type 0
IsStored actors ids none = Unit
IsStored actors ids (some id) =
    (any (λ a. a.id == id) actors ≡ true) ⊎ ((i : ℕ) × (get_elem? ids i ≡ some id))

any_stored :
    (actors : List SessionActor) (id : ℤ)
    → All (λ a. pos 0 ≤ℤ a.id) actors
    → any (λ a. a.id == id) actors ≡ true
    → pos 0 ≤ℤ id
any_stored [] id h k = cc
any_stored (a ∷ actors) id (p, h) k = elim (Bool-cases (a.id == id)) [
  | inl same ↦ rw (← (==_iff a.id id).0 same) p
  | inr other ↦ any_stored actors id h (ground arith)
]

map_id-pos : (m : List (ℤ × ℤ)) (n : ℕ) → map_id m (pos n) ≡ pos n
map_id-pos m n = ground arith

map_id-negsuc :
    (m : List (ℤ × ℤ)) (n : ℕ) (id : ℤ) → lookup (negsuc n) m ≡ some id → map_id m (negsuc n) ≡ id
map_id-negsuc m n id h = rw h (ground arith)

stored :
    (actors : List SessionActor) (ids : List ℤ) (n : ℕ)
    → All (λ a. pos 0 ≤ℤ a.id) actors
    → n ≡ length ids
    → (actor_id : Option ℤ) → IsResolved actors n actor_id
    → IsStored actors ids (map_actor_id actor_id (id_map_from 0 ids))
unfolding map_actor_id
stored actors ids n h e none r = tt
stored actors ids n h e (some (pos id)) (inl known) =
    rw (map_id-pos (id_map_from 0 ids) id) (inl known)
stored actors ids n h e (some (negsuc id)) (inl known) =
    absurd (omega (arith, any_stored actors (negsuc id) h known))
stored actors ids n h e (some id) (inr (i, same, l)) =
    let (found, seen, at) = lookup-id_map_from 0 i ids (omega arith) in
    let zero_add : 0 + i ≡ i = omega arith in
    rw (same, map_id-negsuc (id_map_from 0 ids) i found (rw zero_add at seen)) (inr (i, at))

module _ {R : Type 0} (ops : FloatOps R) (json : Json) where
  -- The actors that a plan creates, numbered, and the plan itself.
  state_changes-IsPlanned :
      (changes : List (StateChangeRequest R)) (actors : List SessionActor)
      (current : List (StateEntry R))
      → let plan = plan_state_changes ops json changes actors current in
        All (AtInsert (IsResolved actors (length plan.vivify))) plan.mutations
  unfolding plan_state_changes
  state_changes-IsPlanned changes actors current =
      (plan_changes-IsPlanned ops json actors changes
        (record { index = index_entries current []; vivified = no_one; mutations = []; audit = [] })
        (record { vivified = record { ids = refl; next = refl }; inserts = tt })).inserts

  -- Every row that a plan inserts names no actor, an actor of the session, or one of the new actors,
  -- once the temporary ids are replaced: no temporary id reaches the table. Actors' ids are not negative, and each actor to
  -- create got a new id.
  pub insert-IsStored :
      (changes : List (StateChangeRequest R)) (actors : List SessionActor)
      (current : List (StateEntry R)) (new_ids : List ℤ)
      → All (λ a. pos 0 ≤ℤ a.id) actors
      → length (plan_state_changes ops json changes actors current).vivify ≡ length new_ids
      → All
          (AtInsert (λ a. IsStored actors new_ids (map_actor_id a (id_map_from 0 new_ids))))
          (plan_state_changes ops json changes actors current).mutations
  insert-IsStored changes actors current new_ids h e =
      AtInsert-mono _ _ (stored actors new_ids _ h e)
        (plan_state_changes ops json changes actors current).mutations
        (state_changes-IsPlanned changes actors current)
