-- ===== src/State/Numbering.antt =====
-- The temporary ids of the actors that a plan creates: `plan_state_changes` of
-- crates/dreamwell-state/src/apply.rs.
use dreamwell.Common.{
  ℕ, suc, ◌+◌, ◌<◌, ◌≤◌, ◌≡◌, ◌⊎◌, refl, sym, ap, ◌∙◌, Bool, true, Option, none, some, List, [],
  ◌∷◌, ◌++◌, String, any, length, length-append, ◌==◌, ==_iff, string_eq, option_eq, arith, opt_map,
  inl, inr, Bool-cases, Option-cases, find,
}
use dreamwell.Common.Int.{ℤ, negsuc, ◌-ℤ◌, int_eq}
use dreamwell.Common.Dict.{lookup}
use dreamwell.Common.Dict
use dreamwell.State.Types.{SessionActor}
use dreamwell.State.Mutation.{VivifyActor}
use dreamwell.State.Resolve.{normalize_target, resolve_actor_id}
use dreamwell.State.Plan.{Vivified, vivify_new, vivify_named, resolve_target}

-- The k-th actor to create has the temporary id -(k + 1).
abbrev pub numbered : ℕ → List VivifyActor → List (String × ℤ)
numbered k [] = []
numbered k (a ∷ actors) = (a.name, negsuc k) ∷ numbered (suc k) actors

pub record IsNumbered (v : Vivified) : Type 0 where
  pub ids : v.vivify_ids ≡ numbered 0 v.vivify
  pub next : v.next_temp_id ≡ negsuc (length v.vivify)

numbered-append :
    (k : ℕ) (actors : List VivifyActor) (a : VivifyActor)
    → numbered k (actors ++ a ∷ []) ≡ numbered k actors ++ (a.name, negsuc (k + length actors)) ∷ []
numbered-append k [] a = ground arith
numbered-append k (b ∷ actors) a = ground (arith, numbered-append (suc k) actors a)

insert_new :
    (name : String) (id : ℤ) (m : List (String × ℤ))
    → lookup name m ≡ none
    → Dict.insert name id m ≡ m ++ (name, id) ∷ []
unfolding lookup Dict.insert
insert_new name id [] h = refl
insert_new name id ((j, w) ∷ m) h = ground (arith, insert_new name id m)

-- An id that the map holds is that of an actor to create.
lookup-numbered :
    (name : String) (id : ℤ) (k : ℕ) (actors : List VivifyActor)
    → lookup name (numbered k actors) ≡ some id
    → (i : ℕ) × (id ≡ negsuc i) × (i < k + length actors)
unfolding lookup
lookup-numbered name id k [] h = cc
lookup-numbered name id k (a ∷ actors) h = elim (Bool-cases (a.name == name)) [
  | inl same ↦ (k, ground arith, omega arith)
  | inr other ↦
      let (i, e, l) = lookup-numbered name id (suc k) actors (ground arith) in (i, e, omega arith)
]

-- What an id may be that a target resolves to: none, an actor of the session, or a new one.
abbrev pub IsResolved : List SessionActor → ℕ → Option ℤ → Type 0
IsResolved actors n none = Unit
IsResolved actors n (some id) =
    (any (λ a. a.id == id) actors ≡ true) ⊎ ((i : ℕ) × (id ≡ negsuc i) × (i < n))

found_id :
    (test : SessionActor → Bool) (actors : List SessionActor) (id : ℤ)
    → opt_map (λ a. a.id) (find test actors) ≡ some id
    → any (λ a. a.id == id) actors ≡ true
found_id test [] id h = cc
found_id test (a ∷ actors) id h = ground (arith, ==_iff a.id id, found_id test actors id)

resolve_actor_id_sound :
    (target : String) (actors : List SessionActor) (id : ℤ)
    → resolve_actor_id target actors ≡ some id
    → any (λ a. a.id == id) actors ≡ true
unfolding resolve_actor_id
resolve_actor_id_sound target actors id h = elim (Bool-cases (normalize_target target == "world")) [
  | inl world ↦ let gone : none ≡ some id = rw world at h in cc
  | inr other ↦ elim (Bool-cases (normalize_target target == "pc")) [
    | inl pc ↦ found_id (λ a. a.role == "pc") actors id (rw (other, pc) at h)
    | inr npc ↦ found_id _ actors id (rw (other, npc) at h)
  ]
]

vivify_new-IsNumbered :
    (name : String) (v : Vivified)
    → IsNumbered v
    → lookup name v.vivify_ids ≡ none
    → IsNumbered (vivify_new name v).1
unfolding ◌-ℤ◌
vivify_new-IsNumbered name v h l = record {
  ids =
      insert_new name v.next_temp_id v.vivify_ids l
      ∙ ground (arith, h, numbered-append 0 v.vivify (record { name = name; role = "npc" }));
  next = ground (arith, h.next, length-append v.vivify (record { name = name; role = "npc" } ∷ []));
}

-- The closure keeps the numbering, only adds actors, and gives an id that is accounted for.
abbrev pub IsSound : List SessionActor → Vivified → Option ℤ × Vivified → Type 0
IsSound actors v r =
    IsNumbered r.1
    × (length v.vivify ≤ length r.1.vivify)
    × IsResolved actors (length r.1.vivify) r.0

vivify_named-IsSound :
    (name : String) (actors : List SessionActor) (v : Vivified)
    → IsNumbered v
    → IsSound actors v (vivify_named name v)
vivify_named-IsSound name actors v h = elim (Option-cases (lookup name v.vivify_ids)) [
  | inl new ↦
      let more : length (vivify_new name v).1.vivify ≡ length v.vivify + 1 =
        length-append v.vivify (record { name = name; role = "npc" } ∷ []) in
      rw (new, vivify_named)
        (
          vivify_new-IsNumbered name v h new,
          omega (arith, more),
          inr (length v.vivify, h.next, omega (arith, more)),
        )
  | inr (id, old) ↦
      let (i, e, l) = lookup-numbered name id 0 v.vivify (ap (lookup name) (sym h.ids) ∙ old) in
      rw (old, vivify_named) (h, omega arith, inr (i, e, omega arith))
]

pub resolve_target-IsSound :
    (target : String) (actors : List SessionActor) (v : Vivified)
    → IsNumbered v
    → IsSound actors v (resolve_target target actors v)
unfolding resolve_target
resolve_target-IsSound target actors v h = elim (Bool-cases (normalize_target target == "world")) [
  | inl world ↦ rw world (h, omega arith, tt)
  | inr other ↦ rw other (elim (Option-cases (resolve_actor_id target actors)) [
    | inr (id, known) ↦
        rw known (h, omega arith, inl (resolve_actor_id_sound target actors id known))
    | inl unknown ↦ rw unknown (elim (Bool-cases (normalize_target target == "pc")) [
      | inl pc ↦ rw pc (h, omega arith, tt)
      | inr npc ↦ rw npc (vivify_named-IsSound target actors v h)
    ])
  ])
]
