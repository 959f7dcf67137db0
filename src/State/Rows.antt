-- ===== src/State/Rows.antt =====
-- Updates and deletions of the rows of the state table, seen through one entry.
use dreamwell.Common.{
  ◌≡◌, refl, ap, Bool, true, false, List, [], ◌∷◌, All, any, ◌==◌, ==_iff, string_eq, option_eq,
  Bool-cases, inl, inr, arith,
}
use dreamwell.Common.Int.{int_eq}
use dreamwell.State.Types.{kind_eq, StateEntry}
use dreamwell.State.Table.{matches, update_where, delete_where}

module _ {R : Type 0} where
  -- Two rows agree on everything but the turn that they name as their source and the update time.
  abbrev pub SameData : StateEntry R → StateEntry R → Type 0
  SameData a b = record a { source_turn = b.source_turn; updated_at = b.updated_at } ≡ b

  abbrev pub SameRows : List (StateEntry R) → List (StateEntry R) → Type 0
  SameRows [] [] = Unit
  SameRows (a ∷ as') (b ∷ bs) = SameData a b × SameRows as' bs
  SameRows _ _ = ⊥

  -- The test of the rows of an entry's own slot.
  abbrev pub at_slot : StateEntry R → StateEntry R → Bool
  at_slot e = matches e.game_id e.actor_id e.kind e.key

  -- No other row has the entry's id, and none its actor, kind and key: what the primary key and
  -- the unique constraint promise of an entry.
  abbrev pub IsUnique : StateEntry R → List (StateEntry R) → Type 0
  IsUnique e = All (λ row. ((row.id == e.id) ≡ true → row ≡ e) × (at_slot e row ≡ true → row ≡ e))

  pub at_slot_self : (e : StateEntry R) → at_slot e e ≡ true
  at_slot_self e = ground (
    arith,
    ==_iff e.game_id e.game_id,
    ==_iff e.actor_id e.actor_id,
    ==_iff e.kind e.kind,
    ==_iff e.key e.key,
  )

  pub id_self : (e : StateEntry R) → (e.id == e.id) ≡ true
  id_self e = (==_iff e.id e.id).1 refl

  -- An update of the entry, then one of its slot, changes no other row.
  pub update_where_twice :
      (e : StateEntry R) (f g : StateEntry R → StateEntry R) (rows : List (StateEntry R))
      → IsUnique e rows
      → at_slot e (f e) ≡ true
      → SameData (g (f e)) e
      → SameRows (update_where (at_slot e) g (update_where (λ row. row.id == e.id) f rows)) rows
  unfolding update_where
  update_where_twice e f g [] u m s = tt
  update_where_twice e f g (row ∷ rows) ((by_id, by_slot), u) m s = (
    elim (Bool-cases (row.id == e.id)) [
      | inl same ↦ rw same (rw (by_id same) (rw m s))
      | inr other ↦ rw other (elim (Bool-cases (at_slot e row)) [
        | inl same ↦
            let again : (row.id == e.id) ≡ true =
              (==_iff row.id e.id).1 (ap (λ (r : StateEntry R). r.id) (by_slot same)) in
            cc
        | inr apart ↦ rw apart refl
      ])
    ],
    update_where_twice e f g rows u m s,
  )

  -- Deleting the entry leaves no row of its slot.
  pub any-delete_where :
      (e : StateEntry R) (rows : List (StateEntry R))
      → IsUnique e rows
      → any (at_slot e) (delete_where (λ row. row.id == e.id) rows) ≡ false
  unfolding delete_where
  any-delete_where e [] u = refl
  any-delete_where e (row ∷ rows) ((by_id, by_slot), u) = elim (Bool-cases (row.id == e.id)) [
    | inl same ↦ rw same (any-delete_where e rows u)
    | inr other ↦ rw other (elim (Bool-cases (at_slot e row)) [
      | inl same ↦
          let again : (row.id == e.id) ≡ true =
            (==_iff row.id e.id).1 (ap (λ (r : StateEntry R). r.id) (by_slot same)) in
          cc
      | inr apart ↦ rw apart (any-delete_where e rows u)
    ])
  ]

  -- An update that brings no row to a test leaves it without a row.
  pub any-update_where :
      (P test : StateEntry R → Bool) (f : StateEntry R → StateEntry R) (rows : List (StateEntry R))
      → ((row : StateEntry R) → P (f row) ≡ true → P row ≡ true)
      → any P rows ≡ false
      → any P (update_where test f rows) ≡ false
  unfolding update_where
  any-update_where P test f [] k h = refl
  any-update_where P test f (row ∷ rows) k h =
      ground (arith, k row, any-update_where P test f rows k)

  -- Where no row fits, a deletion and an update change nothing.
  pub update_where_none :
      (test : StateEntry R → Bool) (f : StateEntry R → StateEntry R) (rows : List (StateEntry R))
      → any test rows ≡ false
      → update_where test f rows ≡ rows
  unfolding update_where
  update_where_none test f [] h = refl
  update_where_none test f (row ∷ rows) h = ground (arith, update_where_none test f rows)

  -- A deletion leaves no row that fits.
  pub any-delete_where_self :
      (test : StateEntry R → Bool) (rows : List (StateEntry R))
      → any test (delete_where test rows) ≡ false
  unfolding delete_where
  any-delete_where_self test [] = refl
  any-delete_where_self test (row ∷ rows) = ground (arith, any-delete_where_self test rows)

  -- An update of the entry's slot alone.
  pub update_where_once :
      (e : StateEntry R) (g : StateEntry R → StateEntry R) (rows : List (StateEntry R))
      → IsUnique e rows
      → SameData (g e) e
      → SameRows (update_where (at_slot e) g rows) rows
  unfolding update_where
  update_where_once e g [] u s = tt
  update_where_once e g (row ∷ rows) ((by_id, by_slot), u) s = (
    elim (Bool-cases (at_slot e row)) [
      | inl same ↦ rw same (rw (by_slot same) s)
      | inr apart ↦ rw apart refl
    ],
    update_where_once e g rows u s,
  )

  -- An update of the entry that keeps its slot keeps the slot filled.
  pub any-update_where_id :
      (e : StateEntry R) (f : StateEntry R → StateEntry R) (rows : List (StateEntry R))
      → IsUnique e rows
      → at_slot e (f e) ≡ true
      → any (at_slot e) rows ≡ true
      → any (at_slot e) (update_where (λ row. row.id == e.id) f rows) ≡ true
  unfolding update_where
  any-update_where_id e f [] u m h = h
  any-update_where_id e f (row ∷ rows) ((by_id, by_slot), u) m h =
      elim (Bool-cases (row.id == e.id)) [
        | inl same ↦ rw same (rw (by_id same) (rw m refl))
        | inr other ↦ rw other (elim (Bool-cases (at_slot e row)) [
          | inl here ↦ rw here refl
          | inr apart ↦ rw apart (any-update_where_id e f rows u m (rw apart at h))
        ])
      ]
