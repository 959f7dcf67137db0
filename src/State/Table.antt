-- ===== src/State/Table.antt =====
-- The table of state entries: crates/server/src/state_persist.rs. A statement of SQL is a map, a
-- filter or an append of the rows; none is the failure of the constraint
-- UNIQUE(scope, actor_id, kind, key) of the migrations, in which a NULL actor equals nothing.
use dreamwell.Common.{
  ℕ, Bool, true, false, ◌&&◌, not, Option, none, some, List, [], ◌∷◌, ◌++◌, String, any,
  if◌then◌else◌, ◌==◌, string_eq, option_eq, is_some, or_else, and_then, unwrap_or,
}
use dreamwell.Common.Int.{ℤ, pos, negsuc, ◌+ℤ◌, int_eq, ltb_ℤ}
use dreamwell.Common.Dict.{lookup}
use dreamwell.State.Types.{StateKind, measurement, kind_eq, StateEntry}
use dreamwell.State.Mutation.{
  EntryMutation, insert, update_text, update_measurement, update_sequence, update_kind, delete,
}
use dreamwell.State.Revert.{
  RevertMutation, restore_structured, restore_text, delete_by_key, restore_measurement,
}

-- `next_id` is the key that AUTOINCREMENT gives next.
pub record Table (R : Type 0) : Type 0 where
  pub rows : List (StateEntry R)
  pub next_id : ℤ

-- Temporary ids are negative; an unmapped one is kept.
abbrev pub map_id : List (ℤ × ℤ) → ℤ → ℤ
map_id id_map id = if ltb_ℤ id (pos 0) then unwrap_or (lookup id id_map) id else id

unfoldable pub map_actor_id : Option ℤ → List (ℤ × ℤ) → Option ℤ
unfolding lookup
map_actor_id none id_map = none
map_actor_id (some id) id_map = some (map_id id_map id)

module _ {R : Type 0} where
  -- `scope=? AND actor_id IS ? AND kind=? AND key=?`
  abbrev pub matches : ℤ → Option ℤ → StateKind → String → StateEntry R → Bool
  matches scope actor_id kind key row =
      (row.game_id == scope)
      && ((row.actor_id == actor_id) && ((row.kind == kind) && (row.key == key)))

  -- The unique constraint is broken by a row of the same actor, kind and key.
  abbrev pub conflicts : StateEntry R → StateEntry R → Bool
  conflicts new row = is_some new.actor_id && matches new.game_id new.actor_id new.kind new.key row

  -- `UPDATE … SET … WHERE test`
  unfoldable pub update_where :
      (StateEntry R → Bool)
      → (StateEntry R → StateEntry R)
      → List (StateEntry R)
      → List (StateEntry R)
  update_where test change [] = []
  update_where test change (row ∷ rows) =
      (if test row then change row else row) ∷ update_where test change rows

  -- `DELETE FROM … WHERE test`
  unfoldable pub delete_where : (StateEntry R → Bool) → List (StateEntry R) → List (StateEntry R)
  delete_where test [] = []
  delete_where test (row ∷ rows) =
      let rest = delete_where test rows in if test row then rest else row ∷ rest

  -- An insert under the constraint.
  unfoldable pub insert_row : StateEntry R → Table R → Option (Table R)
  unfolding ◌+ℤ◌
  insert_row new t =
      if any (conflicts new) t.rows
      then none
      else some (record { rows = t.rows ++ new ∷ []; next_id = t.next_id +ℤ pos 1 })

  abbrev pub with_rows : Table R → List (StateEntry R) → Option (Table R)
  with_rows t rows = some (record t { rows = rows })

  -- A row that an insert adds; the older integer columns stay NULL.
  abbrev pub new_row :
      ℤ
      → ℤ
      → Option ℤ
      → StateKind
      → String
      → String
      → Option R
      → Option R
      → Option R
      → Option String
      → ℤ
      → ℕ
      → StateEntry R
  new_row id scope actor_id kind key value float_value float_min float_max unit source now =
      record {
        id = id;
        game_id = scope;
        actor_id = actor_id;
        kind = kind;
        key = key;
        value = value;
        num_value = none;
        max_value = none;
        float_value = float_value;
        float_min = float_min;
        float_max = float_max;
        unit = unit;
        source_turn = source;
        updated_at = now;
      }

module _ {R : Type 0} (scope source : ℤ) (now : ℕ) (id_map : List (ℤ × ℤ)) where
  unfoldable pub persist_state_mutation : EntryMutation R → Table R → Option (Table R)
  unfolding insert_row update_where delete_where map_actor_id
  persist_state_mutation (insert actor_id kind key value float_value float_min float_max unit) t =
      insert_row
        (new_row t.next_id scope (map_actor_id actor_id id_map) kind key value float_value float_min
          float_max unit source now)
        t
  persist_state_mutation (update_measurement id float_value float_min float_max unit true) t =
      with_rows t (
        update_where (λ row. row.id == id)
          (λ row. record row {
            value = "";
            float_value = none;
            float_min = none;
            float_max = none;
            unit = none;
            source_turn = source;
            updated_at = now;
          })
          t.rows)
  persist_state_mutation (update_measurement id float_value float_min float_max unit false) t =
      with_rows t (
        update_where (λ row. row.id == id)
          (λ row. record row {
            float_value = or_else float_value row.float_value;
            float_min = float_min;
            float_max = float_max;
            unit = or_else unit row.unit;
            source_turn = source;
            updated_at = now;
          })
          t.rows)
  persist_state_mutation (update_sequence id value) t = with_rows t (
      update_where (λ row. row.id == id)
        (λ row. record row { value = value; source_turn = source; updated_at = now }) t.rows)
  persist_state_mutation (update_text id value) t = with_rows t (
      update_where (λ row. row.id == id)
        (λ row. record row { value = value; source_turn = source; updated_at = now }) t.rows)
  -- Four values are bound to the three places of this statement: its `id` is compared with `now`, a
  -- text that no id equals, so that no row is changed, and the fourth value has no place.
  persist_state_mutation (update_kind id kind) t = some t
  persist_state_mutation (delete id) t = with_rows t (delete_where (λ row. row.id == id) t.rows)

  -- The loop over the mutations of a plan; the first failure ends it.
  unfoldable pub persist_mutations : List (EntryMutation R) → Table R → Option (Table R)
  unfolding persist_state_mutation
  persist_mutations [] t = some t
  persist_mutations (m ∷ ms) t = and_then (persist_state_mutation m t) (persist_mutations ms)

module _ {R : Type 0} (scope : ℤ) (now : ℕ) where
  -- The update first; if it met no row and there is a value, an insert.
  abbrev pub upsert_measurement :
      Option ℤ
      → String
      → Option R
      → Option R
      → Option R
      → Option String
      → Table R
      → Option (Table R)
  upsert_measurement actor_id key float_value float_min float_max unit t =
      let test = matches scope actor_id measurement key in
      let changed = λ (row : StateEntry R). record row {
        value = "";
        float_value = float_value;
        float_min = float_min;
        float_max = float_max;
        unit = unit;
        updated_at = now;
      } in
      let fresh =
        new_row t.next_id scope actor_id measurement key "" float_value float_min float_max unit
          (negsuc 0) now in
      if not (any test t.rows) && is_some float_value
      then insert_row fresh t
      else with_rows t (update_where test changed t.rows)

  unfoldable pub persist_state_revert : RevertMutation R → Table R → Option (Table R)
  unfolding insert_row update_where delete_where
  persist_state_revert (restore_structured actor_id kind key value) t = with_rows t (
      update_where (matches scope actor_id kind key)
        (λ row. record row { value = value; game_id = scope; updated_at = now }) t.rows)
  persist_state_revert (restore_text actor_id kind key value) t = with_rows t (
      update_where (matches scope actor_id kind key)
        (λ row. record row { value = value; updated_at = now }) t.rows)
  persist_state_revert (delete_by_key actor_id kind key) t =
      with_rows t (delete_where (matches scope actor_id kind key) t.rows)
  persist_state_revert (restore_measurement actor_id key float_value float_min float_max unit) t =
      upsert_measurement actor_id key float_value float_min float_max unit t

  unfoldable pub persist_reverts : List (RevertMutation R) → Table R → Option (Table R)
  unfolding persist_state_revert
  persist_reverts [] t = some t
  persist_reverts (m ∷ ms) t = and_then (persist_state_revert m t) (persist_reverts ms)
