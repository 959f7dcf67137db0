-- ===== src/Client/AutoSave.antt =====
-- The debounced saving of a field: `AutoSaveController` of crates/frontend/src/story_save.rs, `DebounceToken` of
-- story_sync.rs.
pub mod Refines
use dreamwell.Common.{
  ℕ, suc, opt_map, and_then, ◌+◌, ◌≡◌, refl, Bool, true, false, not, Option, none, some, List, [],
  ◌∷◌, String, if◌then◌else◌, nat_beq, ltb, ◌==◌, string_eq, Eq,
}

pub data AutoSavePhase : Type 0 where
  synced debouncing saving failed : AutoSavePhase

-- A token is a `u64` that stops at its largest value.
abbrev pub u64_max : ℕ
u64_max = 18446744073709551615

abbrev pub next : ℕ → ℕ
next token = if ltb token u64_max then suc token else token

-- The cell of the token: its value, and how many borrows of it are alive. None is alive between
-- two statements.
pub record RefCell : Type 0 where
  pub value : ℕ
  pub borrows : ℕ

-- `*cell.borrow_mut() = value`: `none` is the panic of `borrow_mut` while a borrow is alive.
abbrev pub assign : ℕ → RefCell → Option RefCell
assign value cell = if nat_beq cell.borrows 0 then some (record cell { value = value }) else none

-- The statement `*token.borrow_mut() = token.borrow().next();`. The right side is computed first,
-- and its borrow is alive until the end of the statement.
abbrev pub advance_in_place : ℕ → Option ℕ
advance_in_place token =
    let read : RefCell = record { value = token; borrows = 1 } in
    opt_map (λ (cell : RefCell). cell.value) (assign (next read.value) read)

abbrev pub is_current : ℕ → ℕ → Bool
is_current token latest = nat_beq token latest

-- A timer's callback holds the token it was set with and the cell of its save.
pub record Timer : Type 0 where
  pub fired_token : ℕ
  pub cell : ℕ

-- The cells that the clones of a controller share, the component state that its handles set, and the
-- saves that ran, the last in front. `armed` says that the timer of the handle `timeout` has not
-- fired; a handle that is dropped cancels its timer.
module _ {ℓ} (S : Type ℓ) where
  pub record AutoSave : Type ℓ where
    pub timeout : Option Timer
    pub armed : Bool
    pub token : ℕ
    pub pending_flush : Option ℕ
    pub cells : ℕ → Option S
    pub next_cell : ℕ
    pub phase : AutoSavePhase
    pub error : Option String
    pub runs : List S

  pub data Event : Type ℓ where
    schedule : S → Event
    timer : Event
    flush_pending : AutoSavePhase → Event
    flush : S → Event
    cancel_pending : AutoSavePhase → Event
    mark_saved : Event
    mark_failed : String → Event

abbrev pub should_flush_on_tab_hide : AutoSavePhase → Bool
should_flush_on_tab_hide debouncing = true
should_flush_on_tab_hide phase = false

abbrev pub put_cell {ℓ} : {S : Type ℓ} → ℕ → Option S → (ℕ → Option S) → ℕ → Option S
put_cell i v cells j = if nat_beq i j then v else cells j

module _ {ℓ} {S : Type ℓ} where
  unfoldable pub new : AutoSave S
  new = record {
    timeout = none;
    armed = false;
    token = 0;
    pending_flush = none;
    cells = λ i. none;
    next_cell = 0;
    phase = synced;
    error = none;
    runs = [];
  }

  -- The handle is dropped and the token passed on in one statement; `none` is its panic.
  abbrev pub disarm : AutoSave S → Option (AutoSave S)
  disarm a =
      opt_map (λ token. record a { timeout = none; armed = false; token = token })
        (advance_in_place a.token)

  -- The save of a cell is taken out and run, if it is there.
  abbrev pub run_cell : ℕ → AutoSave S → AutoSave S
  run_cell i a = elim (a.cells i) [
    | none ↦ a
    | some save ↦ record a { cells = put_cell i none a.cells; runs = save ∷ a.runs }
  ]

  unfoldable pub schedule_save : S → AutoSave S → AutoSave S
  schedule_save save a =
      let fired = next a.token in
      record a {
        timeout = some (record { fired_token = fired; cell = a.next_cell });
        armed = true;
        token = fired;
        pending_flush = some a.next_cell;
        cells = put_cell a.next_cell (some save) a.cells;
        next_cell = suc a.next_cell;
        phase = debouncing;
      }

  -- The callback of the timer.
  abbrev pub callback : Timer → AutoSave S → AutoSave S
  callback t a =
      let taken : AutoSave S = record a { pending_flush = none } in
      if is_current t.fired_token a.token
      then elim (a.cells t.cell) [
        | none ↦ taken
        | some save ↦ run_cell t.cell (record taken { phase = saving })
      ]
      else a

  pub fire : AutoSave S → AutoSave S
  fire a = elim a.timeout [
    | none ↦ a
    | some t ↦ if a.armed then callback t (record a { armed = false }) else a
  ]

  -- What follows once the token is passed on.
  abbrev pub flush_waiting : Option ℕ → AutoSave S → AutoSave S
  flush_waiting none a = record a { pending_flush = none }
  flush_waiting (some i) a = run_cell i (record a { pending_flush = none; phase = saving })

  -- `seen` is the phase that the handle of the caller reads: that of the render which made it.
  pub flush_pending_save : AutoSavePhase → AutoSave S → Option (AutoSave S)
  flush_pending_save seen a =
      if should_flush_on_tab_hide seen
      then opt_map (flush_waiting a.pending_flush) (disarm a)
      else some a

  pub flush_save : S → AutoSave S → Option (AutoSave S)
  flush_save save a =
      opt_map
        (λ (b : AutoSave S). record b {
          pending_flush = none;
          phase = saving;
          runs = save ∷ a.runs;
        })
        (disarm a)

  pub cancel_pending_save : AutoSavePhase → AutoSave S → Option (AutoSave S)
  cancel_pending_save seen a =
      opt_map
        (λ (b : AutoSave S). record b {
          pending_flush = none;
          phase = if should_flush_on_tab_hide seen then synced else a.phase;
        })
        (disarm a)

  pub mark_as_saved : AutoSave S → AutoSave S
  mark_as_saved a = record a { error = none; phase = synced }

  pub mark_as_failed : String → AutoSave S → AutoSave S
  mark_as_failed message a = record a { error = some message; phase = failed }

  -- `none` is a panic of the event's handler.
  pub step : Event S → AutoSave S → Option (AutoSave S)
  unfolding schedule_save fire flush_pending_save flush_save cancel_pending_save mark_as_saved
      mark_as_failed
  step (schedule save) a = some (schedule_save save a)
  step timer a = some (fire a)
  step (flush_pending seen) a = flush_pending_save seen a
  step (flush save) a = flush_save save a
  step (cancel_pending seen) a = cancel_pending_save seen a
  step mark_saved a = some (mark_as_saved a)
  step (mark_failed message) a = some (mark_as_failed message a)

  pub run : List (Event S) → AutoSave S → Option (AutoSave S)
  unfolding step
  run [] a = some a
  run (e ∷ events) a = and_then (step e a) (run events)

pub data AutoSaveOutcome : Type 0 where
  up_to_date stale : AutoSaveOutcome

pub draft_is_dirty {ℓ} : {T : Type ℓ} ⦃e : Eq T⦄ → T → T → Bool
draft_is_dirty draft last_saved = not (draft == last_saved)

-- The draft that was saved last, and the controller, after the end of a request.
module _ {ℓ κ} {S : Type ℓ} {T : Type κ} ⦃e : Eq T⦄ where
  pub finish_auto_save : T → T → T → AutoSave S → AutoSaveOutcome × (T × AutoSave S)
  unfolding mark_as_saved
  finish_auto_save current snapshot last_saved a =
      if current == snapshot
      then (up_to_date, (snapshot, mark_as_saved a))
      else (stale, (last_saved, mark_as_saved a))

  pub fail_auto_save : T → T → String → AutoSave S → AutoSaveOutcome × AutoSave S
  unfolding mark_as_saved mark_as_failed
  fail_auto_save current snapshot message a =
      if current == snapshot
      then (up_to_date, mark_as_failed message a)
      else (stale, mark_as_saved a)
