-- ===== src/Client/AutoSave/Refines.antt =====
-- The view of a controller of crates/frontend/src/story_save.rs without its timers, tokens and cells:
-- at most one save that waits.
use dreamwell.Common.{
  opt_map, sym, ◌≡◌, ◌⊎◌, inl, inr, refl, ap, true, false, Option, none, some, List, [], ◌∷◌, arith,
  and_then, ◌==◌, Eq, Bool-cases,
}
use dreamwell.Client.AutoSave.{
  synced, debouncing, Timer, AutoSave, Event, schedule, timer, flush_pending, flush, cancel_pending,
  mark_saved, mark_failed, next, new, step, run, schedule_save, fire, flush_pending_save,
  finish_auto_save,
}

-- The view of a controller: the save that waits and the saves that ran.
pub record Debounced {ℓ} (S : Type ℓ) : Type ℓ where
  pub waiting : Option S
  pub ran : List S

module _ {ℓ} {S : Type ℓ} where
  abbrev pub view : AutoSave S → Debounced S
  view a = record { waiting = and_then a.pending_flush a.cells; ran = a.runs }

  -- The save that waits is run.
  abbrev pub let_run : Debounced S → Debounced S
  let_run d = elim d.waiting [
    | none ↦ d
    | some save ↦ record { waiting = none; ran = save ∷ d.ran }
  ]

  -- What each event means for them; `none` is a panic.
  abbrev pub meaning : Event S → Debounced S → Option (Debounced S)
  meaning (schedule save) d = some (record d { waiting = some save })
  meaning timer d = some (let_run d)
  meaning (flush_pending debouncing) d = none
  meaning (flush_pending seen) d = some d
  meaning (flush save) d = none
  meaning (cancel_pending seen) d = none
  meaning mark_saved d = some d
  meaning (mark_failed message) d = some d

  abbrev pub meanings : List (Event S) → Debounced S → Option (Debounced S)
  meanings [] d = some d
  meanings (e ∷ events) d = and_then (meaning e d) (meanings events)

  -- A controller waits with an armed timer of the latest token on the cell of its save, or not at all.
  abbrev pub IsTimed : AutoSave S → Type ℓ
  IsTimed a =
      (a.armed ≡ false) × (a.pending_flush ≡ none)
      ⊎ (t : Timer) × (save : S) × (a.armed ≡ true)
        × (a.timeout ≡ some t)
        × (a.pending_flush ≡ some t.cell)
        × (t.fired_token ≡ a.token)
        × (a.cells t.cell ≡ some save)

  abbrev Keeps : Event S → AutoSave S → Type ℓ
  Keeps e a =
      (step e a ≡ none) × (meaning e (view a) ≡ none)
      ⊎ (b : AutoSave S) × (step e a ≡ some b) × IsTimed b × (meaning e (view a) ≡ some (view b))

  schedule-IsTimed : (save : S) (a : AutoSave S) → IsTimed (schedule_save save a)
  unfolding schedule_save
  schedule-IsTimed save a = inr (
    record { fired_token = next a.token; cell = a.next_cell },
    save,
    refl,
    refl,
    refl,
    refl,
    ground arith,
  )

  view-schedule :
      (save : S) (a : AutoSave S)
      → view (schedule_save save a) ≡ record (view a) { waiting = some save }
  unfolding schedule_save
  view-schedule save a = ground arith

  fire-IsTimed :
      (a : AutoSave S) → IsTimed a → IsTimed (fire a) × (view (fire a) ≡ let_run (view a))
  unfolding fire
  fire-IsTimed a (inl (off, idle)) = (inl (ground arith, ground arith), ground arith)
  fire-IsTimed a (inr (t, save, on, set, pending, current, full)) =
      (inl (ground arith, ground arith), ground arith)

  step-Keeps : (e : Event S) (a : AutoSave S) → IsTimed a → Keeps e a
  unfolding step
  step-Keeps (schedule save) a h =
      inr
        (schedule_save save a, refl, schedule-IsTimed save a, ap some (sym (view-schedule save a)))
  step-Keeps timer a h =
      let (timed, same) = fire-IsTimed a h in inr (fire a, refl, timed, ap some (sym same))
  step-Keeps (flush_pending debouncing) a h = inl (refl, refl)
  step-Keeps (flush_pending seen) a h = inr (a, refl, h, refl)
  step-Keeps (flush save) a h = inl (refl, refl)
  step-Keeps (cancel_pending seen) a h = inl (refl, refl)
  step-Keeps mark_saved a h = inr (_, refl, h, refl)
  step-Keeps (mark_failed message) a h = inr (_, refl, h, refl)

  run-meanings :
      (events : List (Event S)) (a : AutoSave S)
      → IsTimed a
      → opt_map view (run events a) ≡ meanings events (view a)
  unfolding run
  run-meanings [] a h = refl
  run-meanings (e ∷ events) a h = elim (step-Keeps e a h) [
    | inl (stuck, lost) ↦ rw (stuck, lost) refl
    | inr (b, stepped, timed, same) ↦ rw (stepped, same) (run-meanings events b timed)
  ]

  -- From a new controller on, as long as no event panics, the save that waits and the saves that
  -- ran are as the events mean: a schedule replaces the one that waits, and the timer runs it. A
  -- flush, a cancellation, and a flush of what is pending that sees a debouncing phase panic, and no
  -- other event does.
  pub view-run :
      (events : List (Event S))
      → opt_map view (run events new) ≡ meanings events (record { waiting = none; ran = [] })
  unfolding new
  view-run events = run-meanings events new (inl (refl, refl))

module _ {ℓ κ} {S : Type ℓ} {T : Type κ} ⦃e : Eq T⦄ where
  -- While a save waits, the end of an earlier request shows the field as saved, so that a
  -- flush with the phase that is shown then runs nothing, and the save still waits.
  pub flush_pending-finish :
      (current snapshot last_saved : T) (a : AutoSave S) (save : S)
      → (view a).waiting ≡ some save
      → (flush_pending_save
            (finish_auto_save current snapshot last_saved a).1.1.phase
            (finish_auto_save current snapshot last_saved a).1.1
          ≡ some (finish_auto_save current snapshot last_saved a).1.1)
        × ((finish_auto_save current snapshot last_saved a).1.1.phase ≡ synced)
        × ((view (finish_auto_save current snapshot last_saved a).1.1).waiting ≡ some save)
  unfolding flush_pending_save finish_auto_save
  flush_pending-finish current snapshot last_saved a save h =
      elim (Bool-cases (current == snapshot)) [
        | inl same ↦ rw same (refl, refl, h)
        | inr edited ↦ rw edited (refl, refl, h)
      ]
