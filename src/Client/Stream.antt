-- ===== src/Client/Stream.antt =====
-- A connection over time: sequences of calls of the methods of crates/frontend/src/sse_client.rs.
use dreamwell.Common.{
  ℕ, zero, suc, ◌+◌, ◌*◌, ◌^◌, ◌≤◌, ◌≡◌, refl, inl, ◌⊎◌, min, Option, none, some, List, [], ◌∷◌,
  arith,
}
use dreamwell.Client.Sse.{
  SseConnectionState, active, stopped, mode_eq, ScheduledReconnect, not_scheduled, after_ms, new,
  pause, resume, reconnect, stop, on_message, on_connect_failed, on_idle, on_error,
  clear_pending_reconnect, schedule_error_reconnect, u32_max,
}
use dreamwell.Client.Backoff.{error_backoff_ms_mono, error_backoff_ms_lem}

-- A call of a method.
pub data Call : Type 0 where
  pausing resuming reconnecting stopping got_message connect_failed idled errored clearing : Call

-- The state after a call, and what the call schedules.
unfoldable pub call : Call → SseConnectionState → SseConnectionState × ScheduledReconnect
unfolding pause resume reconnect stop on_message on_connect_failed on_idle on_error
    clear_pending_reconnect
call pausing s = (pause s, not_scheduled)
call resuming s = (resume s, not_scheduled)
call reconnecting s = (reconnect s, not_scheduled)
call stopping s = (stop s, not_scheduled)
call got_message s = (on_message s, not_scheduled)
call connect_failed s = on_connect_failed s
call idled s = on_idle s
call errored s = on_error s
call clearing s = (clear_pending_reconnect s, not_scheduled)

unfoldable pub run : List Call → SseConnectionState → SseConnectionState
unfolding call
run [] s = s
run (c ∷ calls) s = run calls (call c s).0

abbrev pub IsWait : Option ℕ → Type 0
IsWait none = Unit
IsWait (some ms) = (1000 ≤ ms) × (ms ≤ 30000)

-- A connection that is not active waits for no reconnect, the attempts fit 32 bits, and a wait is
-- between one second and thirty.
abbrev pub IsConsistent : SseConnectionState → Type 0
IsConsistent s =
    (s.attempt ≤ u32_max)
    × ((s.mode ≡ active) ⊎ (s.pending_reconnect_ms ≡ none))
    × IsWait s.pending_reconnect_ms

call-IsConsistent : (c : Call) (s : SseConnectionState) → IsConsistent s → IsConsistent (call c s).0
unfolding call pause resume reconnect stop on_message on_connect_failed on_idle on_error
    clear_pending_reconnect schedule_error_reconnect
call-IsConsistent c s (few, quiet, wait) =
    let (mono, low, high) = error_backoff_ms_mono s.attempt s.attempt (omega arith) in
    (ground arith, ground arith, ground arith)

run-IsConsistent :
    (calls : List Call) (s : SseConnectionState) → IsConsistent s → IsConsistent (run calls s)
unfolding run
run-IsConsistent [] s h = h
run-IsConsistent (c ∷ calls) s h = run-IsConsistent calls (call c s).0 (call-IsConsistent c s h)

-- Whatever is called on a new connection, in whatever order: a connection that is not active waits for
-- no reconnect, the attempts fit 32 bits, and a wait is between one second and thirty.
pub run-new : (calls : List Call) → IsConsistent (run calls new)
run-new calls = run-IsConsistent calls new (omega arith, inl refl, tt)

-- A call schedules a reconnect only on an active connection, which then waits for just that time.
pub call-scheduled :
    (c : Call) (s : SseConnectionState) (ms : ℕ)
    → (call c s).1 ≡ after_ms ms
    → (s.mode ≡ active)
      × ((call c s).0.mode ≡ active)
      × ((call c s).0.pending_reconnect_ms ≡ some ms)
unfolding call on_connect_failed on_idle on_error schedule_error_reconnect
call-scheduled c s ms h = ground arith

-- A stopped connection never connects again and schedules nothing.
pub run-stopped :
    (calls : List Call) (c : Call) (s : SseConnectionState)
    → s.mode ≡ stopped
    → ((run calls s).mode ≡ stopped) × ((call c (run calls s)).1 ≡ not_scheduled)
unfolding run call pause resume reconnect stop on_message on_connect_failed on_idle on_error
    clear_pending_reconnect schedule_error_reconnect
run-stopped [] c s h = (h, ground arith)
run-stopped (d ∷ calls) c s h = run-stopped calls c (call d s).0 (ground arith)

abbrev pub failures : ℕ → List Call
failures zero = []
failures (suc n) = errored ∷ failures n

one_failure :
    (s : SseConnectionState)
    → s.mode ≡ active
    → s.attempt + 1 ≤ u32_max
    → ((call errored s).0.mode ≡ active) × ((call errored s).0.attempt ≡ s.attempt + 1)
unfolding call on_error schedule_error_reconnect
one_failure s h fits = (ground arith, ground arith)

failures_from :
    (n : ℕ) (s : SseConnectionState)
    → s.mode ≡ active
    → s.attempt + n ≤ u32_max
    → ((run (failures n) s).mode ≡ active) × ((run (failures n) s).attempt ≡ s.attempt + n)
unfolding run
failures_from zero s h fits = (h, omega arith)
failures_from (suc n) s h fits =
    let next : SseConnectionState = (call errored s).0 in
    let (mode, attempt) = one_failure s h (omega arith) in
    let (last, total) = failures_from n next mode (omega arith) in (last, omega arith)

-- After n failures in a row the next one waits 2^n seconds, and at most thirty.
pub call-failures :
    (n : ℕ)
    → n ≤ u32_max
    → (call errored (run (failures n) new)).1 ≡ after_ms (min (1000 * 2 ^ n) 30000)
unfolding call on_error schedule_error_reconnect
call-failures n fits =
    let (mode, attempt) = failures_from n new refl (omega arith) in
    let delay = error_backoff_ms_lem n in ground arith
