-- ===== src/Client/Sse.antt =====
-- The state of a connection to the event stream: crates/frontend/src/sse_client.rs. A method that
-- changes the state returns the new one, and what the method returns.
use dreamwell.Common.{
  ℕ, ◌+◌, ◌*◌, ◌^◌, min, Bool, true, not, Option, none, some, if◌then◌else◌, Eq, ◌==◌, ◌≡◌, ◌↔◌,
  nat_beq, arith,
}

abbrev pub u32_max : ℕ
u32_max = 4294967295

abbrev pub saturating_add : ℕ → ℕ → ℕ
saturating_add a b = min (a + b) u32_max

abbrev pub saturating_mul : ℕ → ℕ → ℕ
saturating_mul a b = min (a * b) u32_max

abbrev pub saturating_pow : ℕ → ℕ → ℕ
saturating_pow a b = min (a ^ b) u32_max

abbrev pub idle_reconnect_ms : ℕ
idle_reconnect_ms = 2000

abbrev pub max_backoff_ms : ℕ
max_backoff_ms = 30000

abbrev pub base_backoff_ms : ℕ
base_backoff_ms = 1000

pub data ConnectionMode : Type 0 where
  active paused stopped : ConnectionMode

abbrev pub mode_code : ConnectionMode → ℕ
mode_code active = 0
mode_code paused = 1
mode_code stopped = 2

pub mode_code_iff : (a b : ConnectionMode) → (nat_beq (mode_code a) (mode_code b) ≡ true) ↔ (a ≡ b)
mode_code_iff a b = ground arith

instance abbrev pub mode_eq : Eq ConnectionMode
mode_eq = record { eqb = λ a b. nat_beq (mode_code a) (mode_code b); eqb_iff = mode_code_iff }

-- `not_scheduled` is the source's `None`.
pub data ScheduledReconnect : Type 0 where
  not_scheduled : ScheduledReconnect
  after_ms : ℕ → ScheduledReconnect

pub record SseConnectionState : Type 0 where
  pub mode : ConnectionMode
  pub attempt : ℕ
  pub pending_reconnect_ms : Option ℕ

abbrev pub new : SseConnectionState
new = record { mode = active; attempt = 0; pending_reconnect_ms = none }

abbrev pub pending_reconnect : SseConnectionState → ScheduledReconnect
pending_reconnect s = elim s.pending_reconnect_ms [ none ↦ not_scheduled | some ms ↦ after_ms ms ]

abbrev pub can_connect : SseConnectionState → Bool
can_connect s = s.mode == active

unfoldable pub pause : SseConnectionState → SseConnectionState
pause s = if s.mode == stopped then s else record s { mode = paused; pending_reconnect_ms = none }

unfoldable pub resume : SseConnectionState → SseConnectionState
resume s =
    if s.mode == stopped
    then s
    else record s { mode = active; attempt = 0; pending_reconnect_ms = none }

unfoldable pub reconnect : SseConnectionState → SseConnectionState
reconnect s =
    if s.mode == stopped
    then s
    else record s { mode = active; attempt = 0; pending_reconnect_ms = none }

unfoldable pub stop : SseConnectionState → SseConnectionState
stop s = record s { mode = stopped; pending_reconnect_ms = none }

unfoldable pub on_message : SseConnectionState → SseConnectionState
on_message s = record s { attempt = 0 }

unfoldable pub error_backoff_ms : ℕ → ℕ
error_backoff_ms attempt =
    min (saturating_mul base_backoff_ms (saturating_pow 2 (min attempt 5))) max_backoff_ms

unfoldable pub schedule_error_reconnect :
    SseConnectionState → SseConnectionState × ScheduledReconnect
unfolding error_backoff_ms
schedule_error_reconnect s =
    let delay_ms = error_backoff_ms s.attempt in
    if not (s.mode == active) then (s, not_scheduled) else (
      record s { attempt = saturating_add s.attempt 1; pending_reconnect_ms = some delay_ms },
      after_ms delay_ms,
    )

unfoldable pub on_connect_failed : SseConnectionState → SseConnectionState × ScheduledReconnect
unfolding schedule_error_reconnect
on_connect_failed s = schedule_error_reconnect s

unfoldable pub on_idle : SseConnectionState → SseConnectionState × ScheduledReconnect
on_idle s =
    if not (s.mode == active)
    then (s, not_scheduled)
    else (record s { pending_reconnect_ms = some idle_reconnect_ms }, after_ms idle_reconnect_ms)

unfoldable pub on_error : SseConnectionState → SseConnectionState × ScheduledReconnect
unfolding schedule_error_reconnect
on_error s = if s.mode == stopped then (s, not_scheduled) else schedule_error_reconnect s

unfoldable pub clear_pending_reconnect : SseConnectionState → SseConnectionState
clear_pending_reconnect s = record s { pending_reconnect_ms = none }
