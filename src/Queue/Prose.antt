-- ===== src/Queue/Prose.antt =====
-- The wait before a generation is tried again and the prose that a continuation is appended to:
-- `wait_for_generation_retry` and `append_prose_continuation` of crates/server/src/queue.rs.
use Prim.Native.String.{◌++◌}
use text.Mathlib.TextLemmas.{nil-append, cons-append}
use dreamwell.Common.{
  ℕ, ◌+◌, ◌-◌, ◌%◌, ◌^◌, ◌≤◌, ◌<◌, ◌≡◌, refl, ap, ◌∙◌, true, String, min, if◌then◌else◌, arith,
}
use dreamwell.Common.Text.{is_whitespace, is_blank, trim_start, trim_end, is_empty_text}
use dreamwell.Common.Text.Laws.{all_chars-append}

-- `attempt` is a `u32`, whose difference wraps.
unfoldable pub retry_delay_secs : ℕ → ℕ
retry_delay_secs attempt = 2 ^ min ((attempt + 4294967294) % 4294967296) 3

unfoldable pub append_prose_continuation : String → String → String
append_prose_continuation base continuation =
    let base' = trim_end base in
    let continuation' = trim_start continuation in
    if is_empty_text base'
    then (if is_empty_text continuation' then "" else continuation')
    else if is_empty_text continuation'
    then base' ++ "\n\n"
    else base' ++ ("\n\n" ++ continuation')

-- From the second attempt on the wait doubles from one second and stops at eight.
pub retry_delay_secs_lem :
    (attempt : ℕ)
    → 2 ≤ attempt
    → attempt < 4294967296
    → retry_delay_secs attempt ≡ 2 ^ min (attempt - 2) 3
unfolding retry_delay_secs
retry_delay_secs_lem attempt h k = ap (λ n. 2 ^ min n 3) (omega arith)

trim_start-append : (w s : String) → is_blank w ≡ true → trim_start (w ++ s) ≡ trim_start s
trim_start-append String.[] s h = ap trim_start (nil-append s)
trim_start-append (String.◌∷◌ c w) s h =
    rw (cons-append c w s) (ground (arith, trim_start-append w s))

trim_end_blank : (w : String) → is_blank w ≡ true → trim_end w ≡ ""
trim_end_blank String.[] h = refl
trim_end_blank (String.◌∷◌ c w) h = ground arith

trim_end-append : (s w : String) → is_blank w ≡ true → trim_end (s ++ w) ≡ trim_end s
trim_end-append String.[] w h = ap trim_end (nil-append w) ∙ trim_end_blank w h
trim_end-append (String.◌∷◌ c s) w h =
    rw (cons-append c s w) (ground (arith, trim_end-append s w, all_chars-append is_whitespace s w))

-- Blank text at the join is not seen.
pub append_prose_continuation_blank :
    (base continuation after before : String)
    → is_blank after ≡ true
    → is_blank before ≡ true
    → append_prose_continuation (base ++ after) (before ++ continuation)
      ≡ append_prose_continuation base continuation
unfolding append_prose_continuation
append_prose_continuation_blank base continuation after before h k =
    rw (trim_end-append base after h, trim_start-append before continuation k) refl
