-- ===== src/Summary/Tokens.antt =====
-- Token budgets: `estimate_token_count` and `prompt_token_budget` of crates/dreamwell-types/src/lib.rs and the
-- budgets of crates/server/src/summarize.rs.
use dreamwell.Common.{ℕ, ◌+◌, ◌/◌, ◌≤◌, Bool, String, if◌then◌else◌, arith, Bool-cases, inl, inr}
use dreamwell.Common.Int.{
  ℤ, pos, negsuc, ◌+ℤ◌, ◌-ℤ◌, ltb_ℤ, leb_ℤ, clamp_ℤ, sub_ℕ, wrap64, pos_part,
}
use dreamwell.Common.Text.Utf8.{byte_len}

-- `max` and `/` of `i64`; division drops the fraction.
abbrev pub max_ℤ : ℤ → ℤ → ℤ
max_ℤ a b = if ltb_ℤ a b then b else a

abbrev pub div_ℤ : ℤ → ℕ → ℤ
div_ℤ (pos a) n = pos (a / n)
div_ℤ (negsuc a) n = sub_ℕ 0 ((a + 1) / n)

-- A text is shorter than 2^63 - 3 bytes.
abbrev pub tokens_of_bytes : ℕ → ℕ
tokens_of_bytes n = (n + 3) / 4

abbrev pub estimate_token_count : String → ℤ
estimate_token_count text = pos (tokens_of_bytes (byte_len text))

unfoldable pub prompt_token_budget : ℤ → ℤ → ℤ
prompt_token_budget context_tokens response_tokens =
    if leb_ℤ context_tokens (pos 0)
    then pos 0
    else max_ℤ (wrap64 (context_tokens -ℤ response_tokens)) (pos 0)

-- The settings that the summaries read.
pub record Settings : Type 0 where
  pub max_tokens : ℤ
  pub context_tokens : ℤ
  pub summarize_enabled : Bool
  pub summarize_adaptive : Bool
  pub summarize_after_messages : ℤ
  pub summarize_keep_recent : ℤ
  pub system_prompt_prefix : String
  pub system_prompt_suffix : String
  pub user_name : String
  pub persona_description : String

unfoldable pub structured_output_tokens : Settings → ℤ
structured_output_tokens settings =
    let requested = max_ℤ settings.max_tokens (pos 512) in
    if ltb_ℤ (pos 0) settings.context_tokens
    then (if ltb_ℤ (div_ℤ settings.context_tokens 3) requested
        then div_ℤ settings.context_tokens 3
        else requested)
    else requested

unfoldable pub summary_output_tokens : Settings → ℤ
summary_output_tokens settings =
    if ltb_ℤ (pos 0) settings.context_tokens
    then max_ℤ (clamp_ℤ (div_ℤ settings.context_tokens 8) (pos 256) (pos 1024)) (pos 256)
    else pos 512

abbrev pub input_tokens : Settings → String → ℤ
unfolding summary_output_tokens prompt_token_budget
input_tokens settings previous_summary =
    let output = summary_output_tokens settings in
    let prompt_budget =
      if ltb_ℤ (pos 0) settings.context_tokens
      then prompt_token_budget settings.context_tokens output
      else pos 2048 +ℤ output in
    wrap64 (prompt_budget -ℤ pos 80 -ℤ pos 48 -ℤ estimate_token_count previous_summary)

unfoldable pub summarize_input_token_budget : Settings → String → ℤ
unfolding summary_output_tokens prompt_token_budget
summarize_input_token_budget settings previous_summary =
    max_ℤ (input_tokens settings previous_summary) (pos 256)

max_ℤ_floor : (x : ℤ) (n : ℕ) → n ≤ pos_part (max_ℤ x (pos n))
max_ℤ_floor (pos m) n = ground arith
max_ℤ_floor (negsuc m) n = ground arith

clamped : (x : ℤ) → pos_part (max_ℤ (clamp_ℤ x (pos 256) (pos 1024)) (pos 256)) ≤ 1024
clamped (pos m) = ground arith
clamped (negsuc m) = ground arith

output_bounds :
    (settings : Settings)
    → (256 ≤ pos_part (summary_output_tokens settings))
      × (pos_part (summary_output_tokens settings) ≤ 1024)
unfolding summary_output_tokens
output_bounds settings = elim (Bool-cases (ltb_ℤ (pos 0) settings.context_tokens)) [
  | inl known ↦ rw known (
    max_ℤ_floor (clamp_ℤ (div_ℤ settings.context_tokens 8) (pos 256) (pos 1024)) 256,
    clamped (div_ℤ settings.context_tokens 8),
  )
  | inr unknown ↦ rw unknown (omega arith, omega arith)
]

-- The input budget is never below its floor, and the output is between 256 tokens and 1024.
pub summarize_budgets :
    (settings : Settings) (previous_summary : String)
    → (256 ≤ pos_part (summarize_input_token_budget settings previous_summary))
      × (256 ≤ pos_part (summary_output_tokens settings))
      × (pos_part (summary_output_tokens settings) ≤ 1024)
unfolding summarize_input_token_budget
summarize_budgets settings previous_summary = (
  max_ℤ_floor (input_tokens settings previous_summary) 256,
  (output_bounds settings).0,
  (output_bounds settings).1,
)
