-- ===== src/Summary/Plan.antt =====
-- Which messages a summary takes and which it keeps: `plan_summarization` and `adaptive_keep_count` of
-- crates/server/src/summarize.rs, `estimate_static_prompt_tokens` of prompts.rs.
use dreamwell.Common.{
  ℕ, suc, ◌+◌, ◌-◌, Bool, true, false, ◌&&◌, ◌||◌, not, ltb, leb, nat_beq, Option, none, some, List,
  [], ◌∷◌, map, reverse, String, if◌then◌else◌, take, length, keep, get_elem?, opt_map, min, max,
}
use dreamwell.Common.Int.{ℤ, pos, ◌-ℤ◌, ◌+ℤ◌, ltb_ℤ, leb_ℤ, clamp_ℤ, wrap64, pos_part}
use dreamwell.Common.Text.Utf8.{byte_len}
use dreamwell.Client.Chat.{MessageRole, system}
use dreamwell.Summary.Tokens.{
  Settings, max_ℤ, div_ℤ, estimate_token_count, tokens_of_bytes, prompt_token_budget,
}
use dreamwell.Summary.Batch.{Message, message_token_count}

pub record Character : Type 0 where
  pub name : String
  pub description : String
  pub personality : String
  pub scenario : String
  pub system_prompt : String
  pub example_dialogue : String
  pub first_message : String

abbrev pub character_bytes : Option Character → ℕ
character_bytes none = 0
character_bytes (some c) =
    byte_len c.name
    + byte_len c.description
    + byte_len c.personality
    + byte_len c.scenario
    + byte_len c.system_prompt
    + byte_len c.example_dialogue
    + byte_len c.first_message

unfoldable pub estimate_static_prompt_tokens : Settings → Option Character → ℤ
estimate_static_prompt_tokens settings character = pos (
    tokens_of_bytes (
      byte_len settings.system_prompt_prefix
      + byte_len settings.system_prompt_suffix
      + byte_len settings.persona_description
      + byte_len settings.user_name
      + character_bytes character))

abbrev pub is_system : MessageRole → Bool
is_system system = true
is_system role = false

abbrev pub is_active_for_context : Message → Bool
is_active_for_context m = not m.is_summary && (not (is_system m.role) && not m.in_summary)

unfoldable pub available_history : Settings → String → Option Character → ℤ
unfolding prompt_token_budget estimate_static_prompt_tokens
available_history settings chat_summary character =
    let prompt_budget = prompt_token_budget settings.context_tokens settings.max_tokens in
    max_ℤ
      (wrap64 (
        prompt_budget
        -ℤ clamp_ℤ (div_ℤ prompt_budget 4) (pos 256) (pos 1024)
        -ℤ clamp_ℤ (div_ℤ prompt_budget 8) (pos 128) (pos 512)
        -ℤ estimate_static_prompt_tokens settings character
        -ℤ estimate_token_count chat_summary))
      (pos 0)

-- The loop over the messages from the newest on.
unfoldable pub keep_from : ℕ → ℤ → ℕ → ℤ → List Message → ℕ
keep_from min_keep available kept used [] = kept
keep_from min_keep available kept used (m ∷ messages) =
    let taken = wrap64 (used +ℤ message_token_count m) in
    let rest = keep_from min_keep available (suc kept) taken messages in
    if ltb kept min_keep || leb_ℤ taken available then rest else kept

unfoldable pub adaptive_keep_count : Settings → String → List Message → Option Character → ℕ → ℕ
unfolding available_history keep_from prompt_token_budget
adaptive_keep_count settings chat_summary messages character min_keep =
    let kept =
      keep_from min_keep (available_history settings chat_summary character) 0 (pos 0)
        (reverse messages) in
    if leb_ℤ (prompt_token_budget settings.context_tokens settings.max_tokens) (pos 0)
    then min_keep
    else min (max kept min_keep) (length messages)

pub record SummarizePlan : Type 0 where
  pub to_summarize_ids : List ℤ
  pub anchor_before : ℕ
  pub summarized_count : ℕ

abbrev pub min_keep_of : Settings → ℕ
min_keep_of settings = pos_part (max_ℤ settings.summarize_keep_recent (pos 2))

abbrev pub is_adaptive : Settings → Bool
is_adaptive settings = settings.summarize_adaptive && ltb_ℤ (pos 0) settings.context_tokens

unfoldable pub keep_count : Settings → String → List Message → Option Character → ℕ
unfolding adaptive_keep_count
keep_count settings chat_summary active character =
    if is_adaptive settings
    then adaptive_keep_count settings chat_summary active character (min_keep_of settings)
    else min_keep_of settings

-- The end of the planning; the outer `none` is the panic of the index `[split_at]`.
abbrev pub plan_at : ℕ → List Message → Option (Option SummarizePlan)
plan_at split_at active =
    opt_map
      (λ (m : Message). some (record {
        to_summarize_ids = map (λ (c : Message). c.id) (take split_at active);
        anchor_before = m.created_at;
        summarized_count = split_at;
      }))
      (get_elem? active split_at)

unfoldable pub plan_summarization :
    Settings → String → List Message → Option Character → Bool → Option (Option SummarizePlan)
unfolding keep_count
plan_summarization settings chat_summary messages character force =
    let active = keep is_active_for_context messages in
    let min_total =
      if force
      then min_keep_of settings
      else pos_part (max_ℤ settings.summarize_after_messages (pos 4)) in
    let split_at = length active - keep_count settings chat_summary active character in
    if not force && not settings.summarize_enabled
    then some none
    else if leb (length active) min_total
    then some none
    else if nat_beq split_at 0
    then some none
    else if not force
        && ((not settings.summarize_adaptive || leb_ℤ settings.context_tokens (pos 0))
            && leb_ℤ (pos (length active)) settings.summarize_after_messages)
    then some none
    else plan_at split_at active
