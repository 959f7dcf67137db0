-- ===== src/Summary/Loop.antt =====
-- The passes of one summarize job: `execute_summarize_loop` of crates/server/src/summarize.rs and the
-- statements of db.rs that it runs.
use Prim.Native.String.{◌++◌}
use dreamwell.Common.{
  ℕ, zero, suc, ◌+◌, Bool, true, Option, none, some, List, [], ◌∷◌, map, String, if◌then◌else◌,
  length, keep, any, ◌==◌, or_else, nat_beq,
}
use dreamwell.Common.Int.{ℤ, int_eq}
use dreamwell.Common.Text.{join, is_empty_text}
use dreamwell.Client.Chat.{MessageRole, system, user, assistant}
use dreamwell.Inference.Notice.{AppError}
use dreamwell.Inference.Fallback.{AppResult, ok, err}
use dreamwell.Summary.Tokens.{Settings}
use dreamwell.Summary.Batch.{Message, select_oldest_batch_for_budget}
use dreamwell.Summary.Plan.{Character, SummarizePlan, plan_summarization}

-- The row of the chat and its messages.
pub record ChatState : Type 0 where
  pub summary : String
  pub updated_at : ℕ
  pub messages : List Message

abbrev pub contains : ℤ → List ℤ → Bool
contains id ids = any (λ i. i == id) ids

-- `UPDATE messages SET in_summary = 1 WHERE id = ?1`, for each id.
abbrev pub mark_message : ℤ → List Message → List Message
mark_message id [] = []
mark_message id (m ∷ messages) =
    (if m.id == id then record m { in_summary = true } else m) ∷ mark_message id messages

unfoldable pub mark_messages_in_summary : List ℤ → List Message → List Message
mark_messages_in_summary [] messages = messages
mark_messages_in_summary (id ∷ ids) messages =
    mark_messages_in_summary ids (mark_message id messages)

abbrev pub role_name : MessageRole → String
role_name user = "user"
role_name assistant = "assistant"
role_name system = "system"

abbrev pub format_transcript_line : Message → String
format_transcript_line m = role_name m.role ++ (": " ++ m.content)

unfoldable pub build_transcript : List Message → String
build_transcript messages = join "\n" (map format_transcript_line messages)

-- The two messages of a request.
pub record Prompt : Type 0 where
  pub system_text : String
  pub user_text : String

abbrev pub summarize_system_prompt : String
summarize_system_prompt =
    "Summarize the following roleplay conversation. Preserve key plot points, relationships, character voice, and established facts. Be concise but complete. Output only the summary text. Do not use thinking, reasoning, or thought tags."

unfoldable pub build_summarize_prompt : String → String → Prompt
build_summarize_prompt previous_summary transcript = record {
  system_text = summarize_system_prompt;
  user_text =
      "Previous summary:\n"
      ++ ((if is_empty_text previous_summary then "(none)" else previous_summary)
          ++ ("\n\nNew messages to incorporate:\n" ++ transcript));
}

pub record SummarizeLoopProgress : Type 0 where
  pub passes_completed : ℕ
  pub total_summarized : ℕ
  pub current_summary : String
  pub anchor_before : Option ℕ

-- How the loop ends: by its test, by an error of the model, by a panic, or for want of fuel.
pub data LoopEnd : Type 0 where
  finished : SummarizeLoopProgress → ChatState → LoopEnd
  failed : AppError → ChatState → LoopEnd
  panicked : LoopEnd
  out_of_fuel : LoopEnd

-- The candidates of a plan and the ids of its batch.
abbrev pub candidates_of : SummarizePlan → List Message → List Message
candidates_of plan messages = keep (λ (m : Message). contains m.id plan.to_summarize_ids) messages

abbrev pub batch_ids_of : Settings → String → SummarizePlan → List Message → List ℤ
batch_ids_of settings summary plan messages =
    select_oldest_batch_for_budget (candidates_of plan messages) summary settings

abbrev pub prompt_of : Settings → String → SummarizePlan → List Message → Prompt
prompt_of settings summary plan messages =
    let ids = batch_ids_of settings summary plan messages in
    let batch = keep (λ (m : Message). contains m.id ids) (candidates_of plan messages) in
    build_summarize_prompt summary (build_transcript batch)

-- The writes of a pass whose summary was made.
unfoldable pub after_pass : Settings → SummarizePlan → String → String → ChatState → ChatState
unfolding mark_messages_in_summary
after_pass settings plan previous summary c = record c {
  summary = summary;
  messages = mark_messages_in_summary (batch_ids_of settings previous plan c.messages) c.messages;
}

unfoldable pub progress_after :
    Settings → SummarizePlan → String → ChatState → SummarizeLoopProgress → SummarizeLoopProgress
progress_after settings plan summary c p = record {
  passes_completed = p.passes_completed + 1;
  total_summarized =
      p.total_summarized + length (batch_ids_of settings p.current_summary plan c.messages);
  current_summary = summary;
  anchor_before = or_else p.anchor_before (some plan.anchor_before);
}

-- `touch_chat`, if there was a pass.
abbrev pub touch_chat : ℕ → SummarizeLoopProgress → ChatState → ChatState
touch_chat now p c = if nat_beq p.passes_completed 0 then c else record c { updated_at = now }

-- The answer of the model to each pass is a parameter.
module _ (settings : Settings) (character : Option Character) (force : Bool) (now : ℕ)
    (summarize : ℕ → Prompt → AppResult String) where
  -- What follows the model's answer; `next` is the loop after the pass.
  abbrev pub answered :
      (SummarizeLoopProgress → ChatState → LoopEnd)
      → SummarizePlan
      → SummarizeLoopProgress
      → ChatState
      → AppResult String
      → LoopEnd
  answered next plan p c (ok summary) =
      next (progress_after settings plan summary c p)
        (after_pass settings plan p.current_summary summary c)
  answered next plan p c (err e) = failed e c

  -- What follows the planning of a pass.
  abbrev pub pass :
      (SummarizeLoopProgress → ChatState → LoopEnd)
      → Option (Option SummarizePlan)
      → SummarizeLoopProgress
      → ChatState
      → LoopEnd
  pass next none p c = panicked
  pass next (some none) p c = finished p (touch_chat now p c)
  pass next (some (some plan)) p c =
      answered next plan p c
        (summarize p.passes_completed (prompt_of settings p.current_summary plan c.messages))

  unfoldable pub loop_from : ℕ → SummarizeLoopProgress → ChatState → LoopEnd
  unfolding plan_summarization after_pass progress_after
  loop_from zero p c = out_of_fuel
  loop_from (suc fuel) p c =
      pass (loop_from fuel)
        (plan_summarization settings p.current_summary c.messages character force) p c

  unfoldable pub execute_summarize_loop : ℕ → ChatState → LoopEnd
  unfolding loop_from
  execute_summarize_loop fuel c =
      loop_from fuel
        (record {
          passes_completed = 0;
          total_summarized = 0;
          current_summary = c.summary;
          anchor_before = none;
        })
        c
