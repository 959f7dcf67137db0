-- ===== src/Summary/Tests.antt =====
-- The summaries' theorems at a chat of three messages.
use Prim.Native.String.{◌++◌}
use dreamwell.Common.{
  ℕ, zero, suc, ◌≡◌, refl, Bool, true, false, Option, none, some, List, [], ◌∷◌, map, String, arith,
  keep, take,
}
use dreamwell.Common.Int.{ℤ, pos}
use dreamwell.Common.Decimal.{show_ℕ}
use dreamwell.Common.Text.Utf8.{byte_len}
use dreamwell.Queue.Job.{Job, running, chat_summarize}
use dreamwell.Client.Chat.{user}
use dreamwell.Inference.Fallback.{AppResult, ok}
use dreamwell.Summary.Tokens.{Settings}
use dreamwell.Summary.Batch.{
  Message, select_oldest_batch_for_budget, IsBatch, input_budget,
  select_oldest_batch_for_budget_lem,
}
use dreamwell.Summary.Plan.{SummarizePlan, is_active_for_context, plan_summarization}
use dreamwell.Summary.Keep.{IsPlan, plan_summarization-IsPlan}
use dreamwell.Summary.Loop.{ChatState, Prompt, SummarizeLoopProgress, execute_summarize_loop}
use dreamwell.Summary.Ends.{IsEnd, execute_summarize_loop-IsEnd}
use dreamwell.Summary.Marker.{
  format_summary_marker, parse_summary_marker_count, marker_end, parse-format_summary_marker,
}
use dreamwell.Summary.Jobs.{
  JobState, JobEnd, done, crashed, run_summarize_job, run_summarize_job-crashed, IsJobEnd,
  run_summarize_job-IsJobEnd,
}

abbrev settings : Settings
settings = record {
  max_tokens = pos 512;
  context_tokens = pos 8192;
  summarize_enabled = true;
  summarize_adaptive = false;
  summarize_after_messages = pos 12;
  summarize_keep_recent = pos 2;
  system_prompt_prefix = "";
  system_prompt_suffix = "";
  user_name = "Alex";
  persona_description = "";
}

abbrev message : ℤ → String → ℕ → Message
message id content created_at = record {
  id = id;
  role = user;
  content = content;
  thought_content = "";
  is_summary = false;
  in_summary = false;
  created_at = created_at;
}

abbrev first : Message
first = message (pos 1) "Hello" 100

abbrev later : List Message
later = message (pos 2) "Hi" 200 ∷ message (pos 3) "Let us go" 300 ∷ []

abbrev chat : ChatState
chat = record { summary = ""; updated_at = 0; messages = first ∷ later }

select_oldest_batch_for_budget_lem_example :
    (n : ℕ) × (select_oldest_batch_for_budget (first ∷ later) "" settings
      ≡ map (λ (c : Message). c.id) (take n (first ∷ later)))
    × IsBatch (input_budget settings "") (first ∷ later) n
unfolding byte_len
select_oldest_batch_for_budget_lem_example =
    select_oldest_batch_for_budget_lem first later "" settings (omega arith)

plan_summarization-IsPlan_example :
    (r : Option SummarizePlan) × (plan_summarization settings "" (first ∷ later) none true ≡ some r)
    × IsPlan settings (keep is_active_for_context (first ∷ later)) r
plan_summarization-IsPlan_example = plan_summarization-IsPlan settings "" (first ∷ later) none true

abbrev repeated : ℕ → String → String
repeated zero s = ""
repeated (suc n) s = s ++ repeated n s

-- A summary whose 600th byte lies within an `é`.
abbrev long_summary : String
long_summary = repeated 599 "x" ++ String.◌∷◌ "é" "!"

abbrev summarize : ℕ → Prompt → AppResult String
summarize pass prompt = ok long_summary

execute_summarize_loop-IsEnd_example :
    IsEnd settings none true 1000 summarize
      (execute_summarize_loop settings none true 1000 summarize 4 chat)
execute_summarize_loop-IsEnd_example =
    execute_summarize_loop-IsEnd settings none true 1000 summarize 4 chat (omega arith)

abbrev marker : String
marker = "**Earlier conversation summarized** (3 messages)\n\nThey met." ++ marker_end

parse-format_summary_marker_example : parse_summary_marker_count marker ≡ some 3
unfolding format_summary_marker byte_len show_ℕ
parse-format_summary_marker_example =
    parse-format_summary_marker 3 "They met." marker (omega arith) refl

abbrev job : Job
job = record {
  id = pos 7;
  job_type = chat_summarize;
  chat_id = some (pos 1);
  message_id = some (pos 9);
  story_id = none;
  chapter_id = none;
  beat_id = none;
  game_id = none;
  turn_id = none;
  guidance_notes = "force";
  status = running;
  error = none;
  position = pos 0;
  created_at = 0;
  started_at = some 0;
  completed_at = none;
  generation_provider = "";
  generation_model = "";
  generation_notice = "";
}

abbrev job_state : JobState
job_state = record { chat = chat; jobs = job ∷ [] }

-- A summary whose marker can be written.
abbrev retell : ℕ → Prompt → AppResult String
retell pass prompt = ok "They met."

-- The job with such summaries is done.
abbrev is_done : JobEnd → Bool
is_done (done s) = true
is_done e = false

job_done :
    is_done (run_summarize_job settings none 1000 (pos 7) (pos 9) retell true 4 job_state) ≡ true
unfolding run_summarize_job execute_summarize_loop byte_len select_oldest_batch_for_budget
    format_summary_marker show_ℕ
job_done = refl

run_summarize_job-IsJobEnd_example :
    IsJobEnd settings none 1000
      (pos 7)
      (pos 9)
      retell
      true
      4
      job_state
      (run_summarize_job settings none 1000 (pos 7) (pos 9) retell true 4 job_state)
run_summarize_job-IsJobEnd_example =
    run_summarize_job-IsJobEnd settings none 1000 (pos 7) (pos 9) retell true 4 job_state
      (omega arith)

abbrev progress : SummarizeLoopProgress
progress = record {
  passes_completed = 1;
  total_summarized = 1;
  current_summary = long_summary;
  anchor_before = some 200;
}

abbrev chat_after : ChatState
chat_after = record {
  summary = long_summary;
  updated_at = 1000;
  messages = record first { in_summary = true } ∷ later;
}

run_summarize_job-crashed_example :
    run_summarize_job settings none 1000 (pos 7) (pos 9) summarize true 4 job_state
    ≡ crashed (record job_state { chat = chat_after })
unfolding execute_summarize_loop byte_len select_oldest_batch_for_budget
run_summarize_job-crashed_example =
    run_summarize_job-crashed settings none 1000 (pos 7) (pos 9) summarize true 4 job_state progress
      chat_after (repeated 599 "x") "é" "!" refl (omega arith) refl (omega arith) (omega arith)
