-- ===== src/Summary/Jobs.antt =====
-- A summarize job that is not to regenerate, from its start to its end: `run_summarize_job` of
-- crates/server/src/summarize.rs.
use Prim.Native.String.{◌++◌}
use Prim.Native.Char.{Char, code}
use dreamwell.Common.{
  ℕ, ◌+◌, ◌<◌, ◌≡◌, refl, Bool, true, false, ◌||◌, not, Option, none, some, List, [], ◌∷◌, String,
  if◌then◌else◌, arith, nat_beq, ◌==◌, string_eq, Bool-cases, Option-cases, ◌⊎◌, inl, inr, all,
}
use dreamwell.Common.Int.{ℤ, int_eq}
use dreamwell.Common.Text.Utf8.{byte_len, len_utf8}
use dreamwell.Inference.Notice.{AppError}
use dreamwell.Inference.Fallback.{AppResult}
use dreamwell.Queue.Job.{Job, completed, status_eq}
use dreamwell.Queue.Store.{complete_job}
use dreamwell.Summary.Tokens.{Settings}
use dreamwell.Summary.Plan.{Character}
use dreamwell.Summary.Loop.{
  ChatState, Prompt, SummarizeLoopProgress, LoopEnd, finished, failed, panicked, out_of_fuel,
  execute_summarize_loop,
}
use dreamwell.Summary.Ends.{active_count, IsEnd, IsFailure, execute_summarize_loop-IsEnd}
use dreamwell.Summary.Marker.{format_summary_marker, format_summary_marker-none}
use dreamwell.Summary.Statements.{delete_messages, set_content, set_anchor}

pub data SummarizeJobKind : Type 0 where
  auto force regenerate : SummarizeJobKind

pub summarize_job_kind : String → SummarizeJobKind
summarize_job_kind guidance_notes =
    if guidance_notes == "force"
    then force
    else if guidance_notes == "regenerate"
    then regenerate
    else auto

-- The job's tables, and how a job ends: with its handler, by an error, by a panic, or for want of fuel.
pub record JobState : Type 0 where
  pub chat : ChatState
  pub jobs : List Job

pub data JobEnd : Type 0 where
  done : JobState → JobEnd
  errored : AppError → JobState → JobEnd
  crashed : JobState → JobEnd
  unfinished : JobEnd

abbrev pub complete : ℤ → ℕ → JobState → JobState
complete job_id now s = record s { jobs = complete_job job_id completed none now s.jobs }

-- The end of a job whose loop ended.
abbrev pub write_marker : ℤ → ℤ → ℕ → SummarizeLoopProgress → JobState → Option String → JobEnd
write_marker job_id marker_id now p s none = crashed s
write_marker job_id marker_id now p s (some body) = done (
    complete job_id now (record s {
      chat = set_anchor marker_id p.anchor_before (set_content marker_id body s.chat);
    }))

unfoldable pub after_loop : ℤ → ℤ → ℕ → LoopEnd → JobState → JobEnd
unfolding format_summary_marker complete_job
after_loop job_id marker_id now (finished p c) s =
    if nat_beq p.total_summarized 0
    then done (
        complete job_id now
          (record s { chat = record c { messages = delete_messages (marker_id ∷ []) c.messages } }))
    else write_marker job_id marker_id now p (record s { chat = c })
        (format_summary_marker p.total_summarized p.current_summary)
after_loop job_id marker_id now (failed e c) s = errored e (record s { chat = c })
after_loop job_id marker_id now panicked s = crashed s
after_loop job_id marker_id now out_of_fuel s = unfinished

module _ (settings : Settings) (character : Option Character) (now : ℕ) (job_id marker_id : ℤ)
    (summarize : ℕ → Prompt → AppResult String) where
  -- `run_summarize_job` of a job that is not to regenerate; `fuel` bounds the passes.
  unfoldable pub run_summarize_job : Bool → ℕ → JobState → JobEnd
  unfolding after_loop execute_summarize_loop
  run_summarize_job forced fuel s =
      after_loop job_id marker_id now
        (execute_summarize_loop settings character forced now summarize fuel s.chat) s

  -- When the passes are done and a character of the last summary lies across byte 600, the job
  -- panics: it is not completed, though the summary and the marks are written.
  pub run_summarize_job-crashed :
      (forced : Bool) (fuel : ℕ) (s : JobState) (p : SummarizeLoopProgress) (c : ChatState)
      (a : String) (d : Char) (b : String)
      → execute_summarize_loop settings character forced now summarize fuel s.chat ≡ finished p c
      → 0 < p.total_summarized
      → p.current_summary ≡ a ++ String.◌∷◌ d b
      → byte_len a < 600
      → 600 < byte_len a + len_utf8 (code d)
      → run_summarize_job forced fuel s ≡ crashed (record s { chat = c })
  unfolding run_summarize_job
  run_summarize_job-crashed forced fuel s p c a d b ends some_taken text h k =
      let taken : nat_beq p.total_summarized 0 ≡ false = ground arith in
      let marker = format_summary_marker-none p.total_summarized p.current_summary a d b text h k in
      rw (ends, taken, marker) refl

  -- The end of a job, against the state that it starts in: the job is completed in the table, with
  -- its marker deleted if no message was summarized and with the marker's text written otherwise; the
  -- model answered a pass with the error; or the text of the marker panics after the passes.
  abbrev pub JobCompleted : List Job → Type 0
  JobCompleted jobs =
      all (λ (j : Job). not (j.id == job_id) || status_eq.eqb j.status completed) jobs ≡ true

  abbrev pub Passes : Bool → ℕ → JobState → SummarizeLoopProgress → ChatState → Type 0
  Passes forced fuel s p c =
      execute_summarize_loop settings character forced now summarize fuel s.chat ≡ finished p c

  abbrev pub IsJobEnd : Bool → ℕ → JobState → JobEnd → Type 0
  IsJobEnd forced fuel s (done s') =
      JobCompleted s'.jobs
      × (p : SummarizeLoopProgress) × (c : ChatState) × Passes forced fuel s p c
      × ((p.total_summarized ≡ 0) × (s'.chat.messages ≡ delete_messages (marker_id ∷ []) c.messages)
          ⊎ (body : String) × (0 < p.total_summarized)
            × (format_summary_marker p.total_summarized p.current_summary ≡ some body)
            × (s'.chat ≡ set_anchor marker_id p.anchor_before (set_content marker_id body c)))
  IsJobEnd forced fuel s (errored e s') =
      IsFailure settings character forced now summarize e s'.chat
  IsJobEnd forced fuel s (crashed s') =
      (p : SummarizeLoopProgress) × Passes forced fuel s p s'.chat
      × (0 < p.total_summarized)
      × (format_summary_marker p.total_summarized p.current_summary ≡ none)
  IsJobEnd forced fuel s unfinished = ⊥

  complete_job-completed :
      (jobs : List Job)
      → all
          (λ (j : Job). not (j.id == job_id) || status_eq.eqb j.status completed)
          (complete_job job_id completed none now jobs)
        ≡ true
  unfolding complete_job
  complete_job-completed [] = refl
  complete_job-completed (j ∷ jobs) = ground (arith, complete_job-completed jobs)

  after_loop-IsJobEnd :
      (forced : Bool) (fuel : ℕ) (s : JobState) (e : LoopEnd)
      → execute_summarize_loop settings character forced now summarize fuel s.chat ≡ e
      → IsEnd settings character forced now summarize e
      → IsJobEnd forced fuel s (after_loop job_id marker_id now e s)
  unfolding after_loop
  after_loop-IsJobEnd forced fuel s (finished p c) ended h =
      elim (Bool-cases (nat_beq p.total_summarized 0)) [
        | inl nothing ↦
            let none_taken : p.total_summarized ≡ 0 = ground arith in
            rw nothing (complete_job-completed s.jobs, p, c, ended, inl (none_taken, refl))
        | inr taken ↦
            let some_taken : 0 < p.total_summarized = ground arith in
            elim (Option-cases (format_summary_marker p.total_summarized p.current_summary)) [
              | inl split ↦ rw (taken, split) (p, ended, some_taken, split)
              | inr (body, text) ↦
                  rw (taken, text)
                    (complete_job-completed s.jobs, p, c, ended, inr (body, some_taken, text, refl))
            ]
      ]
  after_loop-IsJobEnd forced fuel s (failed e c) ended h = h
  after_loop-IsJobEnd forced fuel s panicked ended h = absurd h
  after_loop-IsJobEnd forced fuel s out_of_fuel ended h = absurd h

  -- With more fuel than there are active messages a job ends so: it is completed in the table,
  -- with its marker deleted if the passes took no message and with the marker's text written
  -- otherwise; or the model answered the prompt of a pass with the job's error; or the passes took
  -- messages and the marker's text panics.
  pub run_summarize_job-IsJobEnd :
      (forced : Bool) (fuel : ℕ) (s : JobState)
      → active_count s.chat.messages < fuel
      → IsJobEnd forced fuel s (run_summarize_job forced fuel s)
  unfolding run_summarize_job
  run_summarize_job-IsJobEnd forced fuel s h =
      after_loop-IsJobEnd forced fuel s
        (execute_summarize_loop settings character forced now summarize fuel s.chat) refl
        (execute_summarize_loop-IsEnd settings character forced now summarize fuel s.chat h)
