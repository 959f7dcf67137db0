-- ===== src/Queue/Tests.antt =====
-- The queue's theorems at a small job table.
use mathlib.Core.List.{Memᴰ}
use dreamwell.Common.{
  ℕ, ◌≤◌, ◌≡◌, refl, true, false, ◌&&◌, is_some, Option, none, some, List, [], ◌∷◌, inr, length,
  max, min, arith, is_empty, count, string_eq, option_eq, nat_eq,
}
use dreamwell.Common.Int.{ℤ, pos, int_eq}
use dreamwell.Common.Dict.{lookup}
use dreamwell.Queue.Job.{
  Job, JobType, JobStatus, queued, running, completed, cancelled, status_eq, chat_message,
  story_propose_beats, story_chapter_outline,
}
use dreamwell.Queue.Store.{
  claimable, is_outline, outline_runs, claim_jobs_in_tx, complete_job, complete, get_job,
  update_jobs, start_jobs, by_age, insert_by_age,
}
use dreamwell.Queue.Rows.{contains, running_count, HasUniqueIds}
use dreamwell.Queue.Claim.{claim_bounded, claim_sound, claim_full, claim_same_story}
use dreamwell.Queue.Tables.{Tables, Message, get_message, fail_chat_message_generation}
use dreamwell.Queue.Finish.{Tokens, cancel_job, cancel_token}
use dreamwell.Queue.Worker.{claim_limit, Worker, Step, Reach, poll, claim}
use dreamwell.Queue.Safety.{IsSafe}
use dreamwell.Queue.Invariant.{reach-IsSafe}
use dreamwell.Queue.Order.{claim_oldest}
use dreamwell.Queue.Loop.{claim_loop, claim_loop-ends}
use dreamwell.Queue.Cancel.{cancel_job-active}
use dreamwell.Queue.Poll.{IsTended, poll-IsTended}
use dreamwell.Queue.Texts.{failed_message, get_message-fail}

abbrev job : ℤ → JobType → JobStatus → Option ℤ → ℕ → Option ℕ → Job
job id job_type status story_id created_at started_at = record {
  id = id;
  job_type = job_type;
  chat_id = some (pos 1);
  message_id = some (pos 5);
  story_id = story_id;
  chapter_id = none;
  beat_id = none;
  game_id = none;
  turn_id = none;
  guidance_notes = "";
  status = status;
  error = none;
  position = pos 1;
  created_at = created_at;
  started_at = started_at;
  completed_at = none;
  generation_provider = "";
  generation_model = "";
  generation_notice = "";
}

-- A chat message runs; two proposals for the beats of one story and a chat message wait.
abbrev talking : Job
talking = job (pos 1) chat_message running none 10 (some 2000)

abbrev first_outline : Job
first_outline = job (pos 2) story_propose_beats queued (some (pos 7)) 20 none

abbrev second_outline : Job
second_outline = job (pos 3) story_chapter_outline queued (some (pos 7)) 15 none

abbrev ended : Job
ended = job (pos 4) chat_message completed none 5 (some 6)

abbrev jobs : List Job
jobs = talking ∷ first_outline ∷ second_outline ∷ []

jobs-HasUniqueIds : HasUniqueIds jobs
jobs-HasUniqueIds = (refl, (refl, (refl, tt)))

claim_bounded_example :
    (length (claim_jobs_in_tx 2 8 2000 jobs).0 ≤ 8)
    × (running_count (claim_jobs_in_tx 2 8 2000 jobs).1 ≤ max 2 (running_count jobs))
claim_bounded_example = claim_bounded 2 8 2000 jobs jobs-HasUniqueIds

-- With one slot the older of the two is taken.
claim_sound_example :
    (queued ≡ queued)
    × ((is_outline story_chapter_outline
          && (is_some (some (pos 7)) && outline_runs jobs (some (pos 7))))
        ≡ false)
unfolding claim_jobs_in_tx by_age insert_by_age claimable start_jobs
claim_sound_example =
    claim_sound 2 8 2000 jobs second_outline jobs-HasUniqueIds
      (Memᴰ.tail (Memᴰ.tail (Memᴰ.head refl))) refl

claim_oldest_example : 15 ≤ 20
unfolding claim_jobs_in_tx by_age insert_by_age claimable start_jobs
claim_oldest_example =
    claim_oldest 2 8 2000 jobs second_outline first_outline jobs-HasUniqueIds
      (Memᴰ.tail (Memᴰ.tail (Memᴰ.head refl))) (Memᴰ.tail (Memᴰ.head refl)) refl refl refl

claim_full_example :
    length (claim_jobs_in_tx 2 8 2000 jobs).0 ≡ min (min 1 8) (count (claimable jobs) jobs)
claim_full_example = claim_full 2 8 2000 jobs

claim_same_story_example :
    (contains (pos 2) (claim_jobs_in_tx 4 8 2000 jobs).0 ≡ true)
    × (contains (pos 3) (claim_jobs_in_tx 4 8 2000 jobs).0 ≡ true)
unfolding claimable
claim_same_story_example =
    claim_same_story 4 8 2000 jobs first_outline second_outline (Memᴰ.tail (Memᴰ.head refl))
      (Memᴰ.tail (Memᴰ.tail (Memᴰ.head refl))) (refl, refl) refl refl (omega arith) (omega arith)

abbrev reply : Message
reply = record {
  id = pos 5;
  chat_id = pos 1;
  content = "Hello";
  thought_in_progress = true;
  generation_notice = "retry";
}

abbrev tables : Tables
tables = record { jobs = jobs; messages = reply ∷ []; beats = []; turns = [] }

abbrev worker : Worker
worker = record { db = tables; active_tokens = (pos 1, false) ∷ [] }

-- A claim, then a poll.
reach-IsSafe_example : IsSafe 2 (poll 2010 (claim 2 2000 worker)).db.jobs
reach-IsSafe_example =
    reach-IsSafe 2 worker (poll 2010 (claim 2 2000 worker))
      (Reach.step (claim 2 2000 worker) (poll 2010 (claim 2 2000 worker))
        (Reach.step worker (claim 2 2000 worker) Reach.here (Step.claimed worker 2000))
        (Step.polled (claim 2 2000 worker) 2010))
      (jobs-HasUniqueIds, omega arith)

claim_loop-ends_example :
    (u : Worker) × (claim_loop 3 2 2000 worker ≡ some u)
    × (is_empty (claim_jobs_in_tx 2 claim_limit 2000 u.db.jobs).0 ≡ true)
claim_loop-ends_example = claim_loop-ends 3 2 2000 worker (omega arith)

cancel_job-active_example :
    (result : Job) × (told : Tokens) × (after : Tables) × (cancel_job 2020
        (pos 1)
        ((pos 1, false) ∷ [])
        tables
      ≡ inr (result, (told, after)))
    × (result ≡ complete cancelled none 2020 talking)
    × (after.jobs ≡ complete_job (pos 1) cancelled none 2020 jobs)
    × (told ≡ cancel_token (pos 1) ((pos 1, false) ∷ []))
unfolding get_job
cancel_job-active_example =
    cancel_job-active 2020 (pos 1) ((pos 1, false) ∷ []) tables talking refl refl

poll-IsTended_example : IsTended 2010 worker talking
unfolding poll update_jobs lookup
poll-IsTended_example = poll-IsTended 2010 worker talking (Memᴰ.head refl) refl

get_message-fail_example :
    get_message (pos 5) (fail_chat_message_generation (pos 5) "no model" (reply ∷ [])).0
    ≡ some (failed_message "no model" reply)
get_message-fail_example = get_message-fail (pos 5) "no model" (reply ∷ []) reply refl
