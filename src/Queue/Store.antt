-- ===== src/Queue/Store.antt =====
-- The statements on the job table: crates/server/src/db.rs. `UPDATE … WHERE` is a map of the rows.
use dreamwell.Common.{
  ℕ, ◌+◌, ◌-◌, Bool, true, false, ◌&&◌, ◌||◌, not, Option, none, some, List, [], ◌∷◌, ◌++◌, map,
  String, any, keep, count, take, find, if◌then◌else◌, ◌==◌, string_eq, option_eq, is_some, nat_beq,
  ltb, min,
}
use dreamwell.Common.Int.{ℤ, pos, int_eq}
use dreamwell.Queue.Job.{
  Job, JobStatus, JobType, queued, running, status_eq, chat_message, chat_summarize,
  chat_variable_recheck, story_chapter_outline, story_propose_chapters, story_propose_beats,
}

abbrev pub is_status : JobStatus → Job → Bool
is_status s j = j.status == s

abbrev pub is_active : Job → Bool
is_active j = is_status queued j || is_status running j

-- `UPDATE generation_jobs SET … WHERE test`
unfoldable pub update_jobs : (Job → Bool) → (Job → Job) → List Job → List Job
update_jobs test change [] = []
update_jobs test change (j ∷ jobs) = (if test j then change j else j) ∷ update_jobs test change jobs

unfoldable pub get_job : List Job → ℤ → Option Job
get_job jobs id = find (λ j. j.id == id) jobs

-- The row of an insert whose other columns stay NULL or empty: `position` counts the queued jobs. The
-- key comes from the table.
abbrev pub new_job : ℤ → JobType → String → ℕ → List Job → Job
new_job id job_type guidance_notes now jobs = record {
  id = id;
  job_type = job_type;
  chat_id = none;
  message_id = none;
  story_id = none;
  chapter_id = none;
  beat_id = none;
  game_id = none;
  turn_id = none;
  guidance_notes = guidance_notes;
  status = queued;
  error = none;
  position = pos (count (is_status queued) jobs + 1);
  created_at = now;
  started_at = none;
  completed_at = none;
  generation_provider = "";
  generation_model = "";
  generation_notice = "";
}

-- The insert of `enqueue_job`, `enqueue_summarize_job` and `enqueue_variable_recheck_job`.
unfoldable pub enqueue : ℤ → JobType → ℤ → ℤ → String → ℕ → List Job → List Job
enqueue id job_type chat_id message_id guidance_notes now jobs =
    jobs
    ++ record (new_job id job_type guidance_notes now jobs) {
      chat_id = some chat_id;
      message_id = some message_id;
    }
      ∷ []

unfoldable pub enqueue_story_job :
    ℤ → JobType → ℤ → Option ℤ → Option ℤ → String → ℕ → List Job → List Job
enqueue_story_job id job_type story_id chapter_id beat_id guidance_notes now jobs =
    jobs
    ++ record (new_job id job_type guidance_notes now jobs) {
      story_id = some story_id;
      chapter_id = chapter_id;
      beat_id = beat_id;
    }
      ∷ []

unfoldable pub enqueue_game_job : ℤ → JobType → ℤ → Option ℤ → String → ℕ → List Job → List Job
enqueue_game_job id job_type game_id turn_id guidance_notes now jobs =
    jobs
    ++ record (new_job id job_type guidance_notes now jobs) {
      game_id = some game_id;
      turn_id = turn_id;
    }
      ∷ []

unfoldable pub enqueue_job : ℤ → ℤ → ℤ → ℕ → List Job → List Job
unfolding enqueue
enqueue_job id chat_id message_id now = enqueue id chat_message chat_id message_id "" now

unfoldable pub enqueue_summarize_job : ℤ → ℤ → ℤ → String → ℕ → List Job → List Job
unfolding enqueue
enqueue_summarize_job id chat_id message_id notes now =
    enqueue id chat_summarize chat_id message_id notes now

unfoldable pub enqueue_variable_recheck_job : ℤ → ℤ → ℤ → ℕ → List Job → List Job
unfolding enqueue
enqueue_variable_recheck_job id chat_id message_id now =
    enqueue id chat_variable_recheck chat_id message_id "" now

-- The job types that write a story's outline.
abbrev pub is_outline : JobType → Bool
is_outline story_chapter_outline = true
is_outline story_propose_chapters = true
is_outline story_propose_beats = true
is_outline _ = false

-- `EXISTS` a running outline job of the same story.
abbrev pub outline_runs : List Job → Option ℤ → Bool
outline_runs jobs story_id =
    any (λ r. (r.story_id == story_id) && (is_status running r && is_outline r.job_type)) jobs

-- The `WHERE` of the claim.
unfoldable pub claimable : List Job → Job → Bool
claimable jobs j =
    is_status queued j
    && not (is_outline j.job_type && (is_some j.story_id && outline_runs jobs j.story_id))

-- `ORDER BY created_at ASC`
unfoldable pub insert_by_age : Job → List Job → List Job
insert_by_age j [] = j ∷ []
insert_by_age j (k ∷ jobs) =
    let rest = insert_by_age j jobs in
    if ltb k.created_at j.created_at then k ∷ rest else j ∷ k ∷ jobs

unfoldable pub by_age : List Job → List Job
unfolding insert_by_age
by_age [] = []
by_age (j ∷ jobs) = insert_by_age j (by_age jobs)

abbrev pub start : ℕ → Job → Job
start now j = record j { status = running; started_at = some now }

-- The loop over the ids that were read.
unfoldable pub start_jobs : ℕ → List ℤ → List Job → List Job
unfolding update_jobs
start_jobs now [] jobs = jobs
start_jobs now (id ∷ ids) jobs = start_jobs now ids (update_jobs (λ j. j.id == id) (start now) jobs)

-- The free slots; `-` stops at zero, which is `max(0)`.
abbrev pub slots_for : ℕ → ℕ → List Job → ℕ
slots_for max_concurrent limit jobs = min (max_concurrent - count (is_status running) jobs) limit

abbrev pub chosen : ℕ → List Job → List ℤ
chosen slots jobs = map (λ (j : Job). j.id) (take slots (by_age (keep (claimable jobs) jobs)))

unfoldable pub claim_jobs_in_tx : ℕ → ℕ → ℕ → List Job → List ℤ × List Job
claim_jobs_in_tx max_concurrent limit now jobs =
    let slots = slots_for max_concurrent limit jobs in
    let ids = chosen slots jobs in
    if nat_beq slots 0 then ([], jobs) else (ids, start_jobs now ids jobs)

abbrev pub requeue : Job → Job
requeue j = record j { status = queued; started_at = none }

unfoldable pub requeue_stale_jobs : List Job → List Job
unfolding update_jobs
requeue_stale_jobs = update_jobs (is_status running) requeue

-- `started_at IS NULL OR started_at < cutoff`
abbrev pub started_before : ℕ → Option ℕ → Bool
started_before cutoff none = true
started_before cutoff (some t) = ltb t cutoff

unfoldable pub requeue_stuck_jobs : ℕ → ℕ → List Job → List Job
unfolding update_jobs
requeue_stuck_jobs now max_age_secs =
    update_jobs (λ j. is_status running j && started_before (now - max_age_secs) j.started_at)
      requeue

unfoldable pub list_running_job_ids : List Job → List ℤ
list_running_job_ids jobs = map (λ (j : Job). j.id) (keep (is_status running) jobs)

unfoldable pub requeue_jobs_by_id : List ℤ → List Job → List Job
unfolding update_jobs
requeue_jobs_by_id [] jobs = jobs
requeue_jobs_by_id (id ∷ ids) jobs =
    requeue_jobs_by_id ids (update_jobs (λ j. (j.id == id) && is_status running j) requeue jobs)

abbrev pub complete : JobStatus → Option String → ℕ → Job → Job
complete status error now j = record j {
  status = status;
  error = error;
  completed_at = some now;
  generation_provider = "";
  generation_model = "";
  generation_notice = "";
}

unfoldable pub complete_job : ℤ → JobStatus → Option String → ℕ → List Job → List Job
unfolding update_jobs
complete_job id status error now = update_jobs (λ j. j.id == id) (complete status error now)

unfoldable pub set_job_generation_inference : ℤ → String → String → List Job → List Job
unfolding update_jobs
set_job_generation_inference id provider model =
    update_jobs (λ j. j.id == id)
      (λ j. record j {
        generation_provider = provider;
        generation_model = model;
        generation_notice = "";
      })
