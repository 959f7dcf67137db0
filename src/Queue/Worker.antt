-- ===== src/Queue/Worker.antt =====
-- The worker of crates/server/src/queue.rs as a step relation on the tables and the token map: the
-- loop of `spawn_loop`, the requests that arrive meanwhile, and the requeue of a restart.
use dreamwell.Common.{
  ℕ, ◌≡◌, inr, false, not, Option, none, some, List, [], ◌∷◌, String, keep, is_some,
}
use dreamwell.Common.Int.{ℤ, int_eq}
use dreamwell.Common.Dict.{lookup, insert, remove}
use dreamwell.Queue.Job.{Job, JobType, completed}
use dreamwell.Queue.Store.{
  enqueue_job, enqueue_summarize_job, enqueue_variable_recheck_job, enqueue_story_job,
  enqueue_game_job, set_job_generation_inference, claim_jobs_in_tx, requeue_stale_jobs,
  requeue_stuck_jobs, list_running_job_ids, requeue_jobs_by_id, complete_job, get_job,
}
use dreamwell.Queue.Rows.{contains, ids_of}
use dreamwell.Queue.Tables.{Tables}
use dreamwell.Queue.Finish.{Tokens, cancel_job, cancel_job_record, fail_job}

-- `STUCK_JOB_MAX_AGE_SECS` and the limit of `claim_jobs`.
abbrev pub stuck_job_max_age_secs : ℕ
stuck_job_max_age_secs = 920

abbrev pub claim_limit : ℕ
claim_limit = 8

-- `JobQueue`: what its pool holds, and the token map. A wake-up is a claim that may come at any time.
pub record Worker : Type 0 where
  pub db : Tables
  pub active_tokens : Tokens

abbrev pub with_jobs : List Job → Worker → Worker
with_jobs jobs w = record w { db = record w.db { jobs = jobs } }

-- The tick of the poll: running jobs without a task, and jobs that run too long, are queued again.
abbrev pub orphaned : Worker → List ℤ
orphaned w = keep (λ id. not (is_some (lookup id w.active_tokens))) (list_running_job_ids w.db.jobs)

unfoldable pub poll : ℕ → Worker → Worker
unfolding list_running_job_ids requeue_jobs_by_id requeue_stuck_jobs
poll now w =
    with_jobs
      (requeue_stuck_jobs now stuck_job_max_age_secs (requeue_jobs_by_id (orphaned w) w.db.jobs)) w

-- A token for each claimed job.
unfoldable pub insert_tokens : List ℤ → Tokens → Tokens
insert_tokens [] tokens = tokens
insert_tokens (id ∷ ids) tokens = insert_tokens ids (insert id false tokens)

-- One turn of the claim loop.
unfoldable pub claim : ℕ → ℕ → Worker → Worker
unfolding claim_jobs_in_tx insert_tokens
claim max_concurrent now w =
    let (ids, jobs) = claim_jobs_in_tx max_concurrent claim_limit now w.db.jobs in
    record { db = record w.db { jobs = jobs }; active_tokens = insert_tokens ids w.active_tokens }

-- The end of a task, whatever it did to its job.
unfoldable pub drop_token : ℤ → Worker → Worker
drop_token id w = record w { active_tokens = remove id w.active_tokens }

-- `requeue_stale_jobs` of the start-up; the token map starts empty.
unfoldable pub restart : Worker → Worker
unfolding requeue_stale_jobs
restart w = record { db = record w.db { jobs = requeue_stale_jobs w.db.jobs }; active_tokens = [] }

-- What happens to the worker, in any order. A task completes its job, fails it or finds it cancelled,
-- and drops its token last; other writes of a task leave the job table alone.
pub data Step (max_concurrent : ℕ) : Worker → Worker → Type 0 where
  enqueued :
      (w : Worker) (id chat_id message_id : ℤ) (now : ℕ)
      → contains id (ids_of w.db.jobs) ≡ false
      → Step max_concurrent w (with_jobs (enqueue_job id chat_id message_id now w.db.jobs) w)
  enqueued_summarize :
      (w : Worker) (id chat_id message_id : ℤ) (notes : String) (now : ℕ)
      → contains id (ids_of w.db.jobs) ≡ false
      → Step max_concurrent w
          (with_jobs (enqueue_summarize_job id chat_id message_id notes now w.db.jobs) w)
  enqueued_recheck :
      (w : Worker) (id chat_id message_id : ℤ) (now : ℕ)
      → contains id (ids_of w.db.jobs) ≡ false
      → Step max_concurrent w
          (with_jobs (enqueue_variable_recheck_job id chat_id message_id now w.db.jobs) w)
  enqueued_story :
      (w : Worker) (id : ℤ) (job_type : JobType) (story_id : ℤ) (chapter_id beat_id : Option ℤ)
      (notes : String) (now : ℕ)
      → contains id (ids_of w.db.jobs) ≡ false
      → Step max_concurrent w (
          with_jobs
            (enqueue_story_job id job_type story_id chapter_id beat_id notes now w.db.jobs)
            w)
  enqueued_game :
      (w : Worker) (id : ℤ) (job_type : JobType) (game_id : ℤ) (turn_id : Option ℤ) (notes : String)
      (now : ℕ)
      → contains id (ids_of w.db.jobs) ≡ false
      → Step max_concurrent w
          (with_jobs (enqueue_game_job id job_type game_id turn_id notes now w.db.jobs) w)
  inference_set :
      (w : Worker) (id : ℤ) (provider model : String)
      → Step max_concurrent w
          (with_jobs (set_job_generation_inference id provider model w.db.jobs) w)
  polled : (w : Worker) (now : ℕ) → Step max_concurrent w (poll now w)
  claimed : (w : Worker) (now : ℕ) → Step max_concurrent w (claim max_concurrent now w)
  task_completed :
      (w : Worker) (id : ℤ) (now : ℕ)
      → Step max_concurrent w (with_jobs (complete_job id completed none now w.db.jobs) w)
  task_failed :
      (w : Worker) (id : ℤ) (job : Job) (message : String) (now : ℕ)
      → get_job w.db.jobs id ≡ some job
      → Step max_concurrent w (record w { db = (fail_job now id job message w.db).0 })
  task_cancelled :
      (w : Worker) (job : Job) (now : ℕ)
      → Step max_concurrent w (record w { db = (cancel_job_record now job w.db).0 })
  task_ended : (w : Worker) (id : ℤ) → Step max_concurrent w (drop_token id w)
  cancelled_by_user :
      (w : Worker) (id : ℤ) (now : ℕ) (job : Job) (tokens : Tokens) (db : Tables)
      → cancel_job now id w.active_tokens w.db ≡ inr (job, (tokens, db))
      → Step max_concurrent w (record { db = db; active_tokens = tokens })
  restarted : (w : Worker) → Step max_concurrent w (restart w)

-- What a worker that starts in `first` reaches.
pub data Reach (max_concurrent : ℕ) (first : Worker) : Worker → Type 0 where
  here : Reach max_concurrent first first
  step :
      (v w : Worker)
      → Reach max_concurrent first v
      → Step max_concurrent v w
      → Reach max_concurrent first w
