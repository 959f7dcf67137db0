-- ===== src/Queue/Invariant.antt =====
-- The steps of the worker of crates/server/src/queue.rs, and what they reach.
use dreamwell.Common.{ℕ, ◌≡◌, refl, inl, inr, none, some, String, ◌==◌, arith, Option-cases}
use dreamwell.Common.Int.{ℤ, int_eq}
use dreamwell.Queue.Job.{
  Job, completed, failed, cancelled, status_eq, chat_message, chat_summarize, chat_variable_recheck,
}
use dreamwell.Queue.Store.{
  enqueue, enqueue_job, enqueue_summarize_job, enqueue_variable_recheck_job, enqueue_story_job,
  enqueue_game_job, set_job_generation_inference, new_job, complete_job, get_job,
}
use dreamwell.Queue.Tables.{Tables}
use dreamwell.Queue.Finish.{Tokens, cancel_job, cancel_job_record, fail_job}
use dreamwell.Queue.Worker.{Worker, Step, Reach, drop_token}
use dreamwell.Queue.Safety.{
  IsSafe, append-IsSafe, cancel_job_record_jobs, claim-IsSafe, complete_job-IsSafe,
  fail_effects_jobs, poll-IsSafe, restart-IsSafe, update_jobs-IsSafe,
}

module _ (max_concurrent : ℕ) where
  fail_job-IsSafe :
      (now : ℕ) (id : ℤ) (job : Job) (message : String) (db : Tables)
      → IsSafe max_concurrent db.jobs
      → IsSafe max_concurrent (fail_job now id job message db).0.jobs
  unfolding fail_job
  fail_job-IsSafe now id job message db s =
      rw
        (fail_effects_jobs job message
          (record db { jobs = complete_job id failed (some message) now db.jobs }))
        (complete_job-IsSafe max_concurrent id failed (some message) now db.jobs refl s)

  pub cancel_job_record-IsSafe :
      (now : ℕ) (job : Job) (db : Tables)
      → IsSafe max_concurrent db.jobs
      → IsSafe max_concurrent (cancel_job_record now job db).0.jobs
  cancel_job_record-IsSafe now job db s = elim (cancel_job_record_jobs now job db) [
    | inl kept ↦ rw kept s
    | inr ended ↦
        rw ended (complete_job-IsSafe max_concurrent job.id cancelled none now db.jobs refl s)
  ]

  cancel_job-IsSafe :
      (now : ℕ) (id : ℤ) (tokens : Tokens) (db : Tables) (job : Job) (told : Tokens)
      (after : Tables)
      → cancel_job now id tokens db ≡ inr (job, (told, after))
      → IsSafe max_concurrent db.jobs
      → IsSafe max_concurrent after.jobs
  unfolding cancel_job
  cancel_job-IsSafe now id tokens db job told after h s = elim (Option-cases (get_job db.jobs id)) [
    | inl missing ↦ absurd (ground arith)
    | inr (found, e) ↦
        let kept = cancel_job_record-IsSafe now found db s in
        let same : (cancel_job_record now found db).0 ≡ after = ground arith in rw same at kept
  ]

  Step-IsSafe :
      (v w : Worker)
      → Step max_concurrent v w
      → IsSafe max_concurrent v.db.jobs
      → IsSafe max_concurrent w.db.jobs
  unfolding enqueue enqueue_job enqueue_summarize_job enqueue_variable_recheck_job enqueue_story_job
      enqueue_game_job set_job_generation_inference drop_token
  Step-IsSafe v w (Step.enqueued _ id chat_id message_id now fresh) s =
      append-IsSafe max_concurrent
        (record (new_job id chat_message "" now v.db.jobs) {
          chat_id = some chat_id;
          message_id = some message_id;
        })
        v.db.jobs refl fresh s
  Step-IsSafe v w (Step.enqueued_summarize _ id chat_id message_id notes now fresh) s =
      append-IsSafe max_concurrent
        (record (new_job id chat_summarize notes now v.db.jobs) {
          chat_id = some chat_id;
          message_id = some message_id;
        })
        v.db.jobs refl fresh s
  Step-IsSafe v w (Step.enqueued_recheck _ id chat_id message_id now fresh) s =
      append-IsSafe max_concurrent
        (record (new_job id chat_variable_recheck "" now v.db.jobs) {
          chat_id = some chat_id;
          message_id = some message_id;
        })
        v.db.jobs refl fresh s
  Step-IsSafe v w (Step.enqueued_story _ id job_type story_id chapter_id beat_id notes now fresh)
        s =
      append-IsSafe max_concurrent
        (record (new_job id job_type notes now v.db.jobs) {
          story_id = some story_id;
          chapter_id = chapter_id;
          beat_id = beat_id;
        })
        v.db.jobs refl fresh s
  Step-IsSafe v w (Step.enqueued_game _ id job_type game_id turn_id notes now fresh) s =
      append-IsSafe max_concurrent
        (record (new_job id job_type notes now v.db.jobs) {
          game_id = some game_id;
          turn_id = turn_id;
        })
        v.db.jobs refl fresh s
  Step-IsSafe v w (Step.inference_set _ id provider model) s =
      update_jobs-IsSafe max_concurrent (λ j. j.id == id)
        (λ j. record j {
          generation_provider = provider;
          generation_model = model;
          generation_notice = "";
        })
        v.db.jobs (λ j. refl) (λ j h. h) s
  Step-IsSafe v w (Step.polled _ now) s = poll-IsSafe max_concurrent now v s
  Step-IsSafe v w (Step.claimed _ now) s = claim-IsSafe max_concurrent now v s
  Step-IsSafe v w (Step.task_completed _ id now) s =
      complete_job-IsSafe max_concurrent id completed none now v.db.jobs refl s
  Step-IsSafe v w (Step.task_failed _ id job message now found) s =
      fail_job-IsSafe now id job message v.db s
  Step-IsSafe v w (Step.task_cancelled _ job now) s = cancel_job_record-IsSafe now job v.db s
  Step-IsSafe v w (Step.task_ended _ id) s = s
  Step-IsSafe v w (Step.cancelled_by_user _ id now job tokens db h) s =
      cancel_job-IsSafe now id v.active_tokens v.db job tokens db h s
  Step-IsSafe v w (Step.restarted _) s = restart-IsSafe max_concurrent v s

  -- However requests, polls, claims, ends of tasks and restarts follow each other: if the worker
  -- starts with unique keys and at most `max_concurrent` running jobs, it always has both.
  pub reach-IsSafe :
      (first w : Worker)
      → Reach max_concurrent first w
      → IsSafe max_concurrent first.db.jobs
      → IsSafe max_concurrent w.db.jobs
  reach-IsSafe first w Reach.here s = s
  reach-IsSafe first w (Reach.step v _ r t) s = Step-IsSafe v w t (reach-IsSafe first v r s)
