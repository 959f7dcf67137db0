-- ===== src/Queue/Safety.antt =====
-- Unique keys and the limit on running jobs under each operation of the job table, of crates/server/src/db.rs
-- and queue.rs.
use dreamwell.Common.{
  ℕ, ◌≤◌, ◌≡◌, refl, sym, ap, ◌∙◌, ◌⊎◌, inl, inr, Bool, true, false, ◌&&◌, Option, none, List, [],
  ◌∷◌, ◌++◌, String, ◌==◌, ==_iff, arith, Bool-cases, Option-cases, nat_beq,
}
use dreamwell.Common.Int.{ℤ, int_eq}
use dreamwell.Queue.Job.{Job, JobStatus, running, cancelled, status_eq}
use dreamwell.Queue.Store.{
  is_status, is_active, update_jobs, claim_jobs_in_tx, requeue, requeue_stale_jobs,
  requeue_stuck_jobs, requeue_jobs_by_id, complete, complete_job, get_job, slots_for, chosen,
}
use dreamwell.Queue.Rows.{
  contains, ids_of, IsDistinct, HasUniqueIds, running_count, ids_of-update_jobs, ids_of-start_jobs,
  running_count-update_jobs,
}
use dreamwell.Queue.Claim.{claim_bounded}
use dreamwell.Queue.Tables.{Tables}
use dreamwell.Queue.Finish.{
  cancel_job_record, fail_effects, fail_message, cancel_effects, cancel_message, cancel_beat,
  cancel_message_of, cancel_beat_of, fail_beat, fail_turn, remove_summarize_marker,
}
use dreamwell.Queue.Worker.{Worker, poll, claim, claim_limit, restart, orphaned}

abbrev pub IsSafe : ℕ → List Job → Type 0
IsSafe max_concurrent jobs = HasUniqueIds jobs × (running_count jobs ≤ max_concurrent)

pub IsDistinct-append :
    (id : ℤ) (ids : List ℤ) → contains id ids ≡ false → IsDistinct ids → IsDistinct (ids ++ id ∷ [])
IsDistinct-append id [] h u = (refl, tt)
IsDistinct-append id (i ∷ ids) h (apart, u) =
    let rest : contains id ids ≡ false = ground arith in
    let other : (id == i) ≡ false = ground (arith, ==_iff id i, ==_iff i id) in
    (clear ids apart other, IsDistinct-append id ids rest u)
  where
    clear :
        (ids : List ℤ)
        → contains i ids ≡ false
        → (id == i) ≡ false
        → contains i (ids ++ id ∷ []) ≡ false
    clear [] h k = ground arith
    clear (l ∷ ids) h k = ground (arith, clear ids)

pub ids_of-append : (j : Job) (jobs : List Job) → ids_of (jobs ++ j ∷ []) ≡ ids_of jobs ++ j.id ∷ []
ids_of-append j [] = refl
ids_of-append j (k ∷ jobs) = ap (λ t. k.id ∷ t) (ids_of-append j jobs)

pub running_count-append :
    (j : Job) (jobs : List Job)
    → is_status running j ≡ false
    → running_count (jobs ++ j ∷ []) ≡ running_count jobs
running_count-append j [] h = rw h refl
running_count-append j (k ∷ jobs) h = ground (arith, running_count-append j jobs)

module _ (max_concurrent : ℕ) where
  -- A new row that does not run, under a new key.
  pub append-IsSafe :
      (j : Job) (jobs : List Job)
      → is_status running j ≡ false
      → contains j.id (ids_of jobs) ≡ false
      → IsSafe max_concurrent jobs
      → IsSafe max_concurrent (jobs ++ j ∷ [])
  append-IsSafe j jobs waits fresh (u, r) = (
    rw (ids_of-append j jobs) (IsDistinct-append j.id (ids_of jobs) fresh u),
    rw (running_count-append j jobs waits) r,
  )

  -- An update that neither renames a job nor makes one run.
  pub update_jobs-IsSafe :
      (test : Job → Bool) (change : Job → Job) (jobs : List Job)
      → ((j : Job) → (change j).id ≡ j.id)
      → ((j : Job) → is_status running (change j) ≡ true → is_status running j ≡ true)
      → IsSafe max_concurrent jobs
      → IsSafe max_concurrent (update_jobs test change jobs)
  update_jobs-IsSafe test change jobs same still (u, r) = (
    rw (ids_of-update_jobs test change jobs same) u,
    omega (arith, running_count-update_jobs test change jobs still),
  )

  pub complete_job-IsSafe :
      (id : ℤ) (status : JobStatus) (error : Option String) (now : ℕ) (jobs : List Job)
      → (status == running) ≡ false
      → IsSafe max_concurrent jobs
      → IsSafe max_concurrent (complete_job id status error now jobs)
  unfolding complete_job
  complete_job-IsSafe id status error now jobs ends =
      update_jobs-IsSafe (λ j. j.id == id) (complete status error now) jobs (λ j. refl)
        (λ j h. absurd (let e : false ≡ true = sym ends ∙ h in cc))

  pub requeue_if-IsSafe :
      (test : Job → Bool) (jobs : List Job)
      → IsSafe max_concurrent jobs
      → IsSafe max_concurrent (update_jobs test requeue jobs)
  requeue_if-IsSafe test jobs =
      update_jobs-IsSafe test requeue jobs (λ j. refl)
        (λ j h. absurd (let e : false ≡ true = h in cc))

  pub requeue_jobs_by_id-IsSafe :
      (ids : List ℤ) (jobs : List Job)
      → IsSafe max_concurrent jobs
      → IsSafe max_concurrent (requeue_jobs_by_id ids jobs)
  unfolding requeue_jobs_by_id
  requeue_jobs_by_id-IsSafe [] jobs s = s
  requeue_jobs_by_id-IsSafe (id ∷ ids) jobs s =
      requeue_jobs_by_id-IsSafe ids
        (update_jobs (λ j. (j.id == id) && is_status running j) requeue jobs)
        (requeue_if-IsSafe (λ j. (j.id == id) && is_status running j) jobs s)

  pub poll-IsSafe :
      (now : ℕ) (w : Worker)
      → IsSafe max_concurrent w.db.jobs
      → IsSafe max_concurrent (poll now w).db.jobs
  unfolding poll requeue_stuck_jobs
  poll-IsSafe now w s = requeue_if-IsSafe _ _ (requeue_jobs_by_id-IsSafe (orphaned w) w.db.jobs s)

  pub restart-IsSafe :
      (w : Worker) → IsSafe max_concurrent w.db.jobs → IsSafe max_concurrent (restart w).db.jobs
  unfolding restart requeue_stale_jobs
  restart-IsSafe w s = requeue_if-IsSafe _ w.db.jobs s

  pub ids_of-claim :
      (limit now : ℕ) (jobs : List Job)
      → ids_of (claim_jobs_in_tx max_concurrent limit now jobs).1 ≡ ids_of jobs
  unfolding claim_jobs_in_tx
  ids_of-claim limit now jobs =
      let slots = slots_for max_concurrent limit jobs in
      elim (Bool-cases (nat_beq slots 0)) [
        | inl full ↦ rw full refl
        | inr free ↦ rw free (ids_of-start_jobs now (chosen slots jobs) jobs)
      ]

  pub claim-IsSafe :
      (now : ℕ) (w : Worker)
      → IsSafe max_concurrent w.db.jobs
      → IsSafe max_concurrent (claim max_concurrent now w).db.jobs
  unfolding claim
  claim-IsSafe now w (u, r) =
      let (few, bounded) = claim_bounded max_concurrent claim_limit now w.db.jobs u in
      (rw (ids_of-claim claim_limit now w.db.jobs) u, omega arith)

-- The effects of an end leave the job table alone.
pub fail_effects_jobs :
    (job : Job) (message : String) (db : Tables) → (fail_effects job message db).0.jobs ≡ db.jobs
unfolding fail_effects fail_message fail_beat fail_turn remove_summarize_marker
fail_effects_jobs job message db = ground arith

pub cancel_effects_jobs : (job : Job) (db : Tables) → (cancel_effects job db).jobs ≡ db.jobs
unfolding cancel_effects cancel_message cancel_message_of cancel_beat cancel_beat_of
    remove_summarize_marker
cancel_effects_jobs job db = ground arith

-- The record of a cancellation completes the job or leaves the table.
pub cancel_job_record_jobs :
    (now : ℕ) (job : Job) (db : Tables)
    → ((cancel_job_record now job db).0.jobs ≡ db.jobs)
      ⊎ ((cancel_job_record now job db).0.jobs ≡ complete_job job.id cancelled none now db.jobs)
unfolding cancel_job_record
cancel_job_record_jobs now job db = elim (Option-cases (get_job db.jobs job.id)) [
  | inl missing ↦ inl (ground arith)
  | inr (current, e) ↦
      let done = record db { jobs = complete_job job.id cancelled none now db.jobs } in
      let effects = cancel_effects_jobs job done in
      elim (Bool-cases (is_active current)) [
        | inl active ↦ inr (ground arith)
        | inr over ↦ inl (ground arith)
      ]
]
