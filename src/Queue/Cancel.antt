-- ===== src/Queue/Cancel.antt =====
-- What a cancellation does: `cancel_job` of crates/server/src/queue.rs.
use dreamwell.Common.{
  Bool, Option-cases, Bool-cases, ◌⊎◌, ◌∙◌, sym, ap, ℕ, ◌≡◌, refl, inl, inr, true, false, Option,
  none, some, List, [], ◌∷◌, String, if◌then◌else◌, ==_iff, arith, string_eq,
}
use dreamwell.Common.Int.{ℤ, int_eq}
use dreamwell.Queue.Job.{Job, JobStatus, running, cancelled, status_eq}
use dreamwell.Queue.Store.{is_status, is_active, update_jobs, complete, complete_job, get_job}
use dreamwell.Queue.Tables.{Tables}
use dreamwell.Queue.Finish.{
  QueueError, Tokens, cancel_job, cancel_job_record, cancel_effects, cancel_token,
}
use dreamwell.Queue.Safety.{cancel_effects_jobs}

-- A completed job is found as it was completed.
pub get_job-complete_job :
    (id : ℤ) (status : JobStatus) (error : Option String) (now : ℕ) (jobs : List Job) (j : Job)
    → get_job jobs id ≡ some j
    → get_job (complete_job id status error now jobs) id ≡ some (complete status error now j)
unfolding get_job complete_job update_jobs
get_job-complete_job id status error now [] j h = absurd (ground arith)
get_job-complete_job id status error now (k ∷ jobs) j h =
    ground (arith, get_job-complete_job id status error now jobs j)

pub get_job_id : (id : ℤ) (jobs : List Job) (j : Job) → get_job jobs id ≡ some j → j.id ≡ id
unfolding get_job
get_job_id id [] j h = absurd (ground arith)
get_job_id id (k ∷ jobs) j h = ground (arith, ==_iff k.id id, get_job_id id jobs j)

-- A queued or running job that the table has can always be cancelled: the call succeeds, returns the
-- job as completed with the status `cancelled`, completes that row of the job table and changes no
-- other row of it, and tells a running job's task to stop.
pub cancel_job-active :
    (now : ℕ) (id : ℤ) (tokens : Tokens) (db : Tables) (j : Job)
    → get_job db.jobs id ≡ some j
    → is_active j ≡ true
    → (result : Job) × (told : Tokens) × (after : Tables) × (cancel_job now id tokens db
        ≡ inr (result, (told, after)))
      × (result ≡ complete cancelled none now j)
      × (after.jobs ≡ complete_job id cancelled none now db.jobs)
      × (told ≡ (if is_status running j then cancel_token id tokens else tokens))
unfolding cancel_job cancel_job_record
cancel_job-active now id tokens db j h active =
    let done = record db { jobs = complete_job id cancelled none now db.jobs } in
    let told = if is_status running j then cancel_token id tokens else tokens in
    let key : j.id ≡ id = get_job_id id db.jobs j h in
    let effects : (cancel_effects j done).jobs ≡ done.jobs = cancel_effects_jobs j done in
    let found : get_job done.jobs id ≡ some (complete cancelled none now j) =
      get_job-complete_job id cancelled none now db.jobs j h in
    (complete cancelled none now j, told, cancel_effects j done, ground arith, refl, effects, refl)

abbrev pub succeeds : QueueError ⊎ (Job × (Tokens × Tables)) → Bool
succeeds (inl e) = false
succeeds (inr r) = true

-- The job is in the table, and is queued or running.
abbrev pub is_cancellable : Option Job → Bool
is_cancellable none = false
is_cancellable (some j) = is_active j

refused :
    (now : ℕ) (id : ℤ) (tokens : Tokens) (db : Tables)
    → is_cancellable (get_job db.jobs id) ≡ false
    → succeeds (cancel_job now id tokens db) ≡ false
unfolding cancel_job
refused now id tokens db h = elim (Option-cases (get_job db.jobs id)) [
  | inl missing ↦ ground arith
  | inr (j, found) ↦ ground arith
]

-- A cancellation succeeds just when the table has the job and the job is queued or running: neither a
-- token that is missing nor what the job generates makes it fail.
pub cancel_job-succeeds :
    (now : ℕ) (id : ℤ) (tokens : Tokens) (db : Tables)
    → succeeds (cancel_job now id tokens db) ≡ is_cancellable (get_job db.jobs id)
cancel_job-succeeds now id tokens db = elim (Option-cases (get_job db.jobs id)) [
  | inl missing ↦
      let no : is_cancellable (get_job db.jobs id) ≡ false = rw missing refl in
      refused now id tokens db no ∙ sym no
  | inr (j, found) ↦ elim (Bool-cases (is_active j)) [
    | inl active ↦
        let yes_ : is_cancellable (get_job db.jobs id) ≡ true = rw found active in
        let (result, told, after, e, named, rows, tokened) =
          cancel_job-active now id tokens db j found active in
        ap succeeds e ∙ sym yes_
    | inr over ↦
        let no : is_cancellable (get_job db.jobs id) ≡ false = rw found over in
        refused now id tokens db no ∙ sym no
  ]
]
