-- ===== src/Queue/Poll.antt =====
-- The poll tick, and the tokens of a claim: crates/server/src/queue.rs.
use mathlib.Core.List.{Memᴰ}
use mathlib.Core.Path.{subst}
use dreamwell.Common.{
  ℕ, ◌+◌, ◌≤◌, Option, none, ◌-◌, ◌≡◌, refl, sym, ap, ◌∙◌, inl, inr, true, false, ◌&&◌, not, some,
  List, [], ◌∷◌, map, keep, if◌then◌else◌, ◌==◌, ==_iff, arith, Bool-cases, is_some,
}
use dreamwell.Common.Int.{ℤ, int_eq}
use dreamwell.Common.Dict.{lookup, insert, lookup-insert}
use dreamwell.Queue.Job.{Job, running, status_eq}
use dreamwell.Queue.Store.{
  is_status, update_jobs, requeue, requeue_jobs_by_id, requeue_stuck_jobs, list_running_job_ids,
  started_before, claim_jobs_in_tx,
}
use dreamwell.Queue.Rows.{contains}
use dreamwell.Queue.Finish.{Tokens}
use dreamwell.Queue.Worker.{
  Worker, poll, orphaned, stuck_job_max_age_secs, claim, claim_limit, insert_tokens,
}

-- The rows after a loop of requeues, in one pass.
abbrev requeue_if : List ℤ → Job → Job
requeue_if ids j = if contains j.id ids && is_status running j then requeue j else j

requeue_jobs_by_id_lem :
    (ids : List ℤ) (jobs : List Job) → requeue_jobs_by_id ids jobs ≡ map (requeue_if ids) jobs
unfolding requeue_jobs_by_id update_jobs
requeue_jobs_by_id_lem [] [] = refl
requeue_jobs_by_id_lem [] (j ∷ jobs) = ap (λ t. j ∷ t) (requeue_jobs_by_id_lem [] jobs)
requeue_jobs_by_id_lem (id ∷ ids) jobs =
    requeue_jobs_by_id_lem ids (update_jobs (λ j. (j.id == id) && is_status running j) requeue jobs)
    ∙ fused jobs
  where
    fused :
        (jobs : List Job)
        → map (requeue_if ids) (update_jobs (λ j. (j.id == id) && is_status running j) requeue jobs)
          ≡ map (requeue_if (id ∷ ids)) jobs
    fused [] = refl
    fused (j ∷ jobs) = ground (arith, ==_iff j.id id, ==_iff id j.id, fused jobs)

-- Each running job without a token is among the orphaned.
orphaned_mem :
    (tokens : Tokens) (jobs : List Job) (j : Job)
    → Memᴰ j jobs
    → is_status running j ≡ true
    → is_some (lookup j.id tokens) ≡ false
    → contains j.id (keep (λ id. not (is_some (lookup id tokens))) (list_running_job_ids jobs))
      ≡ true
unfolding list_running_job_ids
orphaned_mem tokens [] j m r n = elim m [ ]
orphaned_mem tokens (k ∷ jobs) j (Memᴰ.head e) r n =
    rw (← e) (rw (r, n, (==_iff j.id j.id).1 refl) refl)
orphaned_mem tokens (k ∷ jobs) j (Memᴰ.tail m) r n =
    ground (arith, orphaned_mem tokens jobs j m r n)

module _ (now : ℕ) (w : Worker) where
  -- A job that the poll leaves running has a task and a known start, at most 920 seconds ago.
  abbrev pub IsTended : Job → Type 0
  IsTended j =
      (is_some (lookup j.id w.active_tokens) ≡ true)
      × (t : ℕ) × (j.started_at ≡ some t)
      × (now ≤ t + 920)

  started_lately :
      (started_at : Option ℕ)
      → started_before (now - stuck_job_max_age_secs) started_at ≡ false
      → (t : ℕ) × (started_at ≡ some t) × (now ≤ t + 920)
  started_lately none h = absurd (cc)
  started_lately (some t) h = (t, refl, ground arith)

  -- The row of the second update.
  abbrev requeue_stuck : Job → Job
  requeue_stuck j =
      if is_status running j && started_before (now - stuck_job_max_age_secs) j.started_at
      then requeue j
      else j

  row-IsTended :
      (ids : List ℤ) (k : Job)
      → (is_status running k ≡ true
          → is_some (lookup k.id w.active_tokens) ≡ false
          → contains k.id ids ≡ true)
      → is_status running (requeue_stuck (requeue_if ids k)) ≡ true
      → IsTended (requeue_stuck (requeue_if ids k))
  row-IsTended ids k orphan r =
      let fresh = started_before (now - stuck_job_max_age_secs) k.started_at in
      elim (Bool-cases (is_status running k)) [
        | inr idle ↦ absurd (ground arith)
        | inl runs ↦ elim (Bool-cases (contains k.id ids)) [
          | inl requeued ↦ absurd (ground arith)
          | inr left ↦ elim (Bool-cases fresh) [
            | inl stuck ↦ absurd (ground arith)
            | inr young ↦
                let same : k ≡ requeue_stuck (requeue_if ids k) = rw (left, runs, young) refl in
                let tasked : is_some (lookup k.id w.active_tokens) ≡ true = ground arith in
                let (t, started, lately) = started_lately k.started_at young in
                subst (λ i. IsTended i) same (tasked, t, started, lately)
          ]
        ]
      ]

  tended :
      (ids : List ℤ) (jobs : List Job)
      → ((i : Job)
          → Memᴰ i jobs
          → is_status running i ≡ true
          → is_some (lookup i.id w.active_tokens) ≡ false
          → contains i.id ids ≡ true)
      → (j : Job)
      → Memᴰ j (requeue_stuck_jobs now stuck_job_max_age_secs (map (requeue_if ids) jobs))
      → is_status running j ≡ true
      → IsTended j
  unfolding requeue_stuck_jobs update_jobs
  tended ids [] orphans j m r = elim m [ ]
  tended ids (k ∷ jobs) orphans j (Memᴰ.head e) r =
      let orphan = orphans k (Memᴰ.head refl) in
      subst (λ i. IsTended i) (sym e)
        (row-IsTended ids k orphan (subst (λ i. is_status running i ≡ true) e r))
  tended ids (k ∷ jobs) orphans j (Memᴰ.tail m) r =
      tended ids jobs (λ i mi. orphans i (Memᴰ.tail mi)) j m r

  -- After a poll every running job has a task with a token, and a known start that is at most 920
  -- seconds ago.
  pub poll-IsTended :
      (j : Job) → Memᴰ j (poll now w).db.jobs → is_status running j ≡ true → IsTended j
  unfolding poll
  poll-IsTended j m r =
      tended (orphaned w) w.db.jobs (orphaned_mem w.active_tokens w.db.jobs) j
        (rw (requeue_jobs_by_id_lem (orphaned w) w.db.jobs) at m) r

lookup-insert_tokens :
    (ids : List ℤ) (tokens : Tokens) (id : ℤ)
    → contains id ids ≡ true
    → lookup id (insert_tokens ids tokens) ≡ some false
unfolding insert_tokens
lookup-insert_tokens [] tokens id h = absurd (ground arith)
lookup-insert_tokens (i ∷ ids) tokens id h = elim (Bool-cases (contains id ids)) [
  | inl later ↦ lookup-insert_tokens ids (insert i false tokens) id later
  | inr first ↦
      untouched ids (insert i false tokens) first
        (let hit : (i == id) ≡ true = ground arith in lookup-insert i id false tokens ∙ rw hit refl)
]
  where
    untouched :
        (ids : List ℤ) (tokens : Tokens)
        → contains id ids ≡ false
        → lookup id tokens ≡ some false
        → lookup id (insert_tokens ids tokens) ≡ some false
    untouched [] tokens h k = k
    untouched (l ∷ ids) tokens h k =
        untouched ids (insert l false tokens) (ground arith)
          (lookup-insert l id false tokens ∙ ground arith)

-- Each job that a claim starts has a task whose token is new.
pub lookup-claim :
    (max_concurrent now : ℕ) (w : Worker) (id : ℤ)
    → contains id (claim_jobs_in_tx max_concurrent claim_limit now w.db.jobs).0 ≡ true
    → lookup id (claim max_concurrent now w).active_tokens ≡ some false
unfolding claim
lookup-claim max_concurrent now w id h =
    lookup-insert_tokens (claim_jobs_in_tx max_concurrent claim_limit now w.db.jobs).0
      w.active_tokens id h
