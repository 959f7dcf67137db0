-- ===== src/Queue/Claim.antt =====
-- What a claim does: `claim_jobs_in_tx` of crates/server/src/db.rs.
use mathlib.Core.List.{Memᴰ}
use dreamwell.Common.{
  ℕ, ◌-◌, ◌≤◌, ◌<◌, ◌≡◌, refl, sym, ◌∙◌, true, false, ◌&&◌, is_some, List, [], map, keep, count,
  take, length, length-take-le, ◌==◌, ==_iff, arith, Bool-cases, inl, inr, nat_beq, min, max,
}
use dreamwell.Common.Int.{int_eq}
use dreamwell.Queue.Job.{Job, queued, status_eq}
use dreamwell.Queue.Store.{
  is_status, start_jobs, by_age, claimable, is_outline, outline_runs, chosen, slots_for,
  claim_jobs_in_tx,
}
use dreamwell.Queue.Rows.{
  HasUniqueIds, contains, running_count, running_count-start_jobs, start_jobs_lem, start_if,
}
use dreamwell.Queue.Select.{
  length-map_id, any-take, any-by_age, length-by_age, length-keep, length-take, take_all,
  contains-ids_of, any-keep_mem, kept_row,
}

-- The limit and the number of running jobs bound a claim.
pub claim_bounded :
    (max_concurrent limit now : ℕ) (jobs : List Job)
    → HasUniqueIds jobs
    → let (ids, after) = claim_jobs_in_tx max_concurrent limit now jobs in
      (length ids ≤ limit) × (running_count after ≤ max max_concurrent (running_count jobs))
unfolding claim_jobs_in_tx
claim_bounded max_concurrent limit now jobs h =
    let slots = slots_for max_concurrent limit jobs in
    let ids = chosen slots jobs in
    let fits : length ids ≤ slots = omega (
      arith,
      length-map_id (take slots (by_age (keep (claimable jobs) jobs))),
      length-take-le slots (by_age (keep (claimable jobs) jobs)),
    ) in
    elim (Bool-cases (nat_beq slots 0)) [
      | inl full ↦ rw full (omega arith, omega arith)
      | inr free ↦ rw free (omega arith, omega (arith, running_count-start_jobs now ids jobs h))
    ]

-- The rows after a claim: each is started if it was chosen, and is as it was otherwise.
pub claim_rows :
    (max_concurrent limit now : ℕ) (jobs : List Job)
    → let (ids, after) = claim_jobs_in_tx max_concurrent limit now jobs in
      after ≡ map (start_if now ids) jobs
unfolding claim_jobs_in_tx start_jobs
claim_rows max_concurrent limit now jobs =
    let slots = slots_for max_concurrent limit jobs in
    elim (Bool-cases (nat_beq slots 0)) [
      | inl full ↦ rw full (start_jobs_lem now [] jobs)
      | inr free ↦ rw free (start_jobs_lem now (chosen slots jobs) jobs)
    ]

-- Only what the query accepts is claimed.
claim_accepted :
    (max_concurrent limit now : ℕ) (jobs : List Job) (j : Job)
    → HasUniqueIds jobs
    → Memᴰ j jobs
    → contains j.id (claim_jobs_in_tx max_concurrent limit now jobs).0 ≡ true
    → claimable jobs j ≡ true
unfolding claim_jobs_in_tx
claim_accepted max_concurrent limit now jobs j u m h =
    let slots = slots_for max_concurrent limit jobs in
    let accepted = keep (claimable jobs) jobs in
    elim (Bool-cases (nat_beq slots 0)) [
      | inl full ↦ absurd (let none_claimed : false ≡ true = rw full at h in cc)
      | inr free ↦
          let claimed : contains j.id (chosen slots jobs) ≡ true = rw free at h in
          let among = sym (contains-ids_of j.id (take slots (by_age accepted))) ∙ claimed in
          let aged = any-take (λ q. q.id == j.id) slots (by_age accepted) among in
          kept_row (claimable jobs) jobs j u m
            (sym (any-by_age (λ q. q.id == j.id) accepted) ∙ aged)
    ]

-- A claimed row of a table with unique keys was queued, and a claimed outline job had no running
-- outline job of its story before the claim.
pub claim_sound :
    (max_concurrent limit now : ℕ) (jobs : List Job) (j : Job)
    → HasUniqueIds jobs
    → Memᴰ j jobs
    → contains j.id (claim_jobs_in_tx max_concurrent limit now jobs).0 ≡ true
    → (j.status ≡ queued)
      × ((is_outline j.job_type && (is_some j.story_id && outline_runs jobs j.story_id)) ≡ false)
unfolding claimable
claim_sound max_concurrent limit now jobs j u m h =
    let accepted = claim_accepted max_concurrent limit now jobs j u m h in
    (ground (arith, ==_iff j.status queued), ground arith)

-- A claim takes as many jobs as there are, up to the free slots and the limit: no slot stays free
-- while a job can be claimed.
pub claim_full :
    (max_concurrent limit now : ℕ) (jobs : List Job)
    → length (claim_jobs_in_tx max_concurrent limit now jobs).0
      ≡ min (min (max_concurrent - running_count jobs) limit) (count (claimable jobs) jobs)
unfolding claim_jobs_in_tx
claim_full max_concurrent limit now jobs =
    let slots = slots_for max_concurrent limit jobs in
    let accepted = keep (claimable jobs) jobs in
    let counted : length (chosen slots jobs) ≡ min slots (count (claimable jobs) jobs) = omega (
      arith,
      length-map_id (take slots (by_age accepted)),
      length-take slots (by_age accepted),
      length-by_age accepted,
      length-keep (claimable jobs) jobs,
    ) in
    elim (Bool-cases (nat_beq slots 0)) [
      | inl full ↦ rw full (ground arith)
      | inr free ↦ rw free counted
    ]

-- With a slot for each, a claim takes every job that can be claimed.
pub claim_complete :
    (max_concurrent limit now : ℕ) (jobs : List Job) (j : Job)
    → Memᴰ j jobs
    → claimable jobs j ≡ true
    → count (claimable jobs) jobs ≤ min (max_concurrent - running_count jobs) limit
    → 0 < min (max_concurrent - running_count jobs) limit
    → contains j.id (claim_jobs_in_tx max_concurrent limit now jobs).0 ≡ true
unfolding claim_jobs_in_tx
claim_complete max_concurrent limit now jobs j m h fits free =
    let slots = slots_for max_concurrent limit jobs in
    let accepted = keep (claimable jobs) jobs in
    let open_slot : nat_beq slots 0 ≡ false = ground arith in
    let whole : take slots (by_age accepted) ≡ by_age accepted =
      take_all slots (by_age accepted)
        (omega (arith, length-by_age accepted, length-keep (claimable jobs) jobs)) in
    let self : (j.id == j.id) ≡ true = (==_iff j.id j.id).1 refl in
    rw
      (
        open_slot,
        whole,
        contains-ids_of j.id (by_age accepted),
        any-by_age (λ q. q.id == j.id) accepted,
      )
      (any-keep_mem (claimable jobs) (λ q. q.id == j.id) jobs j m h self)

-- The test for a running outline job of the story sees the jobs that ran before the claim, and not
-- those that the claim itself starts: two queued outline jobs of a story without a running one are
-- both started when each has a slot.
pub claim_same_story :
    (max_concurrent limit now : ℕ) (jobs : List Job) (i j : Job)
    → Memᴰ i jobs
    → Memᴰ j jobs
    → (is_status queued i ≡ true) × (is_status queued j ≡ true)
    → outline_runs jobs i.story_id ≡ false
    → i.story_id ≡ j.story_id
    → count (claimable jobs) jobs ≤ min (max_concurrent - running_count jobs) limit
    → 0 < min (max_concurrent - running_count jobs) limit
    → let (ids, after) = claim_jobs_in_tx max_concurrent limit now jobs in
      (contains i.id ids ≡ true) × (contains j.id ids ≡ true)
unfolding claimable
claim_same_story max_concurrent limit now jobs i j mi mj (qi, qj) idle same fits free =
    let idle' : outline_runs jobs j.story_id ≡ false = rw same at idle in
    let ci : claimable jobs i ≡ true = ground arith in
    let cj : claimable jobs j ≡ true = ground arith in
    (
      claim_complete max_concurrent limit now jobs i mi ci fits free,
      claim_complete max_concurrent limit now jobs j mj cj fits free,
    )
