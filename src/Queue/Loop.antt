-- ===== src/Queue/Loop.antt =====
-- The claim loop of `spawn_loop` of crates/server/src/queue.rs: it claims until a claim takes nothing.
use dreamwell.Common.{
  ℕ, zero, suc, ◌≤◌, ◌<◌, ◌≡◌, refl, sym, ◌∙◌, inl, inr, Bool, true, false, ◌&&◌, Option, none,
  some, List, [], ◌∷◌, map, any, keep, count, take, is_empty, if◌then◌else◌, ==_iff, arith,
  Bool-cases, nat_beq,
}
use dreamwell.Common.Int.{ℤ, int_eq}
use dreamwell.Queue.Job.{Job, queued, status_eq}
use dreamwell.Queue.Store.{is_status, claimable, by_age, chosen, slots_for, claim_jobs_in_tx}
use dreamwell.Queue.Rows.{contains, ids_of, start_if}
use dreamwell.Queue.Select.{any-take, any-by_age}
use dreamwell.Queue.Claim.{claim_rows}
use dreamwell.Queue.Worker.{Worker, claim, claim_limit}

-- The loop, on fuel; `none` is a loop that the fuel does not end.
unfoldable pub claim_loop : ℕ → ℕ → ℕ → Worker → Option Worker
unfolding claim_jobs_in_tx claim
claim_loop zero max_concurrent now w = none
claim_loop (suc fuel) max_concurrent now w =
    let rest = claim_loop fuel max_concurrent now (claim max_concurrent now w) in
    if is_empty (claim_jobs_in_tx max_concurrent claim_limit now w.db.jobs).0 then some w else rest

abbrev pub queued_count : List Job → ℕ
queued_count jobs = count (is_status queued) jobs

start_if-le :
    (now : ℕ) (ids : List ℤ) (jobs : List Job)
    → queued_count (map (start_if now ids) jobs) ≤ queued_count jobs
start_if-le now ids [] = omega arith
start_if-le now ids (j ∷ jobs) = ground (arith, start_if-le now ids jobs)

start_if-lt :
    (now : ℕ) (ids : List ℤ) (jobs : List Job)
    → any (λ q. is_status queued q && contains q.id ids) jobs ≡ true
    → queued_count (map (start_if now ids) jobs) < queued_count jobs
start_if-lt now ids [] h = absurd (ground arith)
start_if-lt now ids (j ∷ jobs) h =
    ground (arith, start_if-lt now ids jobs, start_if-le now ids jobs)

any_self :
    (taken : List Job)
    → is_empty (ids_of taken) ≡ false
    → any (λ q. contains q.id (ids_of taken)) taken ≡ true
any_self [] h = absurd (ground arith)
any_self (j ∷ taken) h = ground (arith, ==_iff j.id j.id)

any-keep-claimable :
    (all : List Job) (ids : List ℤ) (jobs : List Job)
    → any (λ q. contains q.id ids) (keep (claimable all) jobs) ≡ true
    → any (λ q. is_status queued q && contains q.id ids) jobs ≡ true
unfolding claimable
any-keep-claimable all ids [] h = h
any-keep-claimable all ids (j ∷ jobs) h = ground (arith, any-keep-claimable all ids jobs)

-- A claim that takes a job leaves fewer queued.
queued_count-claim :
    (max_concurrent limit now : ℕ) (jobs : List Job)
    → is_empty (claim_jobs_in_tx max_concurrent limit now jobs).0 ≡ false
    → queued_count (claim_jobs_in_tx max_concurrent limit now jobs).1 < queued_count jobs
unfolding claim_jobs_in_tx
queued_count-claim max_concurrent limit now jobs h =
    let slots = slots_for max_concurrent limit jobs in
    let ids = (claim_jobs_in_tx max_concurrent limit now jobs).0 in
    let rows = claim_rows max_concurrent limit now jobs in
    elim (Bool-cases (nat_beq slots 0)) [
      | inl full ↦ absurd (let e : true ≡ false = rw full at h in cc)
      | inr free ↦
          let accepted = keep (claimable jobs) jobs in
          let some_taken : is_empty (chosen slots jobs) ≡ false = rw free at h in
          let test : Job → Bool = λ q. contains q.id (chosen slots jobs) in
          let among =
            any-take test slots (by_age accepted)
              (any_self (take slots (by_age accepted)) some_taken) in
          let found =
            any-keep-claimable jobs (chosen slots jobs) jobs
              (sym (any-by_age test accepted) ∙ among) in
          let fewer = start_if-lt now (chosen slots jobs) jobs found in
          let same : ids ≡ chosen slots jobs = rw free refl in rw rows (rw same fewer)
    ]

-- With more fuel than jobs are queued the loop ends, in a state in which a claim takes nothing.
pub claim_loop-ends :
    (fuel max_concurrent now : ℕ) (w : Worker)
    → queued_count w.db.jobs < fuel
    → (u : Worker) × (claim_loop fuel max_concurrent now w ≡ some u)
      × (is_empty (claim_jobs_in_tx max_concurrent claim_limit now u.db.jobs).0 ≡ true)
unfolding claim_loop claim
claim_loop-ends zero max_concurrent now w h = absurd (omega arith)
claim_loop-ends (suc fuel) max_concurrent now w h =
    elim (Bool-cases (is_empty (claim_jobs_in_tx max_concurrent claim_limit now w.db.jobs).0)) [
      | inl done ↦ (w, rw done refl, done)
      | inr more ↦
          let fewer = queued_count-claim max_concurrent claim_limit now w.db.jobs more in
          let (u, ends, nothing) =
            claim_loop-ends fuel max_concurrent now (claim max_concurrent now w) (omega arith) in
          (u, rw more ends, nothing)
    ]
