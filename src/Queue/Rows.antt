-- ===== src/Queue/Rows.antt =====
-- The rows of the job table under the statements of crates/server/src/db.rs: their keys, and how many run.
use dreamwell.Common.{
  ℕ, suc, ◌+◌, ◌≤◌, ◌≡◌, refl, ap, ◌∙◌, Bool, true, false, List, [], ◌∷◌, map, any, count, length,
  if◌then◌else◌, ◌==◌, ==_iff, arith, Bool-cases, inl, inr,
}
use dreamwell.Common.Int.{ℤ, int_eq}
use dreamwell.Queue.Job.{Job, running, status_eq}
use dreamwell.Queue.Store.{is_status, update_jobs, start, start_jobs}

abbrev pub contains : ℤ → List ℤ → Bool
contains id ids = any (λ i. i == id) ids

abbrev pub IsDistinct : List ℤ → Type 0
IsDistinct [] = Unit
IsDistinct (id ∷ ids) = (contains id ids ≡ false) × IsDistinct ids

abbrev pub ids_of : List Job → List ℤ
ids_of jobs = map (λ (j : Job). j.id) jobs

-- The primary key.
abbrev pub HasUniqueIds : List Job → Type 0
HasUniqueIds jobs = IsDistinct (ids_of jobs)

-- The rows after a loop of starts, in one pass.
abbrev pub start_if : ℕ → List ℤ → Job → Job
start_if now ids j = if contains j.id ids then start now j else j

pub start_jobs_lem :
    (now : ℕ) (ids : List ℤ) (jobs : List Job)
    → start_jobs now ids jobs ≡ map (start_if now ids) jobs
unfolding start_jobs
start_jobs_lem now [] jobs = unmoved jobs
  where
    unmoved : (jobs : List Job) → jobs ≡ map (λ j. j) jobs
    unmoved [] = refl
    unmoved (j ∷ jobs) = ap (λ t. j ∷ t) (unmoved jobs)
start_jobs_lem now (id ∷ ids) jobs =
    start_jobs_lem now ids (update_jobs (λ j. j.id == id) (start now) jobs) ∙ fused jobs
  where
    fused :
        (jobs : List Job)
        → map (start_if now ids) (update_jobs (λ j. j.id == id) (start now) jobs)
          ≡ map (start_if now (id ∷ ids)) jobs
    fused [] = refl
    fused (j ∷ jobs) = ground (arith, ==_iff j.id id, ==_iff id j.id, fused jobs)

-- An update that leaves the keys alone keeps them unique.
pub ids_of-update_jobs :
    (test : Job → Bool) (change : Job → Job) (jobs : List Job)
    → ((j : Job) → (change j).id ≡ j.id)
    → ids_of (update_jobs test change jobs) ≡ ids_of jobs
unfolding update_jobs
ids_of-update_jobs test change [] same = refl
ids_of-update_jobs test change (j ∷ jobs) same =
    ground (arith, same j, ids_of-update_jobs test change jobs same)

pub ids_of-start_jobs :
    (now : ℕ) (ids : List ℤ) (jobs : List Job) → ids_of (start_jobs now ids jobs) ≡ ids_of jobs
unfolding start_jobs
ids_of-start_jobs now [] jobs = refl
ids_of-start_jobs now (id ∷ ids) jobs =
    ids_of-start_jobs now ids (update_jobs (λ j. j.id == id) (start now) jobs)
    ∙ ids_of-update_jobs (λ j. j.id == id) (start now) jobs (λ j. refl)

update_jobs_absent :
    (id : ℤ) (change : Job → Job) (jobs : List Job)
    → contains id (ids_of jobs) ≡ false
    → update_jobs (λ j. j.id == id) change jobs ≡ jobs
unfolding update_jobs
update_jobs_absent id change [] h = refl
update_jobs_absent id change (j ∷ jobs) h = ground (arith, update_jobs_absent id change jobs)

-- How many jobs run.
abbrev pub running_count : List Job → ℕ
running_count jobs = count (is_status running) jobs

-- A start adds one running job at most.
running_count-start :
    (now : ℕ) (id : ℤ) (jobs : List Job)
    → HasUniqueIds jobs
    → running_count (update_jobs (λ j. j.id == id) (start now) jobs) ≤ suc (running_count jobs)
unfolding update_jobs
running_count-start now id [] h = omega arith
running_count-start now id (j ∷ jobs) (apart, h) = elim (Bool-cases (j.id == id)) [
  | inl same ↦
      let gone : contains id (ids_of jobs) ≡ false =
        let e = (==_iff j.id id).0 same in rw e at apart in
      rw (same, update_jobs_absent id (start now) jobs gone) (ground arith)
  | inr other ↦ rw other (ground (arith, running_count-start now id jobs h))
]

pub running_count-start_jobs :
    (now : ℕ) (ids : List ℤ) (jobs : List Job)
    → HasUniqueIds jobs
    → running_count (start_jobs now ids jobs) ≤ length ids + running_count jobs
unfolding start_jobs
running_count-start_jobs now [] jobs h = omega arith
running_count-start_jobs now (id ∷ ids) jobs h =
    let kept = ids_of-update_jobs (λ j. j.id == id) (start now) jobs (λ j. refl) in
    omega (
      arith,
      running_count-start now id jobs h,
      running_count-start_jobs now ids (update_jobs (λ j. j.id == id) (start now) jobs) (rw kept h),
    )

-- An update that makes no job run adds none.
pub running_count-update_jobs :
    (test : Job → Bool) (change : Job → Job) (jobs : List Job)
    → ((j : Job) → is_status running (change j) ≡ true → is_status running j ≡ true)
    → running_count (update_jobs test change jobs) ≤ running_count jobs
unfolding update_jobs
running_count-update_jobs test change [] k = omega arith
running_count-update_jobs test change (j ∷ jobs) k =
    ground (arith, k j, running_count-update_jobs test change jobs k)
