-- ===== src/Queue/Order.antt =====
-- The order of a claim: `ORDER BY created_at ASC LIMIT` in `claim_jobs_in_tx` of crates/server/src/db.rs.
use mathlib.Core.List.{Memᴰ}
use dreamwell.Common.{
  ℕ, zero, suc, ◌≤◌, ◌≡◌, refl, sym, ap, ◌∙◌, inl, inr, Bool, true, false, ◌&&◌, not, List, [], ◌∷◌,
  any, keep, take, ◌==◌, ==_iff, arith, Bool-cases, ltb, nat_beq,
}
use dreamwell.Common.Int.{int_eq}
use dreamwell.Queue.Job.{Job}
use dreamwell.Queue.Store.{claimable, insert_by_age, by_age, chosen, slots_for, claim_jobs_in_tx}
use dreamwell.Queue.Rows.{contains, ids_of, HasUniqueIds}
use dreamwell.Queue.Select.{
  any-take, any-by_age, any-insert_by_age, any-keep, contains-ids_of, mem-ids_of,
}

-- A test that the row of `b` is older than `t`.
abbrev older : ℕ → Job → Bool
older t q = ltb q.created_at t

abbrev IsSorted : List Job → Type 0
IsSorted [] = Unit
IsSorted (j ∷ jobs) = (any (older j.created_at) jobs ≡ false) × IsSorted jobs

none_older :
    (s t : ℕ) (jobs : List Job) → s ≤ t → any (older t) jobs ≡ false → any (older s) jobs ≡ false
none_older s t [] h k = refl
none_older s t (j ∷ jobs) h k = ground (arith, none_older s t jobs h)

insert_by_age-IsSorted :
    (j : Job) (jobs : List Job) → IsSorted jobs → IsSorted (insert_by_age j jobs)
unfolding insert_by_age
insert_by_age-IsSorted j [] s = (refl, tt)
insert_by_age-IsSorted j (k ∷ jobs) (first, s) = elim (Bool-cases (ltb k.created_at j.created_at)) [
  | inl after ↦
      let rest : any (older k.created_at) (insert_by_age j jobs) ≡ false =
        any-insert_by_age (older k.created_at) j jobs ∙ ground arith in
      rw after (rest, insert_by_age-IsSorted j jobs s)
  | inr before ↦
      let later : any (older j.created_at) jobs ≡ false =
        none_older j.created_at k.created_at jobs (ground arith) first in
      let all_later : any (older j.created_at) (k ∷ jobs) ≡ false = ground arith in
      rw before (all_later, (first, s))
]

by_age-IsSorted : (jobs : List Job) → IsSorted (by_age jobs)
unfolding by_age
by_age-IsSorted [] = tt
by_age-IsSorted (j ∷ jobs) = insert_by_age-IsSorted j (by_age jobs) (by_age-IsSorted jobs)

any_mem :
    (p : Job → Bool) (jobs : List Job) (j : Job) → Memᴰ j jobs → any p jobs ≡ false → p j ≡ false
any_mem p [] j m h = elim m [ ]
any_mem p (k ∷ jobs) j (Memᴰ.head e) h = rw e (ground arith)
any_mem p (k ∷ jobs) j (Memᴰ.tail m) h = any_mem p jobs j m (ground arith)

mem-insert_by_age :
    (j k : Job) (jobs : List Job) → Memᴰ j (k ∷ jobs) → Memᴰ j (insert_by_age k jobs)
unfolding insert_by_age
mem-insert_by_age j k [] m = m
mem-insert_by_age j k (i ∷ jobs) (Memᴰ.head e) = elim (Bool-cases (ltb i.created_at k.created_at)) [
  | inl after ↦ rw after (Memᴰ.tail (mem-insert_by_age j k jobs (Memᴰ.head e)))
  | inr before ↦ rw before (Memᴰ.head e)
]
mem-insert_by_age j k (i ∷ jobs) (Memᴰ.tail (Memᴰ.head e)) =
    elim (Bool-cases (ltb i.created_at k.created_at)) [
      | inl after ↦ rw after (Memᴰ.head e)
      | inr before ↦ rw before (Memᴰ.tail (Memᴰ.head e))
    ]
mem-insert_by_age j k (i ∷ jobs) (Memᴰ.tail (Memᴰ.tail m)) =
    elim (Bool-cases (ltb i.created_at k.created_at)) [
      | inl after ↦ rw after (Memᴰ.tail (mem-insert_by_age j k jobs (Memᴰ.tail m)))
      | inr before ↦ rw before (Memᴰ.tail (Memᴰ.tail m))
    ]

mem-by_age : (j : Job) (jobs : List Job) → Memᴰ j jobs → Memᴰ j (by_age jobs)
unfolding by_age
mem-by_age j [] m = m
mem-by_age j (k ∷ jobs) (Memᴰ.head e) = mem-insert_by_age j k (by_age jobs) (Memᴰ.head e)
mem-by_age j (k ∷ jobs) (Memᴰ.tail m) =
    mem-insert_by_age j k (by_age jobs) (Memᴰ.tail (mem-by_age j jobs m))

mem-keep :
    (p : Job → Bool) (j : Job) (jobs : List Job) → Memᴰ j jobs → p j ≡ true → Memᴰ j (keep p jobs)
mem-keep p j [] m h = m
mem-keep p j (k ∷ jobs) (Memᴰ.head e) h = let kept : p k ≡ true = rw e at h in rw kept (Memᴰ.head e)
mem-keep p j (k ∷ jobs) (Memᴰ.tail m) h = elim (Bool-cases (p k)) [
  | inl kept ↦ rw kept (Memᴰ.tail (mem-keep p j jobs m h))
  | inr dropped ↦ rw dropped (mem-keep p j jobs m h)
]

-- Of a sorted list, what is taken is as old as what is left.
take-IsSorted :
    (n : ℕ) (jobs : List Job) (j i : Job)
    → IsSorted jobs
    → Memᴰ j jobs
    → contains j.id (ids_of (take n jobs)) ≡ false
    → any (λ q. q.id == i.id) (take n jobs) ≡ true
    → any (λ q. (q.id == i.id) && not (ltb j.created_at q.created_at)) (take n jobs) ≡ true
take-IsSorted zero jobs j i s m out found = found
take-IsSorted (suc n) [] j i s m out found = found
take-IsSorted (suc n) (k ∷ jobs) j i s (Memᴰ.head e) out found = absurd (
    let self : (k.id == j.id) ≡ true = (==_iff k.id j.id).1 (ap (λ q. q.id) (sym e)) in
    ground arith)
take-IsSorted (suc n) (k ∷ jobs) j i (first, s) (Memᴰ.tail m) out found =
    let young : older k.created_at j ≡ false = any_mem (older k.created_at) jobs j m first in
    ground (arith, take-IsSorted n jobs j i s m)

-- A test on the row of a key is a test on the row.
test_row :
    (test : Job → Bool) (jobs : List Job) (i : Job)
    → HasUniqueIds jobs
    → Memᴰ i jobs
    → any (λ q. (q.id == i.id) && test q) jobs ≡ true
    → test i ≡ true
test_row test [] i u m h = elim m [ ]
test_row test (k ∷ jobs) i (apart, u) (Memᴰ.head e) h = elim (Bool-cases (test k)) [
  | inl yes_ ↦ rw e yes_
  | inr no_ ↦
      let later : any (λ q. (q.id == i.id) && test q) jobs ≡ true = ground arith in
      let gone : any (λ q. q.id == i.id) jobs ≡ false =
        sym (contains-ids_of i.id jobs) ∙ (rw (← e) at apart) in
      absurd (let twin = weaken jobs later in cc)
]
  where
    weaken :
        (jobs : List Job)
        → any (λ q. (q.id == i.id) && test q) jobs ≡ true
        → any (λ q. q.id == i.id) jobs ≡ true
    weaken [] h = h
    weaken (q ∷ jobs) h = ground (arith, weaken jobs)
test_row test (k ∷ jobs) i (apart, u) (Memᴰ.tail m) h = elim (Bool-cases (k.id == i.id)) [
  | inl same ↦
      let twin : contains i.id (ids_of jobs) ≡ true = mem-ids_of jobs i m in
      let e = (==_iff k.id i.id).0 same in
      let gone : contains i.id (ids_of jobs) ≡ false = rw e at apart in absurd (cc)
  | inr other ↦ test_row test jobs i u m (ground arith)
]

-- A claim takes the oldest jobs: none that it takes is younger than a job that it could take and
-- does not.
pub claim_oldest :
    (max_concurrent limit now : ℕ) (jobs : List Job) (i j : Job)
    → HasUniqueIds jobs
    → Memᴰ i jobs
    → Memᴰ j jobs
    → contains i.id (claim_jobs_in_tx max_concurrent limit now jobs).0 ≡ true
    → claimable jobs j ≡ true
    → contains j.id (claim_jobs_in_tx max_concurrent limit now jobs).0 ≡ false
    → i.created_at ≤ j.created_at
unfolding claim_jobs_in_tx
claim_oldest max_concurrent limit now jobs i j u mi mj taken could left =
    let slots = slots_for max_concurrent limit jobs in
    let accepted = keep (claimable jobs) jobs in
    let test : Job → Bool = λ q. not (ltb j.created_at q.created_at) in
    elim (Bool-cases (nat_beq slots 0)) [
      | inl full ↦ absurd (let none_taken : false ≡ true = rw full at taken in cc)
      | inr free ↦
          let claimed : contains i.id (chosen slots jobs) ≡ true = rw free at taken in
          let out : contains j.id (chosen slots jobs) ≡ false = rw free at left in
          let among = sym (contains-ids_of i.id (take slots (by_age accepted))) ∙ claimed in
          let there = mem-by_age j accepted (mem-keep (claimable jobs) j jobs mj could) in
          let old =
            take-IsSorted slots (by_age accepted) j i (by_age-IsSorted accepted) there out among in
          let both : Job → Bool = λ q. (q.id == i.id) && test q in
          let aged = any-take both slots (by_age accepted) old in
          let kept = any-keep (claimable jobs) both jobs (sym (any-by_age both accepted) ∙ aged) in
          let fine = test_row test jobs i u mi kept in ground arith
    ]
