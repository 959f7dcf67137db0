-- ===== src/Queue/Select.antt =====
-- How a claim of crates/server/src/db.rs selects: the tests, the order by age and the cut to the free slots.
use mathlib.Core.List.{Memᴰ}
use dreamwell.Common.{
  ℕ, zero, suc, ◌≤◌, ◌≡◌, refl, ap, ◌∙◌, Bool, true, false, ◌||◌, List, [], ◌∷◌, any, keep, count,
  take, length, ◌==◌, ==_iff, arith, Bool-cases, inl, inr, min,
}
use dreamwell.Common.Int.{ℤ, int_eq}
use dreamwell.Queue.Job.{Job, status_eq}
use dreamwell.Queue.Store.{insert_by_age, by_age}
use dreamwell.Queue.Rows.{HasUniqueIds, contains, ids_of}

pub length-map_id : (jobs : List Job) → length (ids_of jobs) ≡ length jobs
length-map_id [] = refl
length-map_id (j ∷ jobs) = ap suc (length-map_id jobs)

module _ (p : Job → Bool) where
  pub any-take : (n : ℕ) (jobs : List Job) → any p (take n jobs) ≡ true → any p jobs ≡ true
  any-take zero jobs h = cc
  any-take (suc n) [] h = h
  any-take (suc n) (j ∷ jobs) h = ground (arith, any-take n jobs)

  pub any-insert_by_age :
      (j : Job) (jobs : List Job) → any p (insert_by_age j jobs) ≡ (p j || any p jobs)
  unfolding insert_by_age
  any-insert_by_age j [] = refl
  any-insert_by_age j (k ∷ jobs) = ground (arith, any-insert_by_age j jobs)

  pub any-by_age : (jobs : List Job) → any p (by_age jobs) ≡ any p jobs
  unfolding by_age
  any-by_age [] = refl
  any-by_age (j ∷ jobs) = any-insert_by_age j (by_age jobs) ∙ ap (λ t. p j || t) (any-by_age jobs)

length-insert_by_age :
    (j : Job) (jobs : List Job) → length (insert_by_age j jobs) ≡ suc (length jobs)
unfolding insert_by_age
length-insert_by_age j [] = refl
length-insert_by_age j (k ∷ jobs) = ground (arith, length-insert_by_age j jobs)

pub length-by_age : (jobs : List Job) → length (by_age jobs) ≡ length jobs
unfolding by_age
length-by_age [] = refl
length-by_age (j ∷ jobs) = omega (arith, length-insert_by_age j (by_age jobs), length-by_age jobs)

pub length-keep : (p : Job → Bool) (jobs : List Job) → length (keep p jobs) ≡ count p jobs
length-keep p [] = refl
length-keep p (j ∷ jobs) = ground (arith, length-keep p jobs)

pub length-take : (n : ℕ) (jobs : List Job) → length (take n jobs) ≡ min n (length jobs)
length-take zero jobs = omega arith
length-take (suc n) [] = omega arith
length-take (suc n) (j ∷ jobs) = omega (arith, length-take n jobs)

pub take_all : (n : ℕ) (jobs : List Job) → length jobs ≤ n → take n jobs ≡ jobs
take_all zero [] h = refl
take_all zero (j ∷ jobs) h = absurd (omega arith)
take_all (suc n) [] h = refl
take_all (suc n) (j ∷ jobs) h = ap (λ t. j ∷ t) (take_all n jobs (omega arith))

pub contains-ids_of :
    (id : ℤ) (jobs : List Job) → contains id (ids_of jobs) ≡ any (λ q. q.id == id) jobs
contains-ids_of id [] = refl
contains-ids_of id (j ∷ jobs) = ap (λ t. (j.id == id) || t) (contains-ids_of id jobs)

pub any-keep : (p r : Job → Bool) (jobs : List Job) → any r (keep p jobs) ≡ true → any r jobs ≡ true
any-keep p r [] h = h
any-keep p r (j ∷ jobs) h = ground (arith, any-keep p r jobs)

pub any-keep_mem :
    (p r : Job → Bool) (jobs : List Job) (j : Job)
    → Memᴰ j jobs
    → p j ≡ true
    → r j ≡ true
    → any r (keep p jobs) ≡ true
any-keep_mem p r [] j m h k = elim m [ ]
any-keep_mem p r (i ∷ jobs) j (Memᴰ.head e) h k = rw (← e) (rw h (rw k refl))
any-keep_mem p r (i ∷ jobs) j (Memᴰ.tail m) h k = ground (arith, any-keep_mem p r jobs j m h k)

pub mem-ids_of : (jobs : List Job) (j : Job) → Memᴰ j jobs → contains j.id (ids_of jobs) ≡ true
mem-ids_of [] j m = elim m [ ]
mem-ids_of (k ∷ jobs) j (Memᴰ.head e) = rw (← e) (rw ((==_iff j.id j.id).1 refl) refl)
mem-ids_of (k ∷ jobs) j (Memᴰ.tail m) = ground (arith, mem-ids_of jobs j m)

-- A kept row with the key of a row of the table is that row.
pub kept_row :
    (p : Job → Bool) (jobs : List Job) (j : Job)
    → HasUniqueIds jobs
    → Memᴰ j jobs
    → any (λ q. q.id == j.id) (keep p jobs) ≡ true
    → p j ≡ true
kept_row p [] j u m h = elim m [ ]
kept_row p (k ∷ jobs) j (apart, u) (Memᴰ.head e) h = elim (Bool-cases (p k)) [
  | inl kept ↦ rw e kept
  | inr dropped ↦
      let later : any (λ q. q.id == j.id) (keep p jobs) ≡ true = rw dropped at h in
      let found : any (λ q. q.id == j.id) jobs ≡ true = any-keep p (λ q. q.id == j.id) jobs later in
      let same : contains j.id (ids_of jobs) ≡ true = contains-ids_of j.id jobs ∙ found in
      let gone : contains j.id (ids_of jobs) ≡ false = rw (← e) at apart in cc
]
kept_row p (k ∷ jobs) j (apart, u) (Memᴰ.tail m) h = elim (Bool-cases (k.id == j.id)) [
  | inl same ↦
      let twin : contains j.id (ids_of jobs) ≡ true = mem-ids_of jobs j m in
      let e = (==_iff k.id j.id).0 same in
      let gone : contains j.id (ids_of jobs) ≡ false = rw e at apart in cc
  | inr other ↦ kept_row p jobs j u m (ground arith)
]
