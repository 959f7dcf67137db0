-- ===== src/Inference/Labels.antt =====
-- What a job shows of the connection that answered: `record_inference_attempt` of
-- crates/server/src/model_fallback.rs.
use dreamwell.Common.{
  ℕ, suc, ◌+◌, get_elem?, ◌≡◌, refl, sym, ap, ◌∙◌, inl, inr, Bool, true, ◌&&◌, ◌||◌, not, Option,
  some, List, [], ◌∷◌, String, arith, all, ◌==◌, ==_iff, string_eq, Bool-cases, Option-cases,
}
use dreamwell.Common.Int.{ℤ, int_eq}
use dreamwell.Queue.Job.{Job}
use dreamwell.Queue.Store.{set_job_generation_inference}
use dreamwell.Inference.Connection.{InferenceConnection, connection_label}
use dreamwell.Inference.Fallback.{
  AppResult, ok, Ending, returned, Marks, effective_model, record_fallback, attempt_one,
  attempt_from, marks_of_attempt, moves_on, error_of,
}
use dreamwell.Inference.Ends.{stops, moves, panics}

-- A job with the id shows the label of the connection and the model.
abbrev pub shows : ℤ → InferenceConnection → String → Job → Bool
shows id conn model j =
    not (j.id == id)
    || ((j.generation_provider == connection_label conn) && (j.generation_model == model))

set_job_generation_inference-shows :
    (id : ℤ) (conn : InferenceConnection) (model : String) (jobs : List Job)
    → all (shows id conn model) (set_job_generation_inference id (connection_label conn) model jobs)
      ≡ true
unfolding set_job_generation_inference
set_job_generation_inference-shows id conn model [] = refl
set_job_generation_inference-shows id conn model (j ∷ jobs) = ground (
  arith,
  ==_iff (connection_label conn) (connection_label conn),
  ==_iff model model,
  set_job_generation_inference-shows id conn model jobs,
)

module _ {ℓ κ} {Config : Type κ} {A : Type ℓ} (config_of : ℤ → AppResult Config)
    (answer : ℕ → Config → InferenceConnection → String → AppResult A) (id : ℤ)
    (message_id : Option ℤ) (model_override : Option String) where
  abbrev one : ℕ → InferenceConnection → AppResult A
  one = attempt_one config_of answer (some id) message_id model_override

  abbrev from : ℕ → List InferenceConnection → Marks → Ending A × Marks
  from = attempt_from config_of answer (some id) message_id model_override

  abbrev marked : InferenceConnection → Marks → Marks
  marked = marks_of_attempt config_of answer (some id) message_id model_override

  marked-shows :
      (i : ℕ) (conn : InferenceConnection) (a : A) (m : Marks)
      → one i conn ≡ ok a
      → all (shows id conn (effective_model conn model_override)) (marked conn m).jobs ≡ true
  unfolding attempt_one marks_of_attempt
  marked-shows i conn a m h = ground (
    arith,
    set_job_generation_inference-shows id conn (effective_model conn model_override) m.jobs,
  )

  add_zero : (i : ℕ) → i + 0 ≡ i
  add_zero i = omega arith

  add_suc : (i k : ℕ) → i + suc k ≡ suc i + k
  add_suc i k = omega arith

  -- When the loop returns a value, one of its connections gave it and each row of the job
  -- shows the label and the model of that one.
  pub attempt_from-shows :
      (index : ℕ) (conn : InferenceConnection) (rest : List InferenceConnection) (m : Marks) (a : A)
      → (from index (conn ∷ rest) m).0 ≡ returned (ok a)
      → (k : ℕ) × (last : InferenceConnection) × (get_elem? (conn ∷ rest) k ≡ some last)
        × (one (index + k) last ≡ ok a)
        × (all
              (shows id last (effective_model last model_override))
              (from index (conn ∷ rest) m).1.jobs
            ≡ true)
  unfolding attempt_from
  attempt_from-shows index conn [] m a h =
      let found : one index conn ≡ ok a = cc h in
      (
        0,
        conn,
        refl,
        ap (λ i. one i conn) (add_zero index) ∙ found,
        marked-shows index conn a m found,
      )
  attempt_from-shows index conn (next ∷ rest) m a h =
      elim (Bool-cases
        (moves_on config_of answer (some id) message_id model_override conn (one index conn))) [
          | inr stop ↦
              let e =
                stops config_of answer (some id) message_id model_override index conn next rest m
                  stop in
              let found : one index conn ≡ ok a = cc (h, ap (λ p. p.0) e) in
              rw e (
                0,
                conn,
                refl,
                ap (λ i. one i conn) (add_zero index) ∙ found,
                marked-shows index conn a m found,
              )
          | inl move ↦
              elim (Option-cases (
                record_fallback (some id) message_id (connection_label conn) (connection_label next)
                  (error_of config_of answer (some id) message_id model_override (one index conn))
                  (marked conn m))) [
                    | inl bad ↦ absurd (
                        cc (
                          h,
                          ap (λ p. p.0)
                              (panics config_of answer (some id) message_id model_override index
                                conn next rest m move bad),
                        ))
                    | inr (m', good) ↦
                        let e =
                          moves config_of answer (some id) message_id model_override index conn next
                            rest m m' move good in
                        let (k, last, got, gave, shown) =
                          attempt_from-shows (suc index) next rest m' a
                            (sym (ap (λ p. p.0) e) ∙ h) in
                        rw e
                          (suc k, last, got, ap (λ i. one i last) (add_suc index k) ∙ gave, shown)
                  ]
        ]
