-- ===== src/Inference/Fallback.antt =====
-- The attempts on one connection after another: `attempt_connections!` of
-- crates/server/src/model_fallback.rs and the marks that they leave on the job and its message.
use dreamwell.Common.{
  ℕ, suc, Bool, true, false, Option, none, some, List, [], ◌∷◌, String, if◌then◌else◌, ◌==◌,
  opt_map, unwrap_or, and_then,
}
use dreamwell.Common.Int.{ℤ, int_eq}
use dreamwell.Common.Text.{trim, nonempty}
use dreamwell.Queue.Job.{Job}
use dreamwell.Queue.Store.{set_job_generation_inference, update_jobs}
use dreamwell.Queue.Tables.{Message, update_messages}
use dreamwell.Inference.Connection.{InferenceConnection, connection_label, fallback_connections}
use dreamwell.Inference.Notice.{AppError, bad_request, is_fallback_eligible, fallback_notice}

pub data AppResult {ℓ} (A : Type ℓ) : Type ℓ where
  ok : A → AppResult A
  err : AppError → AppResult A

-- How a call ends.
pub data Ending {ℓ} (A : Type ℓ) : Type ℓ where
  returned : AppResult A → Ending A
  panicked : Ending A

-- The tables that a generation marks.
pub record Marks : Type 0 where
  pub jobs : List Job
  pub messages : List Message

abbrev pub nonempty_model : String → Option String
nonempty_model model = if nonempty (trim model) then some (trim model) else none

abbrev pub effective_model : InferenceConnection → Option String → String
effective_model conn model_override =
    unwrap_or (and_then model_override nonempty_model) (trim conn.model)

unfoldable pub set_message_generation_notice : ℤ → String → Marks → Marks
set_message_generation_notice message_id notice m = record m {
  messages = update_messages message_id (λ r. record r { generation_notice = notice }) m.messages;
}

unfoldable pub clear_message_generation_notice : ℤ → Marks → Marks
unfolding set_message_generation_notice
clear_message_generation_notice message_id m = set_message_generation_notice message_id "" m

unfoldable pub set_job_generation_notice : ℤ → String → Marks → Marks
unfolding update_jobs
set_job_generation_notice job_id notice m = record m {
  jobs = update_jobs (λ j. j.id == job_id) (λ j. record j { generation_notice = notice }) m.jobs;
}

-- A statement that fails is only logged: the model's statements succeed.
unfoldable pub record_inference_attempt : Option ℤ → InferenceConnection → String → Marks → Marks
unfolding set_job_generation_inference
record_inference_attempt none conn model m = m
record_inference_attempt (some job_id) conn model m = record m {
  jobs = set_job_generation_inference job_id (connection_label conn) model m.jobs;
}

abbrev pub on_id : (ℤ → Marks → Marks) → Option ℤ → Marks → Marks
on_id f none m = m
on_id f (some id) m = f id m

-- `none` is the panic of the notice.
unfoldable pub record_fallback :
    Option ℤ → Option ℤ → String → String → AppError → Marks → Option Marks
unfolding set_message_generation_notice set_job_generation_notice
record_fallback job_id message_id from to error m =
    opt_map
      (λ notice.
        on_id (λ id. set_job_generation_notice id notice) job_id
          (on_id (λ id. set_message_generation_notice id notice) message_id m))
      (fallback_notice from to error)

-- A notice that panics ends the call, and else the loop goes on.
abbrev pub after_notice {ℓ} :
    {A : Type ℓ} → Option Marks → (Marks → Ending A × Marks) → Marks → Ending A × Marks
after_notice (some m) loop attempted = loop m
after_notice none loop attempted = (panicked, attempted)

-- What the row of a connection gives (`get_inference_config_for_connection`), and what the provider
-- answers to the attempt with an index, a configuration and a model.
module _ {ℓ κ} {Config : Type κ} {A : Type ℓ} (config_of : ℤ → AppResult Config)
    (answer : ℕ → Config → InferenceConnection → String → AppResult A)
    (job_id message_id : Option ℤ) (model_override : Option String) where
  -- The answer of one connection: an attempt, if its configuration is read.
  unfoldable pub attempt_one : ℕ → InferenceConnection → AppResult A
  attempt_one index conn = elim (config_of conn.id) [
    | ok config ↦ answer index config conn (effective_model conn model_override)
    | err e ↦ err e
  ]

  abbrev pub has_config : InferenceConnection → Bool
  has_config conn = elim (config_of conn.id) [ ok config ↦ true | err e ↦ false ]

  -- The marks of an attempt: an error of the configuration returns before the attempt is recorded.
  unfoldable pub marks_of_attempt : InferenceConnection → Marks → Marks
  unfolding record_inference_attempt
  marks_of_attempt conn m =
      if has_config conn
      then record_inference_attempt job_id conn (effective_model conn model_override) m
      else m

  -- An error moves on to the next connection if it is an answer of the provider and eligible.
  abbrev pub moves_on : InferenceConnection → AppResult A → Bool
  moves_on conn (ok a) = false
  moves_on conn (err e) = if has_config conn then is_fallback_eligible e else false

  abbrev pub error_of : AppResult A → AppError
  error_of (ok a) = bad_request ""
  error_of (err e) = e

  -- The loop from the connection with an index. The last connection's error is returned, so that the
  -- error behind the loop is that of an empty list.
  unfoldable pub attempt_from : ℕ → List InferenceConnection → Marks → Ending A × Marks
  unfolding attempt_one marks_of_attempt record_fallback
  attempt_from index [] m = (returned (err (bad_request "No inference provider configured")), m)
  attempt_from index (conn ∷ []) m = (returned (attempt_one index conn), marks_of_attempt conn m)
  attempt_from index (conn ∷ next ∷ rest) m =
      if moves_on conn (attempt_one index conn)
      then after_notice
          (record_fallback job_id message_id (connection_label conn) (connection_label next)
            (error_of (attempt_one index conn)) (marks_of_attempt conn m))
          (attempt_from (suc index) (next ∷ rest)) (marks_of_attempt conn m)
      else (returned (attempt_one index conn), marks_of_attempt conn m)

  unfoldable pub attempt_connections : List InferenceConnection → Marks → Ending A × Marks
  unfolding attempt_from
  attempt_connections connections m = attempt_from 0 (fallback_connections connections) m
