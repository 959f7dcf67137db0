-- ===== src/Inference/Tests.antt =====
-- The fallback's theorems at two connections of which the first is down.
use Prim.Native.String.{◌++◌}
use dreamwell.Common.{get_elem?}
use dreamwell.Common.{
  ℕ, zero, suc, ◌≡◌, refl, Bool, true, false, none, some, List, [], ◌∷◌, String, arith, all,
  if◌then◌else◌, ◌==◌,
}
use dreamwell.Common.Int.{ℤ, pos, int_eq}
use dreamwell.Queue.Job.{Job, game_turn_structured_agent, running}
use dreamwell.Common.Text.Utf8.{byte_len}
use dreamwell.Inference.Connection.{
  InferenceConnection, fallback_connections, has_inference_provider,
}
use dreamwell.Inference.Notice.{AppError, inference, fallback_notice, fallback_notice-none}
use dreamwell.Inference.Fallback.{
  AppResult, ok, err, Marks, effective_model, attempt_one, attempt_from, attempt_connections,
}
use dreamwell.Inference.Ends.{EndsAt, attempt_connections-EndsAt}
use dreamwell.Inference.Labels.{shows, attempt_from-shows}

abbrev connection : ℤ → String → Bool → ℤ → InferenceConnection
connection id name enabled sort_order = record {
  id = id;
  name = name;
  inference_url = "http://localhost:8080/v1";
  model = "demo";
  enabled = enabled;
  sort_order = sort_order;
}

abbrev first : InferenceConnection
first = connection (pos 1) "first" true (pos 0)

abbrev third : InferenceConnection
third = connection (pos 3) "third" true (pos 2)

abbrev connections : List InferenceConnection
connections = third ∷ first ∷ connection (pos 2) "second" false (pos 1) ∷ []

fallback_order : fallback_connections connections ≡ first ∷ third ∷ []
unfolding fallback_connections
fallback_order = refl

abbrev config_of : ℤ → AppResult ℤ
config_of id = ok id

-- The first connection is down.
abbrev answer : ℕ → ℤ → InferenceConnection → String → AppResult String
answer index config conn model =
    if conn.id == pos 1 then err (inference "down") else ok "Once upon a time"

abbrev job : Job
job = record {
  id = pos 7;
  job_type = game_turn_structured_agent;
  chat_id = none;
  message_id = none;
  story_id = none;
  chapter_id = none;
  beat_id = none;
  game_id = some (pos 1);
  turn_id = some (pos 1);
  guidance_notes = "";
  status = running;
  error = none;
  position = pos 0;
  created_at = 0;
  started_at = some 0;
  completed_at = none;
  generation_provider = "";
  generation_model = "";
  generation_notice = "";
}

abbrev marks : Marks
marks = record { jobs = job ∷ []; messages = [] }

attempt_connections-EndsAt_example :
    EndsAt config_of answer
      (some (pos 7))
      none
      none
      0
      (fallback_connections connections)
      (attempt_connections config_of answer (some (pos 7)) none none connections marks).0
unfolding has_inference_provider
attempt_connections-EndsAt_example =
    attempt_connections-EndsAt config_of answer (some (pos 7)) none none connections marks refl

attempt_from-shows_example :
    (k : ℕ) × (last : InferenceConnection) × (get_elem? (first ∷ third ∷ []) k ≡ some last)
    × (attempt_one config_of answer (some (pos 7)) none none k last ≡ ok "Once upon a time")
    × (all
          (shows (pos 7) last (effective_model last none))
          (attempt_from config_of answer
            (some (pos 7))
            none
            none
            0
            (first ∷ third ∷ [])
            marks).1.jobs
        ≡ true)
unfolding attempt_from fallback_notice byte_len
attempt_from-shows_example =
    attempt_from-shows config_of answer (pos 7) none none 0 first (third ∷ []) marks
      "Once upon a time" refl

abbrev repeated : ℕ → String → String
repeated zero s = ""
repeated (suc n) s = s ++ repeated n s

-- An error whose 160th byte lies within an `é`.
abbrev long_error : AppError
long_error = inference (repeated 159 "x" ++ String.◌∷◌ "é" "!")

fallback_notice-none_example : fallback_notice "first" "third" long_error ≡ none
unfolding byte_len
fallback_notice-none_example =
    fallback_notice-none "first" "third" long_error (repeated 159 "x") "é" "!" refl (omega arith)
      (omega arith)
