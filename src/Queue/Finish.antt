-- ===== src/Queue/Finish.antt =====
-- How a job ends: `cancel_job`, `cancel_job_record` and `fail_job` of crates/server/src/queue.rs. The chats
-- of the messages are taken to be there.
use Prim.Native.String
use dreamwell.Common.{
  ℕ, ◌⊎◌, inl, inr, Bool, true, false, ◌&&◌, none, some, List, [], ◌∷◌, String, find, if◌then◌else◌,
  ◌==◌, string_eq, option_eq, nat_eq,
}
use dreamwell.Common.Int.{ℤ, int_eq}
use dreamwell.Common.Dict.{lookup, insert}
use dreamwell.Queue.Job.{
  Job, running, failed, cancelled, status_eq, chat_message, chat_summarize, story_beat_prose,
  story_beat_prose_continue, game_scene_summarize, game_prose_recheck, game_state_recheck,
}
use dreamwell.Queue.Store.{is_active, get_job, complete_job}
use dreamwell.Queue.Tables.{
  Beat, Message, Tables, delete_messages, fail_chat_message_generation, is_empty_text,
  set_thought_in_progress, update_beat_content, update_message_content, update_turn_phase,
}

unfoldable pub remove_summarize_marker : Job → Tables → Tables
unfolding delete_messages
remove_summarize_marker job db = elim job.message_id [
  | none ↦ db
  | some message_id ↦ record db { messages = delete_messages (message_id ∷ []) db.messages }
]

-- What a cancelled message keeps: its text, unless it has none.
unfoldable pub cancel_message_of : ℤ → ℤ → Tables → Tables
unfolding update_message_content set_thought_in_progress
cancel_message_of chat_id message_id db =
    elim (find (λ (m : Message). (m.id == message_id) && (m.chat_id == chat_id)) db.messages) [
      | none ↦ db
      | some message ↦
          let first =
            if is_empty_text message.content
            then update_message_content message_id "[Generation cancelled]" db.messages
            else db.messages in
          record db { messages = set_thought_in_progress message_id false first }
    ]

unfoldable pub cancel_message : Job → Tables → Tables
unfolding cancel_message_of
cancel_message job db = elim job.chat_id [
  | none ↦ db
  | some chat_id ↦ elim job.message_id [
    | none ↦ db
    | some message_id ↦ cancel_message_of chat_id message_id db
  ]
]

unfoldable pub cancel_beat_of : ℤ → ℤ → Tables → Tables
unfolding update_beat_content
cancel_beat_of story_id beat_id db =
    elim (find (λ (b : Beat). (b.id == beat_id) && (b.story_id == story_id)) db.beats) [
      | none ↦ db
      | some beat ↦
          if is_empty_text beat.content
          then record db { beats = update_beat_content beat_id "[Generation cancelled]" db.beats }
          else db
    ]

unfoldable pub cancel_beat : Job → Tables → Tables
unfolding cancel_beat_of
cancel_beat job db = elim job.story_id [
  | none ↦ db
  | some story_id ↦ elim job.beat_id [
    | none ↦ db
    | some beat_id ↦ cancel_beat_of story_id beat_id db
  ]
]

unfoldable pub cancel_effects : Job → Tables → Tables
unfolding cancel_message cancel_beat remove_summarize_marker
cancel_effects job db = elim job.job_type [
  | chat_message ↦ cancel_message job db
  | story_beat_prose ↦ cancel_beat job db
  | chat_summarize ↦ remove_summarize_marker job db
  | _ ↦ db
]

-- The Boolean is false where the function returns an error.
unfoldable pub cancel_job_record : ℕ → Job → Tables → Tables × Bool
unfolding get_job complete_job cancel_effects
cancel_job_record now job db = elim (get_job db.jobs job.id) [
  | none ↦ (db, false)
  | some current ↦
      let done = record db { jobs = complete_job job.id cancelled none now db.jobs } in
      if is_active current then (cancel_effects job done, true) else (db, true)
]

unfoldable pub fail_turn : Job → Tables → Tables
unfolding update_turn_phase
fail_turn job db = elim job.turn_id [
  | none ↦ db
  | some turn_id ↦ record db { turns = update_turn_phase turn_id "failed" db.turns }
]

unfoldable pub fail_beat : Job → String → Tables → Tables
unfolding update_beat_content
fail_beat job message db = elim job.beat_id [
  | none ↦ db
  | some beat_id ↦
      let text = String.◌++◌ "[Generation failed: " (String.◌++◌ message "]") in
      record db { beats = update_beat_content beat_id text db.beats }
]

unfoldable pub fail_message : Job → String → Tables → Tables × Bool
unfolding fail_chat_message_generation
fail_message job message db = elim job.message_id [
  | none ↦ (db, true)
  | some message_id ↦
      let (messages, found) = fail_chat_message_generation message_id message db.messages in
      (record db { messages = messages }, found)
]

unfoldable pub fail_effects : Job → String → Tables → Tables × Bool
unfolding fail_message fail_beat fail_turn remove_summarize_marker
fail_effects job message db = elim job.job_type [
  | chat_message ↦ fail_message job message db
  | story_beat_prose ↦ (fail_beat job message db, true)
  | story_beat_prose_continue ↦ (db, true)
  | chat_summarize ↦ (remove_summarize_marker job db, true)
  | game_scene_summarize ↦ (db, true)
  | game_prose_recheck ↦ (db, true)
  | game_state_recheck ↦ (db, true)
  | _ ↦ (fail_turn job db, true)
]

unfoldable pub fail_job : ℕ → ℤ → Job → String → Tables → Tables × Bool
unfolding complete_job fail_effects
fail_job now job_id job message db =
    fail_effects job message
      (record db { jobs = complete_job job_id failed (some message) now db.jobs })

pub data QueueError : Type 0 where
  not_found bad_request : QueueError

-- `active_tokens`: the jobs with a task, and whether the task was told to stop.
abbrev pub Tokens : Type 0
Tokens = List (ℤ × Bool)

unfoldable pub cancel_token : ℤ → Tokens → Tokens
cancel_token id tokens = elim (lookup id tokens) [ none ↦ tokens | some _ ↦ insert id true tokens ]

unfoldable pub cancel_job : ℕ → ℤ → Tokens → Tables → QueueError ⊎ (Job × (Tokens × Tables))
unfolding get_job cancel_token cancel_job_record
cancel_job now job_id tokens db = elim (get_job db.jobs job_id) [
  | none ↦ inl not_found
  | some job ↦
      let told = if job.status == running then cancel_token job_id tokens else tokens in
      let (after, ok) = cancel_job_record now job db in
      if is_active job
      then (if ok
          then elim (get_job after.jobs job_id) [
            | none ↦ inl not_found
            | some result ↦ inr (result, (told, after))
          ]
          else inl not_found)
      else inl bad_request
]
