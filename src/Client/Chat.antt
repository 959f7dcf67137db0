-- ===== src/Client/Chat.antt =====
-- When the open chat is stale: crates/frontend/src/chat_sync.rs. The entries of a message's three
-- lists are only compared, so their types are parameters.
use dreamwell.Common.{
  ℕ, ◌≡◌, Bool, true, false, ◌&&◌, ◌||◌, not, Option, none, some, List, String, any, is_some,
  is_none, if◌then◌else◌, ltb, arith, ◌==◌, string_eq, option_eq,
}
use dreamwell.Common.Int.{ℤ, int_eq, pos, ltb_ℤ}
use dreamwell.Queue.Job.{Job, JobStatus, queued, running, status_eq}

pub data MessageRole : Type 0 where
  system user assistant : MessageRole

module _ {ℓ} (Update Beat Change : Type ℓ) where
  -- `variable_updates`, `reply_beats` and `state_changes` are lists of parameters.
  pub record Message : Type ℓ where
    pub id : ℤ
    pub chat_id : ℤ
    pub role : MessageRole
    pub content : String
    pub thought_content : String
    pub thought_duration_ms : Option ℤ
    pub thought_in_progress : Bool
    pub variable_updates : List Update
    pub reply_beats : List Beat
    pub state_changes : List Change
    pub generation_phase : String
    pub is_summary : Bool
    pub in_summary : Bool
    pub created_at : ℕ
    pub job_status : Option JobStatus
    pub generation_error : Option String
    pub generation_notice : String

pub record Chat : Type 0 where
  pub id : ℤ
  pub title : String
  pub character_id : ℤ
  pub character_name : String
  pub summary : String
  pub created_at : ℕ
  pub updated_at : ℕ
  pub archived_at : Option ℕ
  pub active_job : Option Job
  pub queued_jobs : ℤ

abbrev pub touched_since : Chat → Option ℕ → Bool
touched_since chat none = is_some chat.active_job || ltb_ℤ (pos 0) chat.queued_jobs
touched_since chat (some synced) = ltb synced chat.updated_at

module _ {ℓ} {Update Beat Change : Type ℓ} where
  abbrev pub message_has_active_job : Message Update Beat Change → Bool
  message_has_active_job m = (m.job_status == some queued) || (m.job_status == some running)

  abbrev pub messages_show_active_job : List (Message Update Beat Change) → Bool
  messages_show_active_job messages = any message_has_active_job messages

  abbrev pub messages_stale_vs_chat : List (Message Update Beat Change) → Chat → Bool
  messages_stale_vs_chat messages chat =
      messages_show_active_job messages && is_none chat.active_job

  abbrev pub message_generation_live : Chat → List (Message Update Beat Change) → Bool
  message_generation_live chat messages = not (messages_stale_vs_chat messages chat)

  -- The job's message is not among those loaded.
  abbrev pub lacks_message : Job → List (Message Update Beat Change) → Bool
  lacks_message job messages = elim job.message_id [
    | none ↦ false
    | some msg_id ↦ not (any (λ (m : Message Update Beat Change). m.id == msg_id) messages)
  ]

  unfoldable pub messages_need_refetch : List (Message Update Beat Change) → Chat → Option ℕ → Bool
  messages_need_refetch messages chat synced =
      let idle = if messages_show_active_job messages then false else touched_since chat synced in
      if messages_stale_vs_chat messages chat then true else elim chat.active_job [
        | none ↦ idle
        | some job ↦
            if lacks_message job messages
            then true
            else if message_generation_live chat messages
            then false
            else idle
      ]

  unfoldable pub should_apply_messages_from_sse : List (Message Update Beat Change) → Chat → Bool
  should_apply_messages_from_sse payload_messages payload_chat =
      if is_some payload_chat.active_job
      then true
      else not (messages_stale_vs_chat payload_messages payload_chat)

  -- A snapshot that is not applied is stale, and messages like it are fetched again.
  pub should_apply_or_refetch :
      (messages : List (Message Update Beat Change)) (chat : Chat) (synced : Option ℕ)
      → should_apply_messages_from_sse messages chat ≡ false
      → (messages_stale_vs_chat messages chat ≡ true)
        × (messages_need_refetch messages chat synced ≡ true)
  unfolding should_apply_messages_from_sse messages_need_refetch
  should_apply_or_refetch messages chat synced h = (ground arith, ground arith)

  -- What the decision depends on, for each case of the chat's job.
  abbrev pub refetch_rule : Option Job → List (Message Update Beat Change) → Chat → Option ℕ → Bool
  refetch_rule none messages chat synced =
      messages_show_active_job messages || touched_since chat synced
  refetch_rule (some job) messages chat synced = lacks_message job messages

  -- Without a job of the chat, the messages are fetched again when they show a job, or when the chat
  -- was touched since they were synced or, if they never were, has queued jobs; with one, just when its message is missing.
  pub messages_need_refetch_lem :
      (messages : List (Message Update Beat Change)) (chat : Chat) (synced : Option ℕ)
      → messages_need_refetch messages chat synced
        ≡ refetch_rule chat.active_job messages chat synced
  unfolding messages_need_refetch
  messages_need_refetch_lem messages chat synced = ground arith
