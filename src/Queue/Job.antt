-- ===== src/Queue/Job.antt =====
-- A job, and the names of its type and status in the table: crates/dreamwell-types/src/lib.rs and
-- crates/server/src/db.rs.
use dreamwell.Common.{
  ℕ, ◌≡◌, ◌↔◌, refl, true, Option, String, Eq, nat_beq, arith, if◌then◌else◌, ◌==◌, string_eq, ◌||◌,
}
use dreamwell.Common.Int.{ℤ}

pub data JobStatus : Type 0 where
  queued running completed failed cancelled : JobStatus

pub data JobType : Type 0 where
  chat_message chat_summarize chat_variable_recheck : JobType
  story_chapter_outline story_propose_chapters story_beat_outline story_propose_beats : JobType
  story_beat_prose story_beat_prose_continue story_beat_mechanical story_beat_prose_recheck :
      JobType
  story_chapter_summarize story_beat_variable_recheck : JobType
  game_scene_summarize game_prose_recheck game_state_recheck : JobType
  game_turn_structured_agent game_turn_prose_regenerate : JobType

abbrev pub status_code : JobStatus → ℕ
status_code queued = 0
status_code running = 1
status_code completed = 2
status_code failed = 3
status_code cancelled = 4

pub status_code_iff : (a b : JobStatus) → (nat_beq (status_code a) (status_code b) ≡ true) ↔ (a ≡ b)
status_code_iff a b = ground arith

instance abbrev pub status_eq : Eq JobStatus
status_eq = record {
  eqb = λ a b. nat_beq (status_code a) (status_code b);
  eqb_iff = status_code_iff;
}

-- Times are seconds; the table keeps them as RFC 3339 text, whose order is theirs.
pub record Job : Type 0 where
  pub id : ℤ
  pub job_type : JobType
  pub chat_id : Option ℤ
  pub message_id : Option ℤ
  pub story_id : Option ℤ
  pub chapter_id : Option ℤ
  pub beat_id : Option ℤ
  pub game_id : Option ℤ
  pub turn_id : Option ℤ
  pub guidance_notes : String
  pub status : JobStatus
  pub error : Option String
  pub position : ℤ
  pub created_at : ℕ
  pub started_at : Option ℕ
  pub completed_at : Option ℕ
  pub generation_provider : String
  pub generation_model : String
  pub generation_notice : String

unfoldable pub parse_job_status : String → JobStatus
parse_job_status s =
    if s == "running"
    then running
    else if s == "completed"
    then completed
    else if s == "failed"
    then failed
    else if s == "cancelled"
    then cancelled
    else queued

unfoldable pub job_status_str : JobStatus → String
job_status_str queued = "queued"
job_status_str running = "running"
job_status_str completed = "completed"
job_status_str failed = "failed"
job_status_str cancelled = "cancelled"

unfoldable pub parse_job_type : String → JobType
parse_job_type s =
    if s == "story_chapter_outline"
    then story_chapter_outline
    else if (s == "story_full_outline") || (s == "story_propose_chapters")
    then story_propose_chapters
    else if s == "story_beat_outline"
    then story_beat_outline
    else if s == "story_propose_beats"
    then story_propose_beats
    else if s == "story_beat_prose"
    then story_beat_prose
    else if s == "story_beat_prose_continue"
    then story_beat_prose_continue
    else if s == "story_beat_mechanical"
    then story_beat_mechanical
    else if s == "story_beat_prose_recheck"
    then story_beat_prose_recheck
    else if s == "story_chapter_summarize"
    then story_chapter_summarize
    else if s == "story_beat_variable_recheck"
    then story_beat_variable_recheck
    else if s == "chat_summarize"
    then chat_summarize
    else if s == "chat_variable_recheck"
    then chat_variable_recheck
    else if s == "game_turn_structured_agent"
    then game_turn_structured_agent
    else if s == "game_scene_summarize"
    then game_scene_summarize
    else if s == "game_prose_recheck"
    then game_prose_recheck
    else if s == "game_state_recheck"
    then game_state_recheck
    else if s == "game_turn_prose_regenerate"
    then game_turn_prose_regenerate
    else chat_message

unfoldable pub job_type_str : JobType → String
job_type_str chat_message = "chat_message"
job_type_str chat_summarize = "chat_summarize"
job_type_str chat_variable_recheck = "chat_variable_recheck"
job_type_str story_chapter_outline = "story_chapter_outline"
job_type_str story_propose_chapters = "story_propose_chapters"
job_type_str story_beat_outline = "story_beat_outline"
job_type_str story_propose_beats = "story_propose_beats"
job_type_str story_beat_prose = "story_beat_prose"
job_type_str story_beat_prose_continue = "story_beat_prose_continue"
job_type_str story_beat_mechanical = "story_beat_mechanical"
job_type_str story_beat_prose_recheck = "story_beat_prose_recheck"
job_type_str story_chapter_summarize = "story_chapter_summarize"
job_type_str story_beat_variable_recheck = "story_beat_variable_recheck"
job_type_str game_turn_structured_agent = "game_turn_structured_agent"
job_type_str game_scene_summarize = "game_scene_summarize"
job_type_str game_prose_recheck = "game_prose_recheck"
job_type_str game_state_recheck = "game_state_recheck"
job_type_str game_turn_prose_regenerate = "game_turn_prose_regenerate"

-- The name of each job type and of each status is read back as it was written.
pub parse-job_type_str :
    (t : JobType) (s : JobStatus)
    → (parse_job_type (job_type_str t) ≡ t) × (parse_job_status (job_status_str s) ≡ s)
unfolding parse_job_type job_type_str parse_job_status job_status_str
parse-job_type_str t s = (types t, statuses s)
  where
    types : (t : JobType) → parse_job_type (job_type_str t) ≡ t
    types chat_message = refl
    types _ = refl

    statuses : (s : JobStatus) → parse_job_status (job_status_str s) ≡ s
    statuses queued = refl
    statuses _ = refl
