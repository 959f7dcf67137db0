-- ===== src/Queue/Tables.antt =====
-- The tables that the end of a job writes, and their statements: `update_message_content`, `set_thought_in_progress`,
-- `fail_chat_message_generation` and `delete_messages` of crates/server/src/db.rs, `update_beat_content` of stories_db.rs
-- and `update_turn_phase` of game_db.rs. Update times are not kept.
use Prim.Native.String
use Prim.Native.Char.{code}
use dreamwell.Common.{
  ℕ, Bool, true, false, ◌&&◌, ◌||◌, not, Option, none, some, List, [], ◌∷◌, String, find, keep,
  if◌then◌else◌, ◌==◌, string_eq, option_eq, nat_eq, leb,
}
use dreamwell.Common.Int.{ℤ, int_eq}
use dreamwell.Queue.Job.{Job, status_eq}

-- The records hold the columns that these statements read or write.
pub record Message : Type 0 where
  pub id : ℤ
  pub chat_id : ℤ
  pub content : String
  pub thought_in_progress : Bool
  pub generation_notice : String

-- A beat with the story of its chapter.
pub record Beat : Type 0 where
  pub id : ℤ
  pub story_id : ℤ
  pub content : String

pub record Turn : Type 0 where
  pub id : ℤ
  pub phase : String

-- The tables that the end of a job writes.
pub record Tables : Type 0 where
  pub jobs : List Job
  pub messages : List Message
  pub beats : List Beat
  pub turns : List Turn

-- `char::is_whitespace`, and `trim().is_empty()`.
abbrev pub is_whitespace : ℕ → Bool
is_whitespace c =
    (leb 9 c && leb c 13)
    || (c == 32)
    || (c == 133)
    || (c == 160)
    || (c == 5760)
    || (leb 8192 c && leb c 8202)
    || (c == 8232)
    || (c == 8233)
    || (c == 8239)
    || (c == 8287)
    || (c == 12288)

-- `UPDATE messages SET … WHERE id`
abbrev pub update_messages : ℤ → (Message → Message) → List Message → List Message
update_messages id change [] = []
update_messages id change (m ∷ rest) =
    (if m.id == id then change m else m) ∷ update_messages id change rest

abbrev pub is_blank : String → Bool
is_blank String.[] = true
is_blank (String.◌∷◌ c s) = is_whitespace (code c) && is_blank s

-- `is_empty`
abbrev pub is_empty_text : String → Bool
is_empty_text String.[] = true
is_empty_text (String.◌∷◌ c s) = false

abbrev pub set_content : String → Message → Message
set_content content m = record m { content = content }

unfoldable pub update_message_content : ℤ → String → List Message → List Message
update_message_content id content = update_messages id (set_content content)

unfoldable pub set_thought_in_progress : ℤ → Bool → List Message → List Message
set_thought_in_progress id in_progress =
    update_messages id (λ m. record m { thought_in_progress = in_progress })

abbrev pub get_message : ℤ → List Message → Option Message
get_message id = find (λ (m : Message). m.id == id)

-- The Boolean is false where the function returns an error: the message is not there.
unfoldable pub fail_chat_message_generation : ℤ → String → List Message → List Message × Bool
unfolding update_message_content set_thought_in_progress
fail_chat_message_generation id error messages = elim (get_message id messages) [
  | none ↦ (messages, false)
  | some current ↦
      let first =
        if is_blank current.content
        then update_message_content id (String.◌++◌ "[Generation failed: " (String.◌++◌ error "]"))
            messages
        else messages in
      (
        update_messages id (λ m. record m { generation_notice = "" })
            (set_thought_in_progress id false first),
        true,
      )
]

unfoldable pub delete_messages : List ℤ → List Message → List Message
delete_messages [] messages = messages
delete_messages (id ∷ ids) messages =
    delete_messages ids (keep (λ (m : Message). not (m.id == id)) messages)

unfoldable pub update_beat_content : ℤ → String → List Beat → List Beat
update_beat_content id content [] = []
update_beat_content id content (b ∷ beats) =
    (if b.id == id then record b { content = content } else b)
    ∷ update_beat_content id content beats

unfoldable pub update_turn_phase : ℤ → String → List Turn → List Turn
update_turn_phase id phase [] = []
update_turn_phase id phase (t ∷ turns) =
    (if t.id == id then record t { phase = phase } else t) ∷ update_turn_phase id phase turns
