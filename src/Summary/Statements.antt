-- ===== src/Summary/Statements.antt =====
-- What is written to the messages of a chat with its summary: the functions over the markers in
-- crates/server/src/summarize.rs and the statements of crates/server/src/db.rs.
use mathlib.Core.Path.{subst}
use dreamwell.Common.{
  ℕ, ◌-◌, ◌≡◌, refl, sym, Bool, true, false, ◌&&◌, ◌||◌, not, Option, none, some, List, [], ◌∷◌,
  map, String, if◌then◌else◌, arith, keep, any, ◌==◌, ==_iff, string_eq, Bool-cases, inl, inr, all,
  all_mono,
}
use dreamwell.Common.Int.{ℤ, int_eq}
use dreamwell.Queue.Job.{status_eq}
use dreamwell.Summary.Batch.{Message}
use dreamwell.Summary.Loop.{ChatState, contains}
use dreamwell.Summary.Marker.{starts_with}

-- The statements on the messages.
abbrev pub delete_messages : List ℤ → List Message → List Message
delete_messages ids messages = keep (λ (m : Message). not (contains m.id ids)) messages

abbrev pub update_message : ℤ → (Message → Message) → List Message → List Message
update_message id change [] = []
update_message id change (m ∷ messages) =
    (if m.id == id then change m else m) ∷ update_message id change messages

abbrev pub set_content : ℤ → String → ChatState → ChatState
set_content id content c = record c {
  messages = update_message id (λ m. record m { content = content }) c.messages;
}

-- The time of an anchor is one millisecond earlier; `created_at` counts milliseconds.
abbrev pub set_anchor : ℤ → Option ℕ → ChatState → ChatState
set_anchor id none c = c
set_anchor id (some anchor) c = record c {
  messages = update_message id (λ m. record m { created_at = anchor - 1 }) c.messages;
}

abbrev pub is_stale_summary_marker : Message → Bool
is_stale_summary_marker m =
    m.is_summary
    && (starts_with m.content "[Summarization failed:"
        || starts_with m.content "[Summarization cancelled]")

pub cleanup_stale_summary_markers : ChatState → ChatState
cleanup_stale_summary_markers c = record c {
  messages =
      delete_messages (map (λ (m : Message). m.id) (keep is_stale_summary_marker c.messages))
        c.messages;
}

pub delete_chat_summary : ℕ → ChatState → ChatState
delete_chat_summary now c =
    let cleared = map (λ (m : Message). record m { in_summary = false }) c.messages in
    record {
      summary = "";
      updated_at = now;
      messages =
          delete_messages
            (map (λ (m : Message). m.id) (keep (λ (m : Message). m.is_summary) cleared)) cleared;
    }

abbrev ids_of : List Message → List ℤ
ids_of = map (λ (m : Message). m.id)

abbrev unsummarized : Message → Message
unsummarized m = record m { in_summary = false }

-- Every marker of a list has one of the ids.
abbrev named_by : List ℤ → List Message → Bool
named_by ids = all (λ (m : Message). not m.is_summary || contains m.id ids)

abbrev marker_ids : List Message → List ℤ
marker_ids l = ids_of (keep (λ (m : Message). m.is_summary) l)

named_by_more :
    (id : ℤ) (ids : List ℤ) (l : List Message)
    → named_by ids l ≡ true
    → named_by (id ∷ ids) l ≡ true
named_by_more id ids l h =
    all_mono (λ (m : Message). not m.is_summary || contains m.id ids)
      (λ (m : Message). not m.is_summary || contains m.id (id ∷ ids)) l (λ m k. ground arith) h

markers_named : (l : List Message) → named_by (marker_ids l) l ≡ true
markers_named [] = refl
markers_named (m ∷ l) = elim (Bool-cases m.is_summary) [
  | inl marker ↦
      let e : marker_ids (m ∷ l) ≡ m.id ∷ marker_ids l = ground arith in
      subst (λ ids. named_by ids (m ∷ l) ≡ true) (sym e)
        (ground (arith, ==_iff m.id m.id, named_by_more m.id (marker_ids l) l (markers_named l)))
  | inr plain ↦
      let e : marker_ids (m ∷ l) ≡ marker_ids l = ground arith in
      subst (λ ids. named_by ids (m ∷ l) ≡ true) (sym e) (ground (arith, markers_named l))
]

none_left :
    (ids : List ℤ) (l : List Message)
    → named_by ids (map unsummarized l) ≡ true
    → any (λ (m : Message). m.is_summary || m.in_summary) (delete_messages ids (map unsummarized l))
      ≡ false
none_left ids [] h = refl
none_left ids (m ∷ l) h = ground (arith, none_left ids l)

-- After the deletion every message that is left is no marker and in no summary.
pub delete_chat_summary_lem :
    (now : ℕ) (c : ChatState)
    → any (λ (m : Message). m.is_summary || m.in_summary) (delete_chat_summary now c).messages
      ≡ false
unfolding delete_chat_summary
delete_chat_summary_lem now c =
    none_left (ids_of (keep (λ (m : Message). m.is_summary) (map unsummarized c.messages)))
      c.messages (markers_named (map unsummarized c.messages))
