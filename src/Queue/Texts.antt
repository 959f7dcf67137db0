-- ===== src/Queue/Texts.antt =====
-- What the end of a job leaves in a message: `fail_chat_message_generation` of crates/server/src/db.rs.
use Prim.Native.String
use dreamwell.Common.{
  ◌≡◌, refl, ap, ◌∙◌, inl, inr, true, false, Option, none, some, List, [], ◌∷◌, String,
  if◌then◌else◌, ◌==◌, arith, Bool-cases,
}
use dreamwell.Common.Int.{ℤ, int_eq}
use dreamwell.Queue.Tables.{
  Message, is_blank, get_message, update_messages, update_message_content, set_thought_in_progress,
  fail_chat_message_generation,
}

-- An update that keeps the key is seen by a look at the row.
get_message-update_messages :
    (id : ℤ) (change : Message → Message) (messages : List Message) (m : Message)
    → ((i : Message) → (change i).id ≡ i.id)
    → get_message id messages ≡ some m
    → get_message id (update_messages id change messages) ≡ some (change m)
get_message-update_messages id change [] m same h = absurd (ground arith)
get_message-update_messages id change (k ∷ messages) m same h = elim (Bool-cases (k.id == id)) [
  | inl hit ↦
      let key : ((change k).id == id) ≡ true = ap (λ t. t == id) (same k) ∙ hit in
      let found : some k ≡ some m = rw hit at h in rw (hit, key) (ap (opt change) found)
  | inr other ↦
      let later : get_message id messages ≡ some m = rw other at h in
      rw (other, other) (get_message-update_messages id change messages m same later)
]
  where
    opt : (Message → Message) → Option Message → Option Message
    opt f none = none
    opt f (some i) = some (f i)

-- What a message becomes when its generation fails: it keeps a text that is not blank, and gets the
-- error otherwise.
abbrev pub failed_message : String → Message → Message
failed_message error m = record m {
  content =
      if is_blank m.content
      then String.◌++◌ "[Generation failed: " (String.◌++◌ error "]")
      else m.content;
  thought_in_progress = false;
  generation_notice = "";
}

-- A failed generation that finds its message keeps a partial text, writes the error where there is
-- none, and clears the marks of the running generation.
pub get_message-fail :
    (id : ℤ) (error : String) (messages : List Message) (m : Message)
    → get_message id messages ≡ some m
    → get_message id (fail_chat_message_generation id error messages).0
      ≡ some (failed_message error m)
unfolding fail_chat_message_generation set_thought_in_progress update_message_content
get_message-fail id error messages m h =
    let text = String.◌++◌ "[Generation failed: " (String.◌++◌ error "]") in
    let calm : Message → Message = λ i. record i { thought_in_progress = false } in
    let quiet : Message → Message = λ i. record i { generation_notice = "" } in
    let write : Message → Message = λ i. record i { content = text } in
    elim (Bool-cases (is_blank m.content)) [
      | inl blank ↦
          let first = get_message-update_messages id write messages m (λ i. refl) h in
          let second =
            get_message-update_messages id calm (update_messages id write messages) (write m)
              (λ i. refl) first in
          let third =
            get_message-update_messages id quiet
              (update_messages id calm (update_messages id write messages)) (calm (write m))
              (λ i. refl) second in
          ground arith
      | inr partial ↦
          let second = get_message-update_messages id calm messages m (λ i. refl) h in
          let third =
            get_message-update_messages id quiet (update_messages id calm messages) (calm m)
              (λ i. refl) second in
          ground arith
    ]
