-- ===== src/Client/Resume.antt =====
-- What the client does when its tab comes back: crates/frontend/src/resume_policy.rs, with the context
-- of app_sync.rs.
use dreamwell.Common.{
  ℕ, ◌+◌, ◌≡◌, Bool, true, ◌&&◌, not, Option, List, [], ◌∷◌, ◌++◌, count, is_some, if◌then◌else◌,
  arith, Eq, ◌==◌, ◌↔◌, nat_beq,
}
use dreamwell.Common.Int.{ℤ}

pub data ResumeAction : Type 0 where
  resume_sse reconnect_sse fetch_messages fetch_story poll_tick : ResumeAction

abbrev pub action_code : ResumeAction → ℕ
action_code resume_sse = 0
action_code reconnect_sse = 1
action_code fetch_messages = 2
action_code fetch_story = 3
action_code poll_tick = 4

pub action_code_iff :
    (a b : ResumeAction) → (nat_beq (action_code a) (action_code b) ≡ true) ↔ (a ≡ b)
action_code_iff a b = ground arith

instance abbrev pub action_eq : Eq ResumeAction
action_eq = record {
  eqb = λ a b. nat_beq (action_code a) (action_code b);
  eqb_iff = action_code_iff;
}

pub data ResumeReason : Type 0 where
  visibility online page_show : ResumeReason

pub record ResumeContext : Type 0 where
  pub reason : ResumeReason
  pub force : Bool

pub record ResumePlanInput : Type 0 where
  pub ctx : ResumeContext
  pub open_chat_id : Option ℤ
  pub open_story_id : Option ℤ
  pub messages_stale : Bool
  pub detail_stale : Bool
  pub local_generation_active : Bool

-- `push` where a test holds.
abbrev pub push_if : Bool → ResumeAction → List ResumeAction → List ResumeAction
push_if test action actions = if test then actions ++ action ∷ [] else actions

unfoldable pub plan_resume : ResumePlanInput → List ResumeAction
plan_resume input =
    let chat = is_some input.open_chat_id in
    let opened =
      push_if (is_some input.open_story_id) fetch_story (push_if chat fetch_messages []) in
    let streamed = opened ++ (if input.ctx.force then reconnect_sse else resume_sse) ∷ [] in
    let polled = streamed ++ poll_tick ∷ [] in
    let actions =
      push_if input.detail_stale fetch_story (push_if input.messages_stale fetch_messages polled) in
    if input.local_generation_active && not input.ctx.force
    then (if chat then fetch_messages ∷ actions else actions)
    else actions

abbrev pub times : ResumeAction → List ResumeAction → ℕ
times action actions = count (λ a. a == action) actions

abbrev pub one_if : Bool → ℕ
one_if b = if b then 1 else 0

-- A plan reconnects the stream once, by force or not as it is told, and polls once; the messages are
-- fetched once for each of: an open chat, stale messages, and an open chat with a generation that was
-- live while the reconnect is not forced. The story is fetched for an open story and a stale detail.
pub times-plan_resume :
    (input : ResumePlanInput)
    → let plan = plan_resume input in
      let force = input.ctx.force in
      let chat = is_some input.open_chat_id in
      (times reconnect_sse plan ≡ one_if force)
      × (times resume_sse plan ≡ one_if (not force))
      × (times poll_tick plan ≡ 1)
      × (times fetch_messages plan
          ≡ one_if chat
            + one_if input.messages_stale
            + one_if (input.local_generation_active && (not force && chat)))
      × (times fetch_story plan ≡ one_if (is_some input.open_story_id) + one_if input.detail_stale)
unfolding plan_resume
times-plan_resume input = (ground arith, ground arith, ground arith, ground arith, ground arith)
