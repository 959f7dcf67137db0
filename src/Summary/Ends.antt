-- ===== src/Summary/Ends.antt =====
-- The loop of crates/server/src/summarize.rs ends: each pass marks an active message.
use mathlib.Core.Path.{subst}
use dreamwell.Common.{
  ℕ, zero, suc, ◌≤◌, ◌<◌, ◌≡◌, refl, sym, ap, ◌∙◌, inl, inr, Bool, true, ◌&&◌, ◌||◌, Option, none,
  some, List, [], ◌∷◌, map, String, length, keep, any, any-of_keep, any-of_take, any_mono, count,
  take, ◌==◌, ==_iff, arith, Bool-cases,
}
use dreamwell.Common.Int.{ℤ, int_eq}
use dreamwell.Inference.Notice.{AppError}
use dreamwell.Inference.Fallback.{AppResult, ok, err}
use dreamwell.Summary.Tokens.{Settings}
use dreamwell.Summary.Batch.{
  Message, select_oldest_batch_for_budget, select_oldest_batch_for_budget-first,
}
use dreamwell.Summary.Plan.{Character, SummarizePlan, plan_summarization, is_active_for_context}
use dreamwell.Summary.Keep.{IsPlan, min_keep_floor, plan_summarization-IsPlan}
use dreamwell.Summary.Loop.{
  ChatState, contains, mark_message, mark_messages_in_summary, Prompt, SummarizeLoopProgress,
  LoopEnd, finished, failed, panicked, out_of_fuel, batch_ids_of, prompt_of, after_pass,
  progress_after, touch_chat, answered, pass, loop_from, execute_summarize_loop,
}

abbrev pub active_count : List Message → ℕ
active_count = count is_active_for_context

-- An active message with one of the ids.
abbrev has_active : List ℤ → List Message → Bool
has_active ids = any (λ (m : Message). is_active_for_context m && contains m.id ids)

mark_message-le : (id : ℤ) (l : List Message) → active_count (mark_message id l) ≤ active_count l
mark_message-le id [] = omega arith
mark_message-le id (m ∷ l) = ground (arith, mark_message-le id l)

mark_messages-le :
    (ids : List ℤ) (l : List Message)
    → active_count (mark_messages_in_summary ids l) ≤ active_count l
unfolding mark_messages_in_summary
mark_messages-le [] l = omega arith
mark_messages-le (id ∷ ids) l =
    omega (arith, mark_messages-le ids (mark_message id l), mark_message-le id l)

-- Marking the id of an active message leaves fewer active ones.
mark_message-lt :
    (id : ℤ) (l : List Message)
    → any (λ (m : Message). is_active_for_context m && (m.id == id)) l ≡ true
    → active_count (mark_message id l) < active_count l
mark_message-lt id [] h = absurd (cc)
mark_message-lt id (m ∷ l) h = ground (arith, mark_message-le id l, mark_message-lt id l)

contains-ids :
    (id : ℤ) (l : List Message)
    → contains id (map (λ (c : Message). c.id) l) ≡ any (λ (m : Message). m.id == id) l
contains-ids id [] = refl
contains-ids id (m ∷ l) = ap (λ t. (m.id == id) || t) (contains-ids id l)

-- A member of the active messages, found by its id.
active_twin :
    (id : ℤ) (n : ℕ) (l : List Message)
    → contains id (map (λ (c : Message). c.id) (take n (keep is_active_for_context l))) ≡ true
    → any (λ (m : Message). is_active_for_context m && (m.id == id)) l ≡ true
active_twin id n l h =
    sym (any-of_keep (λ (m : Message). m.id == id) is_active_for_context l)
    ∙ any-of_take (λ (m : Message). m.id == id) n (keep is_active_for_context l)
        (sym (contains-ids id (take n (keep is_active_for_context l))) ∙ h)

kept_first :
    (ids : List ℤ) (l : List Message)
    → any (λ (m : Message). contains m.id ids) l ≡ true
    → (m : Message) × (rest : List Message) × (keep (λ (c : Message). contains c.id ids) l
        ≡ m ∷ rest)
      × (contains m.id ids ≡ true)
kept_first ids [] h = absurd (cc)
kept_first ids (m ∷ l) h = elim (Bool-cases (contains m.id ids)) [
  | inl yes_kept ↦ (m, keep (λ (c : Message). contains c.id ids) l, rw yes_kept refl, yes_kept)
  | inr dropped ↦ rw dropped (kept_first ids l (rw dropped at h))
]

-- The ids of a plan name a message.
plan_names :
    (ids : List ℤ) (n : ℕ) (l : List Message)
    → 0 < n
    → n < length l
    → ids ≡ map (λ (c : Message). c.id) (take n l)
    → any (λ (m : Message). contains m.id ids) l ≡ true
plan_names ids zero l h k e = absurd (omega arith)
plan_names ids (suc n) [] h k e = absurd (omega arith)
plan_names ids (suc n) (m ∷ l) h k e =
    let named : contains m.id ids ≡ true =
      ap (contains m.id) e ∙ rw ((==_iff m.id m.id).1 refl) refl in
    rw named refl

any_of_active :
    (ids : List ℤ) (l : List Message)
    → any (λ (m : Message). contains m.id ids) (keep is_active_for_context l) ≡ true
    → any (λ (m : Message). contains m.id ids) l ≡ true
any_of_active ids l h =
    any_mono (λ (m : Message). is_active_for_context m && contains m.id ids)
      (λ (m : Message). contains m.id ids) l (λ m k. ground arith)
      (sym (any-of_keep (λ (m : Message). contains m.id ids) is_active_for_context l) ∙ h)

mark_first-lt :
    (id : ℤ) (ids : List ℤ) (l : List Message)
    → any (λ (m : Message). is_active_for_context m && (m.id == id)) l ≡ true
    → active_count (mark_messages_in_summary (id ∷ ids) l) < active_count l
unfolding mark_messages_in_summary
mark_first-lt id ids l h =
    omega (arith, mark_message-lt id l h, mark_messages-le ids (mark_message id l))

-- A pass of a plan leaves fewer active messages.
after_pass-lt :
    (settings : Settings) (p : SummarizePlan) (previous summary : String) (c : ChatState)
    → IsPlan settings (keep is_active_for_context c.messages) (some p)
    → active_count (after_pass settings p previous summary c).messages < active_count c.messages
unfolding after_pass
after_pass-lt settings p previous summary c (some_taken, kept, ids, anchor) =
    let l = c.messages in
    let n = p.summarized_count in
    let named =
      plan_names p.to_summarize_ids n (keep is_active_for_context l) some_taken
        (omega (arith, kept, min_keep_floor settings.summarize_keep_recent)) ids in
    let in_table : any (λ (m : Message). contains m.id p.to_summarize_ids) l ≡ true =
      any_of_active p.to_summarize_ids l named in
    let (first, rest, e, member) = kept_first p.to_summarize_ids l in_table in
    let twin = active_twin first.id n l (sym (ap (contains first.id) ids) ∙ member) in
    let (more, batch) = select_oldest_batch_for_budget-first first rest previous settings in
    let ids_e : batch_ids_of settings previous p l ≡ first.id ∷ more =
      ap (λ k. select_oldest_batch_for_budget k previous settings) e ∙ batch in
    subst (λ k. active_count (mark_messages_in_summary k l) < active_count l) (sym ids_e)
      (mark_first-lt first.id more l twin)

module _ (settings : Settings) (character : Option Character) (force : Bool) (now : ℕ)
    (summarize : ℕ → Prompt → AppResult String) where
  -- A pass over a state in which there is something to summarize, to whose prompt the model answered
  -- with the error.
  abbrev pub IsFailure : AppError → ChatState → Type 0
  IsFailure e c =
      (p : SummarizeLoopProgress) × (plan : SummarizePlan) × (plan_summarization settings
          p.current_summary c.messages character force
        ≡ some (some plan))
      × (summarize p.passes_completed (prompt_of settings p.current_summary plan c.messages)
          ≡ err e)

  -- An end of the loop is an error of the model, or a state that has nothing more to summarize.
  abbrev pub IsEnd : LoopEnd → Type 0
  IsEnd (finished p c) =
      plan_summarization settings p.current_summary c.messages character force ≡ some none
  IsEnd (failed e c) = IsFailure e c
  IsEnd panicked = ⊥
  IsEnd out_of_fuel = ⊥

  touch_chat-messages :
      (p : SummarizeLoopProgress) (c : ChatState) → (touch_chat now p c).messages ≡ c.messages
  touch_chat-messages p c = ground arith

  answered-IsEnd :
      (next : SummarizeLoopProgress → ChatState → LoopEnd) (plan : SummarizePlan)
      (p : SummarizeLoopProgress) (c : ChatState) (a : AppResult String)
      → plan_summarization settings p.current_summary c.messages character force ≡ some (some plan)
      → summarize p.passes_completed (prompt_of settings p.current_summary plan c.messages) ≡ a
      → IsPlan settings (keep is_active_for_context c.messages) (some plan)
      → ((p' : SummarizeLoopProgress) (c' : ChatState)
          → active_count c'.messages < active_count c.messages
          → IsEnd (next p' c'))
      → IsEnd (answered settings character force now summarize next plan p c a)
  answered-IsEnd next plan p c (ok summary) planned gave h ends =
      ends (progress_after settings plan summary c p)
        (after_pass settings plan p.current_summary summary c)
        (after_pass-lt settings plan p.current_summary summary c h)
  answered-IsEnd next plan p c (err e) planned gave h ends = (p, plan, planned, gave)

  pass-IsEnd :
      (next : SummarizeLoopProgress → ChatState → LoopEnd) (r : Option SummarizePlan)
      (p : SummarizeLoopProgress) (c : ChatState)
      → plan_summarization settings p.current_summary c.messages character force ≡ some r
      → IsPlan settings (keep is_active_for_context c.messages) r
      → ((p' : SummarizeLoopProgress) (c' : ChatState)
          → active_count c'.messages < active_count c.messages
          → IsEnd (next p' c'))
      → IsEnd (pass settings character force now summarize next (some r) p c)
  pass-IsEnd next none p c planned h ends = rw (touch_chat-messages p c) planned
  pass-IsEnd next (some plan) p c planned h ends =
      answered-IsEnd next plan p c _ planned refl h ends

  loop_from-IsEnd :
      (fuel : ℕ) (p : SummarizeLoopProgress) (c : ChatState)
      → active_count c.messages < fuel
      → IsEnd (loop_from settings character force now summarize fuel p c)
  unfolding loop_from
  loop_from-IsEnd zero p c h = absurd (omega arith)
  loop_from-IsEnd (suc fuel) p c h =
      let (r, planned, shape) =
        plan_summarization-IsPlan settings p.current_summary c.messages character force in
      rw planned (
        pass-IsEnd (loop_from settings character force now summarize fuel) r p c planned shape
          (λ p' c' fewer. loop_from-IsEnd fuel p' c' (omega (arith, h, fewer))))

  -- With more fuel than there are active messages the job's loop ends: by an error with which
  -- the model answered the prompt of a pass, or in a state in which nothing more is to be
  -- summarized. It never panics.
  pub execute_summarize_loop-IsEnd :
      (fuel : ℕ) (c : ChatState)
      → active_count c.messages < fuel
      → IsEnd (execute_summarize_loop settings character force now summarize fuel c)
  unfolding execute_summarize_loop
  execute_summarize_loop-IsEnd fuel c h = loop_from-IsEnd fuel _ c h
