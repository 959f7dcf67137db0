-- ===== src/Client/Display.antt =====
-- When two message lists look the same: crates/frontend/src/chat_sync.rs.
use dreamwell.Common.{
  ℕ, suc, ◌≡◌, ◌↔◌, refl, ap, Bool, true, false, ◌&&◌, not, Option, List, [], ◌∷◌, String, map,
  length, if◌then◌else◌, arith, Eq, ◌==◌, ==_iff, string_eq, option_eq, list_eq, nat_beq,
  nat_beq_iff, Bool-cases, inl, inr,
}
use dreamwell.Common.Int.{ℤ, int_eq}
use dreamwell.Queue.Job.{JobStatus, status_eq}
use dreamwell.Client.Chat.{Message, MessageRole, user, assistant, system}

abbrev pub role_code : MessageRole → ℕ
role_code user = 0
role_code assistant = 1
role_code system = 2

pub role_code_iff : (a b : MessageRole) → (nat_beq (role_code a) (role_code b) ≡ true) ↔ (a ≡ b)
role_code_iff a b = ground arith

instance abbrev pub role_eq : Eq MessageRole
role_eq = record { eqb = λ a b. nat_beq (role_code a) (role_code b); eqb_iff = role_code_iff }

abbrev pub bool_beq : Bool → Bool → Bool
bool_beq true b = b
bool_beq false b = not b

pub bool_beq_iff : (a b : Bool) → (bool_beq a b ≡ true) ↔ (a ≡ b)
bool_beq_iff a b = ground arith

instance abbrev pub bool_eq : Eq Bool
bool_eq = record { eqb = bool_beq; eqb_iff = bool_beq_iff }

-- What the timeline shows of a message: all but the chat, the summary mark and the time.
abbrev pub Shown {ℓ} : Type ℓ → Type ℓ → Type ℓ → Type ℓ
Shown Update Beat Change =
    ℤ
    × (MessageRole
        × (String
            × (String
                × (Option ℤ
                    × (Bool
                        × (List Update
                            × (List Beat
                                × (List Change
                                    × (String
                                        × (Bool
                                            × (Option JobStatus
                                                × (Option String × String))))))))))))

-- A conjunction of tests compares pairs.
both_iff {ℓ κ} :
    {A : Type ℓ} {B : Type κ} (a b : Bool) (x y : A) (p q : B)
    → (a ≡ true) ↔ (x ≡ y)
    → (b ≡ true) ↔ (p ≡ q)
    → ((a && b) ≡ true) ↔ (◌≡◌ {A = A × B} (x, p) (y, q))
both_iff a b x y p q (f, g) (h, k) = (
  λ t. cc (f (ground arith), h (ground arith)),
  λ t. ground (arith, g (ap (λ z. z.0) t), k (ap (λ z. z.1) t)),
)

both_list {ℓ} :
    {A : Type ℓ} (a b : Bool) (x y : A) (xs ys : List A)
    → (a ≡ true) ↔ (x ≡ y)
    → (b ≡ true) ↔ (xs ≡ ys)
    → ((a && b) ≡ true) ↔ (x ∷ xs ≡ y ∷ ys)
both_list a b x y xs ys (f, g) (h, k) =
    (λ t. cc (f (ground arith), h (ground arith)), λ t. ground arith)

length-map_shown {ℓ κ} :
    {A : Type ℓ} {B : Type κ} (f : A → B) (xs : List A) → length (map f xs) ≡ length xs
length-map_shown f [] = refl
length-map_shown f (x ∷ xs) = ap suc (length-map_shown f xs)

eq_and_iff {ℓ κ} :
    {A : Type ℓ} {B : Type κ} ⦃e : Eq A⦄ (b : Bool) (x y : A) (p q : B)
    → (b ≡ true) ↔ (p ≡ q)
    → (((x == y) && b) ≡ true) ↔ (◌≡◌ {A = A × B} (x, p) (y, q))
eq_and_iff b x y p q h = both_iff (x == y) b x y p q (==_iff x y) h

module _ {ℓ} {Update Beat Change : Type ℓ} ⦃updates : Eq Update⦄ ⦃beats : Eq Beat⦄
    ⦃changes : Eq Change⦄ where
  unfoldable pub message_display_equivalent :
      Message Update Beat Change → Message Update Beat Change → Bool
  message_display_equivalent left right =
      (left.id == right.id)
      && ((left.role == right.role)
          && ((left.content == right.content)
              && ((left.thought_content == right.thought_content)
                  && ((left.thought_duration_ms == right.thought_duration_ms)
                      && ((left.thought_in_progress == right.thought_in_progress)
                          && ((left.variable_updates == right.variable_updates)
                              && ((left.reply_beats == right.reply_beats)
                                  && ((left.state_changes == right.state_changes)
                                      && ((left.generation_phase == right.generation_phase)
                                          && ((left.is_summary == right.is_summary)
                                              && ((left.job_status == right.job_status)
                                                  && ((left.generation_error
                                                        == right.generation_error)
                                                      && (left.generation_notice
                                                          == right.generation_notice)))))))))))))

  -- `iter().zip().all()`: the zip stops at the end of the shorter list.
  unfoldable pub all_pairs :
      List (Message Update Beat Change) → List (Message Update Beat Change) → Bool
  unfolding message_display_equivalent
  all_pairs [] right = true
  all_pairs (l ∷ left) [] = true
  all_pairs (l ∷ left) (r ∷ right) = message_display_equivalent l r && all_pairs left right

  unfoldable pub messages_display_equivalent :
      List (Message Update Beat Change) → List (Message Update Beat Change) → Bool
  unfolding all_pairs
  messages_display_equivalent current incoming =
      if not (nat_beq (length current) (length incoming)) then false else all_pairs current incoming

  abbrev pub shown : Message Update Beat Change → Shown Update Beat Change
  shown m = (
    m.id,
    (
      m.role,
      (
        m.content,
        (
          m.thought_content,
          (
            m.thought_duration_ms,
            (
              m.thought_in_progress,
              (
                m.variable_updates,
                (
                  m.reply_beats,
                  (
                    m.state_changes,
                    (
                      m.generation_phase,
                      (m.is_summary, (m.job_status, (m.generation_error, m.generation_notice))),
                    ),
                  ),
                ),
              ),
            ),
          ),
        ),
      ),
    ),
  )

  message_display_equivalent_iff :
      (l r : Message Update Beat Change)
      → (message_display_equivalent l r ≡ true) ↔ (shown l ≡ shown r)
  unfolding message_display_equivalent
  message_display_equivalent_iff l r = eq_and_iff _ l.id r.id _ _ (
      eq_and_iff _ l.role r.role _ _ (
        eq_and_iff _ l.content r.content _ _ (
          eq_and_iff _ l.thought_content r.thought_content _ _ (
            eq_and_iff _ l.thought_duration_ms r.thought_duration_ms _ _ (
              eq_and_iff _ l.thought_in_progress r.thought_in_progress _ _ (
                eq_and_iff _ l.variable_updates r.variable_updates _ _ (
                  eq_and_iff _ l.reply_beats r.reply_beats _ _ (
                    eq_and_iff _ l.state_changes r.state_changes _ _ (
                      eq_and_iff _ l.generation_phase r.generation_phase _ _ (
                        eq_and_iff _ l.is_summary r.is_summary _ _ (
                          eq_and_iff _ l.job_status r.job_status _ _ (
                            eq_and_iff _ l.generation_error r.generation_error _ _
                              (==_iff l.generation_notice r.generation_notice)))))))))))))

  all_pairs_iff :
      (left right : List (Message Update Beat Change))
      → length left ≡ length right
      → (all_pairs left right ≡ true) ↔ (map shown left ≡ map shown right)
  unfolding all_pairs
  all_pairs_iff [] [] h = (λ _. refl, λ _. refl)
  all_pairs_iff [] (r ∷ right) h = absurd (omega arith)
  all_pairs_iff (l ∷ left) [] h = absurd (omega arith)
  all_pairs_iff (l ∷ left) (r ∷ right) h =
      both_list (message_display_equivalent l r) (all_pairs left right) (shown l) (shown r)
        (map shown left) (map shown right) (message_display_equivalent_iff l r)
        (all_pairs_iff left right (omega arith))

  -- Two message lists are display equivalent just when the timeline shows the same of each.
  pub messages_display_equivalent_iff :
      (current incoming : List (Message Update Beat Change))
      → (messages_display_equivalent current incoming ≡ true)
        ↔ (map shown current ≡ map shown incoming)
  unfolding messages_display_equivalent
  messages_display_equivalent_iff current incoming =
      elim (Bool-cases (nat_beq (length current) (length incoming))) [
        | inl same ↦ rw same (
            all_pairs_iff current incoming
              ((nat_beq_iff (length current) (length incoming)).0 same))
        | inr other ↦
            let unequal : map shown current ≡ map shown incoming → false ≡ true = λ h. absurd (
              let e = ap length h in
              let lc = length-map_shown shown current in
              let li = length-map_shown shown incoming in ground arith) in
            rw other (λ h. absurd (let e : false ≡ true = h in cc), unequal)
      ]
