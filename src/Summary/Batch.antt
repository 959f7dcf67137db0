-- ===== src/Summary/Batch.antt =====
-- The batches of messages that fit the input of one summary: `select_oldest_batch_for_budget` and
-- `select_newest_batch_for_budget` of crates/server/src/summarize.rs.
use dreamwell.Common.{
  ℕ, suc, ◌+◌, ◌≤◌, ◌<◌, ◌≡◌, refl, ap, ◌∙◌, inl, inr, ◌⊎◌, Bool, true, false, ◌&&◌, not, ltb, List,
  [], ◌∷◌, map, reverse, String, arith, if◌then◌else◌, take, length, is_empty, Bool-cases,
}
use dreamwell.Common.Int.{ℤ, pos, negsuc, ◌+ℤ◌, ltb_ℤ, wrap64, wrap64_of_IsI64, i64_half, pos_part}
use dreamwell.Common.Text.Utf8.{byte_len}
use dreamwell.Client.Chat.{MessageRole}
use dreamwell.Summary.Tokens.{
  Settings, estimate_token_count, tokens_of_bytes, summarize_input_token_budget, summarize_budgets,
}

-- The fields of a message that the summaries read or write.
pub record Message : Type 0 where
  pub id : ℤ
  pub role : MessageRole
  pub content : String
  pub thought_content : String
  pub is_summary : Bool
  pub in_summary : Bool
  pub created_at : ℕ

abbrev pub message_token_count : Message → ℤ
message_token_count message =
    wrap64 (estimate_token_count message.content +ℤ estimate_token_count message.thought_content)

-- The loop over the candidates: it stops before a message that does not fit, but never before the first.
unfoldable pub batch_from : ℤ → Bool → ℤ → List Message → List Message
batch_from budget first used [] = []
batch_from budget first used (m ∷ candidates) =
    let taken = wrap64 (used +ℤ message_token_count m) in
    let rest = batch_from budget false taken candidates in
    if not first && ltb_ℤ budget taken then [] else m ∷ rest

-- The first candidate where the loop took none.
abbrev pub or_first : List Message → List Message → List Message
or_first batch [] = batch
or_first batch (m ∷ candidates) = if is_empty batch then m ∷ [] else batch

unfoldable pub select_oldest_batch_for_budget : List Message → String → Settings → List ℤ
unfolding batch_from
select_oldest_batch_for_budget candidates previous_summary settings =
    map (λ (m : Message). m.id)
      (or_first
        (batch_from (summarize_input_token_budget settings previous_summary) true (pos 0)
          candidates)
        candidates)

unfoldable pub select_newest_batch_for_budget : List Message → String → Settings → List Message
unfolding batch_from
select_newest_batch_for_budget candidates previous_summary settings = reverse (
    or_first
      (batch_from (summarize_input_token_budget settings previous_summary) true (pos 0)
        (reverse candidates))
      (reverse candidates))

-- The tokens of messages, as a plain sum.
abbrev pub tokens_of : Message → ℕ
tokens_of m = tokens_of_bytes (byte_len m.content) + tokens_of_bytes (byte_len m.thought_content)

abbrev pub total_tokens : List Message → ℕ
total_tokens [] = 0
total_tokens (m ∷ messages) = tokens_of m + total_tokens messages

plain_sum : (a b : ℕ) → pos a +ℤ pos b ≡ pos (a + b)
unfolding ◌+ℤ◌
plain_sum a b = ground arith

wrap64_sum : (a b : ℕ) → a + b < i64_half → wrap64 (pos a +ℤ pos b) ≡ pos (a + b)
wrap64_sum a b h = ap wrap64 (plain_sum a b) ∙ wrap64_of_IsI64 (pos (a + b)) (h, omega arith)

message_token_count_lem :
    (m : Message) → tokens_of m < i64_half → message_token_count m ≡ pos (tokens_of m)
message_token_count_lem m h =
    wrap64_sum (tokens_of_bytes (byte_len m.content)) (tokens_of_bytes (byte_len m.thought_content))
      h

prefix_fits :
    (budget used : ℕ) (m : Message) (l : List Message) (n : ℕ)
    → used + tokens_of m ≤ budget
    → (n ≡ 0) ⊎ (used + tokens_of m + total_tokens (take n l) ≤ budget)
    → used + total_tokens (take (suc n) (m ∷ l)) ≤ budget
prefix_fits budget used m l n h (inl z) = rw z (omega arith)
prefix_fits budget used m l n h (inr w) = omega arith

next_over :
    (budget used : ℕ) (m : Message) (l : List Message) (n : ℕ)
    → (n ≡ length l) ⊎ (budget < used + tokens_of m + total_tokens (take (suc n) l))
    → (suc n ≡ length (m ∷ l)) ⊎ (budget < used + total_tokens (take (suc (suc n)) (m ∷ l)))
next_over budget used m l n (inl e) = inl (ap suc e)
next_over budget used m l n (inr w) = inr (omega arith)

-- How many messages the loop takes once it has one, over plain sums: the longest prefix within the budget.
batch_from-take :
    (budget used : ℕ) (l : List Message)
    → used + total_tokens l < i64_half
    → (n : ℕ) × (batch_from (pos budget) false (pos used) l ≡ take n l)
      × (n ≤ length l)
      × ((n ≡ 0) ⊎ (used + total_tokens (take n l) ≤ budget))
      × ((n ≡ length l) ⊎ (budget < used + total_tokens (take (suc n) l)))
unfolding batch_from
batch_from-take budget used [] h = (0, refl, omega arith, inl refl, inl refl)
batch_from-take budget used (m ∷ l) h =
    let counted : message_token_count m ≡ pos (tokens_of m) =
      message_token_count_lem m (omega arith) in
    let summed : wrap64 (pos used +ℤ pos (tokens_of m)) ≡ pos (used + tokens_of m) =
      wrap64_sum used (tokens_of m) (omega arith) in
    elim (Bool-cases (ltb budget (used + tokens_of m))) [
      | inl over ↦
          (0, rw (counted, summed) (ground arith), omega arith, inl refl, inr (ground arith))
      | inr fits ↦
          let (n, taken, short, within, next) =
            batch_from-take budget (used + tokens_of m) l (omega arith) in
          (
            suc n,
            rw (counted, summed) (ground arith),
            omega arith,
            inr (prefix_fits budget used m l n (ground arith) within),
            next_over budget used m l n next,
          )
    ]

first_count :
    (m : Message)
    → tokens_of m < i64_half
    → wrap64 (pos 0 +ℤ message_token_count m) ≡ pos (tokens_of m)
first_count m h =
    ap (λ t. wrap64 (pos 0 +ℤ t)) (message_token_count_lem m h)
    ∙ wrap64_sum 0 (tokens_of m) (omega arith)
    ∙ ap pos (omega arith)

-- The first candidate and the longest prefix within the budget.
abbrev pub IsBatch : ℕ → List Message → ℕ → Type 0
IsBatch budget l n =
    (1 ≤ n)
    × (n ≤ length l)
    × ((n ≡ 1) ⊎ (total_tokens (take n l) ≤ budget))
    × ((n ≡ length l) ⊎ (budget < total_tokens (take (suc n) l)))

or_first-IsBatch :
    (budget : ℕ) (m : Message) (l : List Message)
    → total_tokens (m ∷ l) < i64_half
    → (n : ℕ) × (or_first (batch_from (pos budget) true (pos 0) (m ∷ l)) (m ∷ l) ≡ take n (m ∷ l))
      × IsBatch budget (m ∷ l) n
unfolding batch_from
or_first-IsBatch budget m l h =
    let (k, taken, short, within, next) = batch_from-take budget (tokens_of m) l (omega arith) in
    (
      suc k,
      rw (first_count m (omega arith)) (ap (◌∷◌ m) taken),
      (omega arith, omega arith, first_fits within, next_fits next),
    )
  where
    first_fits :
        {k : ℕ}
        → (k ≡ 0) ⊎ (tokens_of m + total_tokens (take k l) ≤ budget)
        → (suc k ≡ 1) ⊎ (total_tokens (take (suc k) (m ∷ l)) ≤ budget)
    first_fits (inl z) = inl (ap suc z)
    first_fits (inr w) = inr w

    next_fits :
        {k : ℕ}
        → (k ≡ length l) ⊎ (budget < tokens_of m + total_tokens (take (suc k) l))
        → (suc k ≡ suc (length l)) ⊎ (budget < total_tokens (take (suc (suc k)) (m ∷ l)))
    next_fits (inl z) = inl (ap suc z)
    next_fits (inr w) = inr w

abbrev pub input_budget : Settings → String → ℕ
input_budget settings previous_summary =
    pos_part (summarize_input_token_budget settings previous_summary)

pos_of_floor : (x : ℤ) → 256 ≤ pos_part x → x ≡ pos (pos_part x)
pos_of_floor (pos n) h = refl
pos_of_floor (negsuc n) h = absurd (omega arith)

budget_pos :
    (settings : Settings) (previous_summary : String)
    → summarize_input_token_budget settings previous_summary
      ≡ pos (input_budget settings previous_summary)
budget_pos settings previous_summary =
    pos_of_floor (summarize_input_token_budget settings previous_summary)
      (summarize_budgets settings previous_summary).0

-- The oldest batch of candidates whose tokens fit 64 bits is a prefix with the first of them,
-- has one message or is within the budget, and the message behind it would not fit.
pub select_oldest_batch_for_budget_lem :
    (m : Message) (l : List Message) (previous_summary : String) (settings : Settings)
    → total_tokens (m ∷ l) < i64_half
    → (n : ℕ) × (select_oldest_batch_for_budget (m ∷ l) previous_summary settings
        ≡ map (λ (c : Message). c.id) (take n (m ∷ l)))
      × IsBatch (input_budget settings previous_summary) (m ∷ l) n
unfolding select_oldest_batch_for_budget
select_oldest_batch_for_budget_lem m l previous_summary settings h =
    let (n, taken, batch) = or_first-IsBatch (input_budget settings previous_summary) m l h in
    (
      n,
      ap (λ b. map (λ (c : Message). c.id) (or_first (batch_from b true (pos 0) (m ∷ l)) (m ∷ l)))
            (budget_pos settings previous_summary)
          ∙ ap (map (λ (c : Message). c.id)) taken,
      batch,
    )

-- The newest batch is chosen in the same way from the newest on, and is given in its order.
pub select_newest_batch_for_budget_lem :
    (candidates : List Message) (m : Message) (l : List Message) (previous_summary : String)
    (settings : Settings)
    → reverse candidates ≡ m ∷ l
    → total_tokens (m ∷ l) < i64_half
    → (n : ℕ) × (select_newest_batch_for_budget candidates previous_summary settings
        ≡ reverse (take n (reverse candidates)))
      × IsBatch (input_budget settings previous_summary) (m ∷ l) n
unfolding select_newest_batch_for_budget
select_newest_batch_for_budget_lem candidates m l previous_summary settings e h =
    let (n, taken, batch) = or_first-IsBatch (input_budget settings previous_summary) m l h in
    (
      n,
      rw e (
          ap (λ b. reverse (or_first (batch_from b true (pos 0) (m ∷ l)) (m ∷ l)))
            (budget_pos settings previous_summary)
          ∙ ap reverse taken),
      batch,
    )

-- A batch begins with the first candidate.
pub select_oldest_batch_for_budget-first :
    (m : Message) (l : List Message) (previous_summary : String) (settings : Settings)
    → (ids : List ℤ) × (select_oldest_batch_for_budget (m ∷ l) previous_summary settings
        ≡ m.id ∷ ids)
unfolding select_oldest_batch_for_budget
select_oldest_batch_for_budget-first m l previous_summary settings = (_, refl)
