-- ===== src/Summary/Keep.antt =====
-- What a plan of crates/server/src/summarize.rs summarizes and what it keeps.
use dreamwell.Common.{
  ℕ, ◌+◌, ◌-◌, ◌≤◌, ◌<◌, ◌≡◌, refl, inl, inr, Bool, true, false, nat_beq, Option, none, some, List,
  map, String, arith, if◌then◌else◌, take, length, keep, get_elem?, get_elem?-lt, opt_map, min,
  Bool-cases,
}
use dreamwell.Common.Int.{ℤ, pos, negsuc, leb_ℤ, pos_part}
use dreamwell.Summary.Tokens.{Settings, max_ℤ, prompt_token_budget}
use dreamwell.Summary.Batch.{Message}
use dreamwell.Summary.Plan.{
  Character, is_active_for_context, adaptive_keep_count, SummarizePlan, min_keep_of, is_adaptive,
  keep_count, plan_at, plan_summarization,
}

abbrev active_of : List Message → List Message
active_of = keep is_active_for_context

pub min_keep_floor : (x : ℤ) → 2 ≤ pos_part (max_ℤ x (pos 2))
min_keep_floor (pos n) = ground arith
min_keep_floor (negsuc n) = ground arith

adaptive_floor :
    (settings : Settings) (chat_summary : String) (active : List Message)
    (character : Option Character) (min_keep : ℕ)
    → min min_keep (length active)
      ≤ adaptive_keep_count settings chat_summary active character min_keep
unfolding adaptive_keep_count
adaptive_floor settings chat_summary active character min_keep =
    elim (Bool-cases
      (leb_ℤ (prompt_token_budget settings.context_tokens settings.max_tokens) (pos 0))) [
        | inl empty ↦ rw empty (omega arith)
        | inr room ↦ rw room (omega arith)
      ]

keep_count_floor :
    (settings : Settings) (chat_summary : String) (active : List Message)
    (character : Option Character)
    → min (min_keep_of settings) (length active) ≤ keep_count settings chat_summary active character
unfolding keep_count
keep_count_floor settings chat_summary active character = elim (Bool-cases (is_adaptive settings)) [
  | inl adaptive ↦
      rw adaptive (adaptive_floor settings chat_summary active character (min_keep_of settings))
  | inr plain ↦ rw plain (omega arith)
]

-- A plan summarizes the oldest active messages, at least one of them, keeps at least the configured
-- number, and its anchor is the time of the first kept.
abbrev pub IsPlan : Settings → List Message → Option SummarizePlan → Type 0
IsPlan settings active none = Unit {0}
IsPlan settings active (some p) =
    (0 < p.summarized_count)
    × (p.summarized_count + min_keep_of settings ≤ length active)
    × (p.to_summarize_ids ≡ map (λ (c : Message). c.id) (take p.summarized_count active))
    × (opt_map (λ (c : Message). c.created_at) (get_elem? active p.summarized_count)
        ≡ some p.anchor_before)

plan_at-IsPlan :
    (settings : Settings) (active : List Message) (split_at : ℕ)
    → 0 < split_at
    → split_at + min_keep_of settings ≤ length active
    → (r : Option SummarizePlan) × (plan_at split_at active ≡ some r) × IsPlan settings active r
plan_at-IsPlan settings active split_at h k =
    let (m, found) =
      get_elem?-lt active split_at (omega (arith, min_keep_floor settings.summarize_keep_recent)) in
    (
      some (record {
        to_summarize_ids = map (λ (c : Message). c.id) (take split_at active);
        anchor_before = m.created_at;
        summarized_count = split_at;
      }),
      rw found refl,
      (h, k, refl, rw found refl),
    )

abbrev Planned : Settings → List Message → Option (Option SummarizePlan) → Type 0
Planned settings active x = (r : Option SummarizePlan) × (x ≡ some r) × IsPlan settings active r

split_pos :
    (settings : Settings) (chat_summary : String) (active : List Message)
    (character : Option Character)
    → nat_beq (length active - keep_count settings chat_summary active character) 0 ≡ false
    → 0 < length active - keep_count settings chat_summary active character
split_pos settings chat_summary active character h = ground arith

-- The tests in front of the plan.
after_tests :
    (settings : Settings) (active : List Message) (off few whole young : Bool)
    (x : Option (Option SummarizePlan))
    → (whole ≡ false → Planned settings active x)
    → Planned settings active (
        if off
        then some none
        else if few
        then some none
        else if whole
        then some none
        else if young
        then some none
        else x)
after_tests settings active true few whole young x h = (none, refl, tt)
after_tests settings active false true whole young x h = (none, refl, tt)
after_tests settings active false false true young x h = (none, refl, tt)
after_tests settings active false false false true x h = (none, refl, tt)
after_tests settings active false false false false x h = h refl

-- Planning does not panic, and gives no plan or one that takes the oldest active messages, at
-- least one, keeps at least the configured number, and is anchored at the first kept.
pub plan_summarization-IsPlan :
    (settings : Settings) (chat_summary : String) (messages : List Message)
    (character : Option Character) (force : Bool)
    → (r : Option SummarizePlan) × (plan_summarization settings chat_summary messages character
          force
        ≡ some r)
      × IsPlan settings (keep is_active_for_context messages) r
unfolding plan_summarization
plan_summarization-IsPlan settings chat_summary messages character force =
    let active : List Message = keep is_active_for_context messages in
    after_tests settings active _ _ _ _ _ λ whole.
      plan_at-IsPlan settings active
        (length active - keep_count settings chat_summary active character)
        (split_pos settings chat_summary active character whole)
        (omega (
          arith,
          keep_count_floor settings chat_summary active character,
          split_pos settings chat_summary active character whole,
        ))
