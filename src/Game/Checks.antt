-- ===== src/Game/Checks.antt =====
-- Laws of the checks of crates/server/src/game_resolution.rs.
use dreamwell.Common.{
  ℕ, ◌+◌, ◌-◌, ◌*◌, ◌≤◌, ◌≡◌, ◌↔◌, refl, ap, ◌∙◌, inl, inr, Option, none, some, List, [], ◌∷◌,
  String, arith, ◌==◌, ==_iff, string_eq, Bool-cases, and_then,
}
use dreamwell.Common.Int.{ℤ, pos, ◌+ℤ◌, ◌-ℤ◌, ◌≤ℤ◌, ◌<ℤ◌, wrap64, IsI64, int_eq}
use dreamwell.Game.Dice.{
  CheckTier, fail, mixed, strong, parse_dice_expr, positive, parse_u32, split_once, to_lowercase,
  trim, codes, parse_digits, u32_max, tier_for_total, margin_for, tier_str, parse_tier,
}

parse_digits-le :
    (n : ℕ) (s : List ℕ) (r : ℕ) → n ≤ u32_max → parse_digits n s ≡ some r → r ≤ u32_max
parse_digits-le n [] r h e = ground arith
parse_digits-le n (c ∷ s) r h e = ground (arith, parse_digits-le (n * 10 + (c - 48)) s r)

parse_u32-le : (s : List ℕ) (r : ℕ) → parse_u32 s ≡ some r → r ≤ u32_max
parse_u32-le [] r e = absurd (ground arith)
parse_u32-le (c ∷ []) r e = ground arith
parse_u32-le (c ∷ d ∷ s) r e =
    ground (arith, parse_digits-le 0 (d ∷ s) r, parse_digits-le 0 (c ∷ d ∷ s) r)

-- Dice that parse have a number of dice and of sides that are not zero and fit 32 bits.
pub parse_dice_expr-bounds :
    (expr : String) (count sides : ℕ)
    → parse_dice_expr expr ≡ some (count, sides)
    → (1 ≤ count) × (count ≤ u32_max) × (1 ≤ sides) × (sides ≤ u32_max)
unfolding parse_dice_expr
parse_dice_expr-bounds expr count sides h = go (split_once 100 (to_lowercase (trim (codes expr)))) h
  where
    pair :
        (before after : List ℕ) (c s : Option ℕ)
        → ((r : ℕ) → c ≡ some r → r ≤ u32_max)
        → ((r : ℕ) → s ≡ some r → r ≤ u32_max)
        → and_then c (λ count. and_then s (λ sides. positive count sides)) ≡ some (count, sides)
        → (1 ≤ count) × (count ≤ u32_max) × (1 ≤ sides) × (sides ≤ u32_max)
    pair before after none s hc hs e = absurd (ground arith)
    pair before after (some c) none hc hs e = absurd (ground arith)
    pair before after (some c) (some s) hc hs e =
        let lc = hc c refl in let ls = hs s refl in ground arith

    go :
        (split : Option (List ℕ × List ℕ))
        → (elim split [
          | none ↦ none
          | some (before, after) ↦
              and_then
                (parse_u32 before)
                (λ count. and_then (parse_u32 after) (λ sides. positive count sides))
        ])
          ≡ some (count, sides)
        → (1 ≤ count) × (count ≤ u32_max) × (1 ≤ sides) × (sides ≤ u32_max)
    go none e = absurd (ground arith)
    go (some (before, after)) e =
        pair before after (parse_u32 before) (parse_u32 after) (parse_u32-le before)
          (parse_u32-le after) e

tier_of_parse : (s : String) (t : CheckTier) → parse_tier s ≡ some t → s ≡ tier_str t
unfolding parse_tier tier_str
tier_of_parse s t h = elim (Bool-cases (s == "fail")) [
  | inl e ↦
      let named = (==_iff s "fail").0 e in
      let found : some fail ≡ some t = rw e at h in
      let same : fail ≡ t = ground arith in named ∙ ap tier_str same
  | inr a ↦ elim (Bool-cases (s == "mixed")) [
    | inl e ↦
        let named = (==_iff s "mixed").0 e in
        let found : some mixed ≡ some t = rw (a, e) at h in
        let same : mixed ≡ t = ground arith in named ∙ ap tier_str same
    | inr b ↦ elim (Bool-cases (s == "strong")) [
      | inl e ↦
          let named = (==_iff s "strong").0 e in
          let found : some strong ≡ some t = rw (a, b, e) at h in
          let same : strong ≡ t = ground arith in named ∙ ap tier_str same
      | inr c ↦ absurd (let found : none ≡ some t = rw (a, b, c) at h in cc)
    ]
  ]
]

parse-tier_str : (t : CheckTier) → parse_tier (tier_str t) ≡ some t
unfolding parse_tier tier_str
parse-tier_str fail = refl
parse-tier_str mixed = refl
parse-tier_str strong = refl

-- A tier is read back from its name, and only a tier's name is read.
pub parse_tier_iff : (s : String) (t : CheckTier) → (parse_tier s ≡ some t) ↔ (s ≡ tier_str t)
parse_tier_iff s t = (tier_of_parse s t, λ e. ap parse_tier e ∙ parse-tier_str t)

-- The total that a tier's margin is counted from.
abbrev pub threshold : CheckTier → ℕ
threshold fail = 7
threshold mixed = 7
threshold strong = 10

-- A check fails just when its margin is negative, which is when its total is below seven, and is strong
-- from ten; the margin and the tier's threshold make the total. The total and the margin do not overflow.
pub margin_for-tier :
    (total : ℤ)
    → IsI64 (total -ℤ pos 10)
    → IsI64 total
    → let tier = tier_for_total total in
      let margin = margin_for tier total in
      ((tier ≡ fail) ↔ (margin <ℤ pos 0))
      × ((tier ≡ fail) ↔ (total <ℤ pos 7))
      × ((tier ≡ strong) ↔ (pos 10 ≤ℤ total))
      × (margin +ℤ pos (threshold tier) ≡ total)
unfolding tier_for_total wrap64 ◌+ℤ◌ ◌-ℤ◌
margin_for-tier total fits wide = ground arith
