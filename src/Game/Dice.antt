-- ===== src/Game/Dice.antt =====
-- Dice expressions and checks: crates/server/src/game_resolution.rs. The faces come from the `rand`
-- crate, anew for each call: `roller`, an argument of each call, is what the loop of `random_range`
-- gives in it for a number of dice and of sides.
use Prim.Native.Char.{code}
use dreamwell.Common.{
  ℕ, ◌+◌, ◌*◌, ◌-◌, Bool, true, ◌&&◌, ◌||◌, Option, none, some, List, [], ◌∷◌, String,
  if◌then◌else◌, leb, nat_beq, and_then, ◌==◌, string_eq,
}
use dreamwell.Common.Int.{ℤ, pos, ◌+ℤ◌, ◌-ℤ◌, leb_ℤ, clamp_ℤ, wrap64, int_eq}

pub data CheckTier : Type 0 where
  fail mixed strong : CheckTier

pub record RollResult : Type 0 where
  pub rolls : List ℤ
  pub modifier : ℤ
  pub total : ℤ
  pub tier : CheckTier
  pub margin : ℤ
  pub natural_boon : Bool
  pub natural_snag : Bool

pub record SystemRollResult : Type 0 where
  pub rolls : List ℤ
  pub total : ℤ

-- A text is read as its code points.
abbrev pub codes : String → List ℕ
codes String.[] = []
codes (String.◌∷◌ c s) = code c ∷ codes s

-- `char::is_whitespace`
abbrev pub is_whitespace : ℕ → Bool
is_whitespace c =
    (leb 9 c && leb c 13)
    || (nat_beq c 32
        || (nat_beq c 133
            || (nat_beq c 160
                || (nat_beq c 5760
                    || ((leb 8192 c && leb c 8202)
                        || (nat_beq c 8232
                            || (nat_beq c 8233
                                || (nat_beq c 8239 || (nat_beq c 8287 || nat_beq c 12288)))))))))

abbrev pub trim_start : List ℕ → List ℕ
trim_start [] = []
trim_start (c ∷ s) = if is_whitespace c then trim_start s else c ∷ s

abbrev pub is_blank : List ℕ → Bool
is_blank [] = true
is_blank (c ∷ s) = is_whitespace c && is_blank s

abbrev pub trim_end : List ℕ → List ℕ
trim_end [] = []
trim_end (c ∷ s) = if is_blank (c ∷ s) then [] else c ∷ trim_end s

abbrev pub trim : List ℕ → List ℕ
trim s = trim_end (trim_start s)

-- `to_lowercase` below 128. Beyond, no letter becomes a `d`, a digit or a sign, so the parse below
-- fails with the letter as without.
abbrev pub to_lowercase : List ℕ → List ℕ
to_lowercase [] = []
to_lowercase (c ∷ s) = (if leb 65 c && leb c 90 then c + 32 else c) ∷ to_lowercase s

-- `split_once` at the first `c`.
abbrev pub split_once : ℕ → List ℕ → Option (List ℕ × List ℕ)
split_once c [] = none
split_once c (x ∷ s) = elim (split_once c s) [
  | none ↦ if nat_beq x c then some ([], s) else none
  | some (before, after) ↦ if nat_beq x c then some ([], s) else some (x ∷ before, after)
]

abbrev pub u32_max : ℕ
u32_max = 4294967295

abbrev pub is_digit : ℕ → Bool
is_digit c = leb 48 c && leb c 57

-- The digits of `u32::from_str`, with the number read so far.
abbrev pub parse_digits : ℕ → List ℕ → Option ℕ
parse_digits n [] = some n
parse_digits n (c ∷ s) =
    let next = n * 10 + (c - 48) in
    let rest = parse_digits next s in if is_digit c && leb next u32_max then rest else none

-- `parse::<u32>`: one `+` may stand before the digits.
abbrev pub parse_u32 : List ℕ → Option ℕ
parse_u32 [] = none
parse_u32 (c ∷ []) = if is_digit c then some (c - 48) else none
parse_u32 (c ∷ d ∷ s) = if nat_beq c 43 then parse_digits 0 (d ∷ s) else parse_digits 0 (c ∷ d ∷ s)

-- Neither number may be zero.
abbrev pub positive : ℕ → ℕ → Option (ℕ × ℕ)
positive count sides = if nat_beq count 0 || nat_beq sides 0 then none else some (count, sides)

unfoldable pub parse_dice_expr : String → Option (ℕ × ℕ)
parse_dice_expr expr = elim (split_once 100 (to_lowercase (trim (codes expr)))) [
  | none ↦ none
  | some (before, after) ↦
      and_then (parse_u32 before)
        (λ count. and_then (parse_u32 after) (λ sides. positive count sides))
]

unfoldable pub tier_for_total : ℤ → CheckTier
tier_for_total total =
    if leb_ℤ total (pos 6) then fail else if leb_ℤ total (pos 9) then mixed else strong

-- `iter().sum()` on `i64`.
unfoldable pub sum : List ℤ → ℤ
sum [] = pos 0
sum (x ∷ xs) = wrap64 (x +ℤ sum xs)

abbrev pub margin_for : CheckTier → ℤ → ℤ
margin_for fail total = wrap64 (total -ℤ pos 7)
margin_for mixed total = wrap64 (total -ℤ pos 7)
margin_for strong total = wrap64 (total -ℤ pos 10)

unfoldable pub clamp_modifier : ℤ → ℤ → ℤ → ℤ
clamp_modifier modifier low high = clamp_ℤ modifier low high

unfoldable pub tier_str : CheckTier → String
tier_str fail = "fail"
tier_str mixed = "mixed"
tier_str strong = "strong"

unfoldable pub parse_tier : String → Option CheckTier
parse_tier s =
    if s == "fail"
    then some fail
    else if s == "mixed"
    then some mixed
    else if s == "strong"
    then some strong
    else none

module _ (roller : ℕ → ℕ → List ℤ) where
  -- The result for the dice that were parsed.
  abbrev pub roll_of : ℤ → ℕ → ℕ → RollResult
  roll_of modifier count sides =
      let rolls = roller count sides in
      let raw_total = sum rolls in
      let total = wrap64 (raw_total +ℤ modifier) in
      let two_d6 = nat_beq count 2 && nat_beq sides 6 in
      record {
        rolls = rolls;
        modifier = modifier;
        total = total;
        tier = tier_for_total total;
        margin = margin_for (tier_for_total total) total;
        natural_boon = leb_ℤ (pos 12) raw_total && two_d6;
        natural_snag = (raw_total == pos 2) && two_d6;
      }

  unfoldable pub roll_dice : String → ℤ → Option RollResult
  unfolding parse_dice_expr tier_for_total sum
  roll_dice expr modifier =
      and_then (parse_dice_expr expr) (λ (count, sides). some (roll_of modifier count sides))

  unfoldable pub roll_system_dice : String → Option SystemRollResult
  unfolding parse_dice_expr sum
  roll_system_dice expr = and_then (parse_dice_expr expr) (λ (count, sides).
      some (record { rolls = roller count sides; total = sum (roller count sides) }))
