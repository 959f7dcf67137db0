-- ===== src/Common/Text/Numbers.antt =====
-- Decimal numbers: what `parse_i64` reads of what `show_ℤ` wrote.
use Prim.Native.String
use Prim.Native.Char.{code}
use text.Mathlib.TextLemmas.{nil-append, cons-append}
use dreamwell.Common.{
  ℕ, zero, suc, ◌+◌, ◌-◌, ◌*◌, ◌/◌, ◌%◌, ◌<◌, ◌≡◌, refl, ap, ◌∙◌, inl, inr, Bool, true, false, some,
  String, ltb, nat_beq, arith, Bool-cases,
}
use dreamwell.Common.Int.{ℤ, pos, negsuc, IsI64, i64_half}
use dreamwell.Common.Decimal.{digit, show_from, show_ℕ, show_ℤ}
use dreamwell.Common.Text.Laws.{all_chars-append, all_chars_mono}
use dreamwell.Common.Text.{all_chars, is_empty_text, is_digit, digits_from, signed, parse_i64}

digits_from-digit : (a d : ℕ) → d < 10 → digits_from a (digit d) ≡ some (a * 10 + d)
digits_from-digit a zero h = refl
digits_from-digit a (suc zero) h = refl
digits_from-digit a (suc (suc zero)) h = refl
digits_from-digit a (suc (suc (suc zero))) h = refl
digits_from-digit a (suc (suc (suc (suc zero)))) h = refl
digits_from-digit a (suc (suc (suc (suc (suc zero))))) h = refl
digits_from-digit a (suc (suc (suc (suc (suc (suc zero)))))) h = refl
digits_from-digit a (suc (suc (suc (suc (suc (suc (suc zero))))))) h = refl
digits_from-digit a (suc (suc (suc (suc (suc (suc (suc (suc zero)))))))) h = refl
digits_from-digit a (suc (suc (suc (suc (suc (suc (suc (suc (suc zero))))))))) h = refl
digits_from-digit a (suc (suc (suc (suc (suc (suc (suc (suc (suc (suc d)))))))))) h =
    absurd (omega arith)

digits_from-append :
    (a m d : ℕ) (s : String)
    → digits_from a s ≡ some m
    → d < 10
    → digits_from a (String.◌++◌ s (digit d)) ≡ some (m * 10 + d)
digits_from-append a m d String.[] h k =
    rw (nil-append (digit d)) (ground (arith, digits_from-digit a d))
digits_from-append a m d (String.◌∷◌ c s) h k =
    rw (cons-append c s (digit d))
      (ground (arith, digits_from-append (a * 10 + (code c - 48)) m d s))

pub digits_from-show_from : (fuel n : ℕ) → n < fuel → digits_from 0 (show_from fuel n) ≡ some n
unfolding show_from
digits_from-show_from zero n h = absurd (omega arith)
digits_from-show_from (suc fuel) n h = elim (Bool-cases (ltb n 10)) [
  | inl small ↦ rw small (digits_from-digit 0 n (ground arith) ∙ ap some (omega arith))
  | inr large ↦ rw large (
      digits_from-append 0 (n / 10) (n % 10) (show_from fuel (n / 10))
        (digits_from-show_from fuel (n / 10) (ground arith)) (omega arith)
      ∙ ap some (omega arith))
]

-- What reads as a number consists of digits.
pub digits_from-all_chars :
    (a n : ℕ) (s : String) → digits_from a s ≡ some n → all_chars is_digit s ≡ true
digits_from-all_chars a n String.[] h = refl
digits_from-all_chars a n (String.◌∷◌ c s) h =
    ground (arith, digits_from-all_chars (a * 10 + (code c - 48)) n s)

-- A text that is not empty and consists of digits has no sign.
parse_i64-digits :
    (n : ℕ) (s : String)
    → digits_from 0 s ≡ some n
    → is_empty_text s ≡ false
    → parse_i64 s ≡ signed false n
unfolding parse_i64
parse_i64-digits n String.[] h k = absurd (ground arith)
parse_i64-digits n (String.◌∷◌ c s) h k =
    let digit_first : is_digit (code c) ≡ true = ground arith in
    let plus : nat_beq (code c) 43 ≡ false = ground arith in
    let minus : nat_beq (code c) 45 ≡ false = ground arith in rw (minus, plus, h) refl

digit-nonempty : (d : ℕ) → d < 10 → is_empty_text (digit d) ≡ false
digit-nonempty zero h = refl
digit-nonempty (suc zero) h = refl
digit-nonempty (suc (suc zero)) h = refl
digit-nonempty (suc (suc (suc zero))) h = refl
digit-nonempty (suc (suc (suc (suc zero)))) h = refl
digit-nonempty (suc (suc (suc (suc (suc zero))))) h = refl
digit-nonempty (suc (suc (suc (suc (suc (suc zero)))))) h = refl
digit-nonempty (suc (suc (suc (suc (suc (suc (suc zero))))))) h = refl
digit-nonempty (suc (suc (suc (suc (suc (suc (suc (suc zero)))))))) h = refl
digit-nonempty (suc (suc (suc (suc (suc (suc (suc (suc (suc zero))))))))) h = refl
digit-nonempty (suc (suc (suc (suc (suc (suc (suc (suc (suc (suc d)))))))))) h =
    absurd (omega arith)

nonempty-append : (s t : String) → is_empty_text t ≡ false → is_empty_text (String.◌++◌ s t) ≡ false
nonempty-append String.[] t h = ap is_empty_text (nil-append t) ∙ h
nonempty-append (String.◌∷◌ c s) t h = ap is_empty_text (cons-append c s t)

show_from-nonempty : (fuel n : ℕ) → is_empty_text (show_from (suc fuel) n) ≡ false
unfolding show_from
show_from-nonempty fuel n = elim (Bool-cases (ltb n 10)) [
  | inl small ↦ rw small (digit-nonempty n (ground arith))
  | inr large ↦ rw large (
      nonempty-append (show_from fuel (n / 10)) (digit (n % 10))
        (digit-nonempty (n % 10) (omega arith)))
]

pub digits_from-show_ℕ : (n : ℕ) → digits_from 0 (show_ℕ n) ≡ some n
unfolding show_ℕ
digits_from-show_ℕ n = digits_from-show_from (suc n) n (omega arith)

pub show_ℕ-nonempty : (n : ℕ) → is_empty_text (show_ℕ n) ≡ false
unfolding show_ℕ
show_ℕ-nonempty n = show_from-nonempty n n

signed_pos : (n : ℕ) → n < i64_half → signed false n ≡ some (pos n)
signed_pos zero h = refl
signed_pos (suc n) h = ground arith

parse_i64-minus :
    (n : ℕ) (s : String)
    → digits_from 0 s ≡ some n
    → is_empty_text s ≡ false
    → parse_i64 (String.◌++◌ "-" s) ≡ signed true n
unfolding parse_i64
parse_i64-minus n s h k = rw (cons-append _ String.[] s, nil-append s, k, h) refl

-- `to_string` is read back, for the values of `i64`.
pub parse_i64-show_ℤ : (z : ℤ) → IsI64 z → parse_i64 (show_ℤ z) ≡ some z
unfolding show_ℤ
parse_i64-show_ℤ (pos n) h =
    parse_i64-digits n (show_ℕ n) (digits_from-show_ℕ n) (show_ℕ-nonempty n) ∙ signed_pos n h.0
parse_i64-show_ℤ (negsuc n) h =
    parse_i64-minus (suc n) (show_ℕ (suc n)) (digits_from-show_ℕ (suc n)) (show_ℕ-nonempty (suc n))
    ∙ ground arith

-- The characters of a written number are digits, but for a sign in front.
pub show_ℤ-all_chars :
    (p : ℕ → Bool) (z : ℤ)
    → p 45 ≡ true
    → ((c : ℕ) → is_digit c ≡ true → p c ≡ true)
    → all_chars p (show_ℤ z) ≡ true
unfolding show_ℤ
show_ℤ-all_chars p (pos n) minus digits =
    all_chars_mono is_digit p (show_ℕ n) digits
      (digits_from-all_chars 0 n (show_ℕ n) (digits_from-show_ℕ n))
show_ℤ-all_chars p (negsuc n) minus digits =
    all_chars-append p "-" (show_ℕ (suc n))
    ∙ rw minus (
        all_chars_mono is_digit p (show_ℕ (suc n)) digits
          (digits_from-all_chars 0 (suc n) (show_ℕ (suc n)) (digits_from-show_ℕ (suc n))))

pub show_ℤ-nonempty : (z : ℤ) → is_empty_text (show_ℤ z) ≡ false
unfolding show_ℤ
show_ℤ-nonempty (pos n) = show_ℕ-nonempty n
show_ℤ-nonempty (negsuc n) = nonempty-append "-" (show_ℕ (suc n)) (show_ℕ-nonempty (suc n))
