-- ===== src/Common/Text/Laws.antt =====
-- Laws of texts that are put together and taken apart, and of the decimal numbers in them.
use Prim.Native.String
use Prim.Native.Char.{code}
use text.Mathlib.TextLemmas.{nil-append, cons-append}
use dreamwell.Common.{ℕ, ◌≡◌, refl, ap, ◌∙◌, Bool, true, false, ◌&&◌, not, String, nat_beq, arith}
use dreamwell.Common.Text.{
  is_whitespace, all_chars, is_empty_text, trim_start, trim_end, trim, split_at,
}

pub all_chars-append :
    (p : ℕ → Bool) (s t : String) → all_chars p (String.◌++◌ s t) ≡ (all_chars p s && all_chars p t)
all_chars-append p String.[] t = ap (all_chars p) (nil-append t)
all_chars-append p (String.◌∷◌ c s) t =
    rw (cons-append c s t) (ground (arith, all_chars-append p s t))

pub all_chars_mono :
    (p q : ℕ → Bool) (s : String)
    → ((c : ℕ) → p c ≡ true → q c ≡ true)
    → all_chars p s ≡ true
    → all_chars q s ≡ true
all_chars_mono p q String.[] weaker h = refl
all_chars_mono p q (String.◌∷◌ c s) weaker h =
    let first : p (code c) ≡ true = ground arith in
    let rest : all_chars p s ≡ true = ground arith in
    ground (arith, weaker (code c) first, all_chars_mono p q s weaker rest)

abbrev pub no_space : ℕ → Bool
no_space c = not (is_whitespace c)

trim_start_plain : (s : String) → all_chars no_space s ≡ true → trim_start s ≡ s
trim_start_plain String.[] h = refl
trim_start_plain (String.◌∷◌ c s) h =
    let plain : is_whitespace (code c) ≡ false = ground arith in rw plain refl

trim_end_plain : (s : String) → all_chars no_space s ≡ true → trim_end s ≡ s
trim_end_plain String.[] h = refl
trim_end_plain (String.◌∷◌ c s) h =
    let plain : is_whitespace (code c) ≡ false = ground arith in
    let rest : all_chars no_space s ≡ true = ground arith in rw (plain, trim_end_plain s rest) refl

-- A text without spaces is not trimmed.
pub trim_plain : (s : String) → all_chars no_space s ≡ true → trim s ≡ s
trim_plain s h = ap trim_end (trim_start_plain s h) ∙ trim_end_plain s h

-- A piece without the separator joins the first piece of what follows it.
pub split_at-append :
    (d : ℕ) (s t : String)
    → all_chars (λ c. not (nat_beq c d)) s ≡ true
    → split_at d (String.◌++◌ s t) ≡ (String.◌++◌ s (split_at d t).0, (split_at d t).1)
split_at-append d String.[] t h = rw (nil-append t, nil-append (split_at d t).0) refl
split_at-append d (String.◌∷◌ c s) t h =
    let other : nat_beq (code c) d ≡ false = ground arith in
    let rest : all_chars (λ c. not (nat_beq c d)) s ≡ true = ground arith in
    rw (cons-append c s t, other, split_at-append d s t rest, cons-append c s (split_at d t).0) refl

pub is_empty_text-append :
    (s t : String) → is_empty_text s ≡ false → is_empty_text (String.◌++◌ s t) ≡ false
is_empty_text-append String.[] t h = absurd (ground arith)
is_empty_text-append (String.◌∷◌ c s) t h = rw (cons-append c s t) refl
