-- ===== src/Common/Int.antt =====
-- Signed integers over the native numbers, and the 64-bit wrap of the release build.
use Prim.Native.Nat.{ℕ, suc, ◌+◌, ◌-◌, ◌%◌, ◌≤◌, ◌<◌}
use mathlib.Core.Path.{◌≡◌}
use mathlib.Core.Logic.{◌↔◌}
use mathlib.Core.Bool.{Bool, true, false}
use native.Mathlib.Omega.{arith}
use dreamwell.Common.Tests.{ltb, leb, nat_beq, if◌then◌else◌}
use dreamwell.Common.Classes.{Eq}

-- `negsuc n` is -(n + 1).
pub data ℤ : Type 0 where
  pos : ℕ → ℤ
  negsuc : ℕ → ℤ

abbrev pub pos_part : ℤ → ℕ
pos_part (pos n) = n
pos_part (negsuc n) = 0

abbrev pub neg_part : ℤ → ℕ
neg_part (pos n) = 0
neg_part (negsuc n) = suc n

-- a - b, as an integer.
abbrev pub sub_ℕ : ℕ → ℕ → ℤ
sub_ℕ a b = if leb b a then pos (a - b) else negsuc (b - a - 1)

infixl 65 ◌+ℤ◌ ◌-ℤ◌
infix 50 ◌≤ℤ◌ ◌<ℤ◌
unfoldable pub ◌+ℤ◌ : ℤ → ℤ → ℤ
a +ℤ b = sub_ℕ (pos_part a + pos_part b) (neg_part a + neg_part b)

unfoldable pub ◌-ℤ◌ : ℤ → ℤ → ℤ
a -ℤ b = sub_ℕ (pos_part a + neg_part b) (neg_part a + pos_part b)

abbrev pub ◌≤ℤ◌ : ℤ → ℤ → Type 0
a ≤ℤ b = pos_part a + neg_part b ≤ pos_part b + neg_part a

abbrev pub ◌<ℤ◌ : ℤ → ℤ → Type 0
a <ℤ b = pos_part a + neg_part b < pos_part b + neg_part a

abbrev pub leb_ℤ : ℤ → ℤ → Bool
leb_ℤ a b = leb (pos_part a + neg_part b) (pos_part b + neg_part a)

abbrev pub ltb_ℤ : ℤ → ℤ → Bool
ltb_ℤ a b = ltb (pos_part a + neg_part b) (pos_part b + neg_part a)

abbrev pub int_beq : ℤ → ℤ → Bool
int_beq (pos a) (pos b) = nat_beq a b
int_beq (negsuc a) (negsuc b) = nat_beq a b
int_beq _ _ = false

pub int_beq_iff : (a b : ℤ) → (int_beq a b ≡ true) ↔ (a ≡ b)
int_beq_iff (pos a) (pos b) = ground arith
int_beq_iff (negsuc a) (negsuc b) = ground arith
int_beq_iff (pos a) (negsuc b) = (λ h. cc, λ h. cc)
int_beq_iff (negsuc a) (pos b) = (λ h. cc, λ h. cc)

-- Equality by the parts, which the tactics read.
pub int_beq-nat_beq :
    (a b : ℤ) → int_beq a b ≡ nat_beq (pos_part a + neg_part b) (pos_part b + neg_part a)
int_beq-nat_beq (pos a) (pos b) = ground arith
int_beq-nat_beq (negsuc a) (negsuc b) = ground arith
int_beq-nat_beq (pos a) (negsuc b) = ground arith
int_beq-nat_beq (negsuc a) (pos b) = ground arith

instance abbrev pub int_eq : Eq ℤ
int_eq = record { eqb = int_beq; eqb_iff = int_beq_iff }

-- The truncated remainder of Rust's `%`, by a positive divisor.
abbrev pub rem_ℤ : ℤ → ℕ → ℤ
rem_ℤ (pos a) n = pos (a % n)
rem_ℤ (negsuc a) n = sub_ℕ 0 (suc a % n)

-- `clamp(lo, hi)` of an integer.
abbrev pub clamp_ℤ : ℤ → ℤ → ℤ → ℤ
clamp_ℤ x lo hi = if ltb_ℤ x lo then lo else if ltb_ℤ hi x then hi else x

-- The values of `i64`, and the one that an integer wraps to.
abbrev pub i64_half : ℕ
i64_half = 9223372036854775808

abbrev pub i64_mod : ℕ
i64_mod = 18446744073709551616

abbrev pub IsI64 : ℤ → Type 0
IsI64 a = (pos_part a < i64_half) × (neg_part a ≤ i64_half)

-- A bit pattern read as a signed number.
abbrev signed64 : ℕ → ℤ
signed64 n = if ltb n i64_half then pos n else sub_ℕ n i64_mod

unfoldable pub wrap64 : ℤ → ℤ
wrap64 a = signed64 ((pos_part a + (i64_mod - neg_part a % i64_mod)) % i64_mod)

pub wrap64_of_IsI64 : (a : ℤ) → IsI64 a → wrap64 a ≡ a
unfolding wrap64
wrap64_of_IsI64 (pos n) h = ground arith
wrap64_of_IsI64 (negsuc n) h = ground arith

pub wrap64-IsI64 : (a : ℤ) → IsI64 (wrap64 a)
unfolding wrap64
wrap64-IsI64 a = ground arith

-- One lemma for each operation lets `omega` work with the operations shut.
pub +ℤ_parts :
    (a b : ℤ)
    → pos_part (a +ℤ b) + neg_part a + neg_part b ≡ neg_part (a +ℤ b) + pos_part a + pos_part b
unfolding ◌+ℤ◌
+ℤ_parts a b = ground arith

pub -ℤ_parts :
    (a b : ℤ)
    → pos_part (a -ℤ b) + neg_part a + pos_part b ≡ neg_part (a -ℤ b) + pos_part a + neg_part b
unfolding ◌-ℤ◌
-ℤ_parts a b = ground arith

pub eq_of_parts : (a b : ℤ) → pos_part a + neg_part b ≡ pos_part b + neg_part a → a ≡ b
eq_of_parts a b h = ground arith

pub ruleset int_laws = (arith, +ℤ_parts, -ℤ_parts, eq_of_parts)
