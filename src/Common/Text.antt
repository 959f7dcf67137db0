-- ===== src/Common/Text.antt =====
-- Text as the standard library reads it: `trim`, `split`, `is_empty` and `parse::<i64>`, by characters.
pub mod Laws
pub mod Numbers
pub mod Utf8
use Prim.Native.String
use Prim.Native.Char.{code}
use Prim.Native.Nat.{ℕ, zero, suc, ◌+◌, ◌-◌, ◌*◌}
use Prim.Native.String.{String}
use mathlib.Core.Bool.{Bool, true, false, ◌&&◌, ◌||◌, not}
use mathlib.Core.List.{List, [], ◌∷◌}
use mathlib.Core.Option.{Option, none, some}
use dreamwell.Common.Tests.{leb, ltb, nat_beq, if◌then◌else◌, and_then}
use dreamwell.Common.Lists.{keep}
use dreamwell.Common.Int.{ℤ, pos, negsuc, i64_half}

-- `char::is_whitespace`
abbrev pub is_whitespace : ℕ → Bool
is_whitespace c =
    (leb 9 c && leb c 13)
    || (nat_beq c 32
        || (nat_beq c 133
            || (nat_beq c 160
                || (nat_beq c 5760
                    || ((leb 8192 c && leb c 8202)
                        || (nat_beq c 8232
                            || (nat_beq c 8233
                                || (nat_beq c 8239 || (nat_beq c 8287 || nat_beq c 12288)))))))))

abbrev pub all_chars : (ℕ → Bool) → String → Bool
all_chars p String.[] = true
all_chars p (String.◌∷◌ c s) = p (code c) && all_chars p s

-- `trim().is_empty()`
abbrev pub is_blank : String → Bool
is_blank = all_chars is_whitespace

abbrev pub is_empty_text : String → Bool
is_empty_text String.[] = true
is_empty_text (String.◌∷◌ c s) = false

abbrev pub trim_start : String → String
trim_start String.[] = String.[]
trim_start (String.◌∷◌ c s) =
    let rest = trim_start s in if is_whitespace (code c) then rest else String.◌∷◌ c s

abbrev pub trim_end : String → String
trim_end String.[] = String.[]
trim_end (String.◌∷◌ c s) =
    let rest = trim_end s in if is_blank (String.◌∷◌ c s) then String.[] else String.◌∷◌ c rest

abbrev pub trim : String → String
trim s = trim_end (trim_start s)

-- `strip_prefix` of one character, with the whole text where it is not there.
abbrev pub strip_char : ℕ → String → String
strip_char d String.[] = String.[]
strip_char d (String.◌∷◌ c s) = if nat_beq (code c) d then s else String.◌∷◌ c s

-- `split` at a character: the first piece, and the others.
abbrev pub split_at : ℕ → String → String × List String
split_at d String.[] = (String.[], [])
split_at d (String.◌∷◌ c s) =
    let (piece, rest) = split_at d s in
    if nat_beq (code c) d then (String.[], piece ∷ rest) else (String.◌∷◌ c piece, rest)

abbrev pub split : ℕ → String → List String
split d s = let (piece, rest) = split_at d s in piece ∷ rest

abbrev pub nonempty : String → Bool
nonempty s = not (is_empty_text s)

abbrev pub is_digit : ℕ → Bool
is_digit c = leb 48 c && leb c 57

-- The number that digits write after the number read so far.
abbrev pub digits_from : ℕ → String → Option ℕ
digits_from n String.[] = some n
digits_from n (String.◌∷◌ c s) =
    let rest = digits_from (n * 10 + (code c - 48)) s in if is_digit (code c) then rest else none

-- The value of a sign and digits, where it fits 64 bits: the source checks each digit for overflow,
-- which fails just when the whole number does not fit.
abbrev pub signed : Bool → ℕ → Option ℤ
signed minus zero = some (pos 0)
signed false (suc n) = if ltb (suc n) i64_half then some (pos (suc n)) else none
signed true (suc n) = if leb (suc n) i64_half then some (negsuc n) else none

abbrev pub unsigned_part : Bool → String → Option ℤ
unsigned_part minus s = if is_empty_text s then none else and_then (digits_from 0 s) (signed minus)

unfoldable pub parse_i64 : String → Option ℤ
parse_i64 String.[] = none
parse_i64 (String.◌∷◌ c s) =
    if nat_beq (code c) 45
    then unsigned_part true s
    else if nat_beq (code c) 43
    then unsigned_part false s
    else unsigned_part false (String.◌∷◌ c s)

-- `join` of the pieces with a separator between them.
abbrev pub join : String → List String → String
join sep [] = String.[]
join sep (s ∷ []) = s
join sep (s ∷ t ∷ ss) = String.◌++◌ s (String.◌++◌ sep (join sep (t ∷ ss)))
