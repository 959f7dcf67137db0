-- ===== src/Common/Text/Utf8.antt =====
-- Texts by their bytes: `len` and the slice `[..n]` of the standard library.
use Prim.Native.String
use Prim.Native.Char.{code}
use Prim.Native.Nat.{ℕ, zero, suc, ◌+◌, ◌-◌, ◌≤◌, ◌<◌}
use Prim.Native.String.{String}
use mathlib.Core.Path.{◌≡◌, refl}
use mathlib.Core.Bool.{true}
use mathlib.Core.Option.{Option, none, some}
use native.Mathlib.Omega.{arith}
use Prim.Native.Char.{Char}
use text.Mathlib.TextLemmas.{nil-append, cons-append}
use dreamwell.Common.Text.{all_chars}
use dreamwell.Common.Tests.{leb, ltb, nat_beq, if◌then◌else◌, opt_map}
use dreamwell.Common.Tests.{Bool-cases, Option-cases}
use mathlib.Core.Path.{◌∙◌, ap}
use mathlib.Core.Logic.{inl, inr}

-- `char::len_utf8`.
abbrev pub len_utf8 : ℕ → ℕ
len_utf8 c = if ltb c 128 then 1 else if ltb c 2048 then 2 else if ltb c 65536 then 3 else 4

unfoldable pub byte_len : String → ℕ
byte_len String.[] = 0
byte_len (String.◌∷◌ c s) = len_utf8 (code c) + byte_len s

-- The slice `[..n]`: `none` is the panic of an end that is out of range or inside a character.
unfoldable pub slice_to : ℕ → String → Option String
slice_to n String.[] = if nat_beq n 0 then some "" else none
slice_to n (String.◌∷◌ c s) =
    let rest = opt_map (String.◌∷◌ c) (slice_to (n - len_utf8 (code c)) s) in
    if nat_beq n 0 then some "" else if leb (len_utf8 (code c)) n then rest else none

pub len_utf8-pos : (c : ℕ) → 0 < len_utf8 c
len_utf8-pos c = ground arith

pub byte_len-append : (s t : String) → byte_len (String.◌++◌ s t) ≡ byte_len s + byte_len t
unfolding byte_len
byte_len-append String.[] t = rw (nil-append t) (omega arith)
byte_len-append (String.◌∷◌ c s) t = rw (cons-append c s t) (omega (arith, byte_len-append s t))

pub byte_len-cons :
    (c : Char) (s : String) → byte_len (String.◌∷◌ c s) ≡ len_utf8 (code c) + byte_len s
unfolding byte_len
byte_len-cons c s = refl

-- An end inside a character panics, also behind a text.
pub slice_to-append_inside :
    (n : ℕ) (a : String) (c : Char) (b : String)
    → byte_len a < n
    → n < byte_len a + len_utf8 (code c)
    → slice_to n (String.◌++◌ a (String.◌∷◌ c b)) ≡ none
unfolding slice_to byte_len
slice_to-append_inside n String.[] c b h k = rw (nil-append (String.◌∷◌ c b)) (ground arith)
slice_to-append_inside n (String.◌∷◌ d a) c b h k =
    rw (cons-append d a (String.◌∷◌ c b))
      (ground (arith, len_utf8-pos (code d), slice_to-append_inside (n - len_utf8 (code d)) a c b))

-- A slice of a text of one-byte characters is there up to the text's length.
pub slice_to_ascii :
    (n : ℕ) (s : String)
    → all_chars (λ c. ltb c 128) s ≡ true
    → n ≤ byte_len s
    → (t : String) × (slice_to n s ≡ some t) × (byte_len t ≡ n)
unfolding slice_to byte_len
slice_to_ascii zero String.[] h k = ("", refl, refl)
slice_to_ascii zero (String.◌∷◌ c s) h k = ("", refl, refl)
slice_to_ascii (suc n) String.[] h k = absurd (ground arith)
slice_to_ascii (suc n) (String.◌∷◌ c s) h k =
    let one : len_utf8 (code c) ≡ 1 = ground arith in
    let rest : all_chars (λ c. ltb c 128) s ≡ true = ground arith in
    let (t, e, l) = slice_to_ascii n s rest (ground arith) in
    (String.◌∷◌ c t, ground arith, ground arith)

-- The slice `[n..]`: `none` is the panic of a start that is out of range or inside a character.
unfoldable pub slice_from : ℕ → String → Option String
slice_from n String.[] = if nat_beq n 0 then some "" else none
slice_from n (String.◌∷◌ c s) =
    let rest = slice_from (n - len_utf8 (code c)) s in
    if nat_beq n 0 then some (String.◌∷◌ c s) else if leb (len_utf8 (code c)) n then rest else none

pub slice_from-append_inside :
    (n : ℕ) (a : String) (c : Char) (b : String)
    → byte_len a < n
    → n < byte_len a + len_utf8 (code c)
    → slice_from n (String.◌++◌ a (String.◌∷◌ c b)) ≡ none
unfolding slice_from byte_len
slice_from-append_inside n String.[] c b h k = rw (nil-append (String.◌∷◌ c b)) (ground arith)
slice_from-append_inside n (String.◌∷◌ d a) c b h k =
    rw (cons-append d a (String.◌∷◌ c b)) (
      ground (arith, len_utf8-pos (code d), slice_from-append_inside (n - len_utf8 (code d)) a c b))

-- Where the slice up to a byte is there, so is the slice from it on, and the two make the text.
pub slice_parts :
    (n : ℕ) (s t : String)
    → slice_to n s ≡ some t
    → (u : String) × (slice_from n s ≡ some u) × (String.◌++◌ t u ≡ s) × (byte_len t ≡ n)
unfolding slice_to slice_from byte_len
slice_parts zero String.[] t h =
    let e : t ≡ "" = ground arith in ("", refl, rw e (nil-append ""), rw e refl)
slice_parts (suc n) String.[] t h = absurd (ground arith)
slice_parts zero (String.◌∷◌ c s) t h =
    let e : t ≡ "" = ground arith in
    (String.◌∷◌ c s, refl, rw e (nil-append (String.◌∷◌ c s)), rw e refl)
slice_parts (suc n) (String.◌∷◌ c s) t h = elim (Bool-cases (leb (len_utf8 (code c)) (suc n))) [
  | inr long ↦ absurd (ground arith)
  | inl fits ↦ elim (Option-cases (slice_to (suc n - len_utf8 (code c)) s)) [
    | inl inside ↦ absurd (ground arith)
    | inr (t', found) ↦
        let (u, from, whole, len) = slice_parts (suc n - len_utf8 (code c)) s t' found in
        let e : t ≡ String.◌∷◌ c t' = ground arith in
        (u, ground arith, rw e (cons-append c t' u ∙ ap (String.◌∷◌ c) whole), rw e (ground arith))
  ]
]
