-- ===== src/Tools/Holdback.antt =====
-- The prose that a stream holds back: `emit_prose_holdback` of `ToolStreamJail` in
-- crates/server/src/tool_stream.rs.
use Prim.Native.String.{◌++◌}
use Prim.Native.Char.{Char, code}
use text.Mathlib.TextLemmas.{nil-append}
use dreamwell.Common.{
  ℕ, zero, suc, ◌+◌, ◌-◌, ◌≤◌, ◌≡◌, refl, sym, ap, ◌∙◌, Bool, true, false, Option, none, some,
  String, if◌then◌else◌, arith, opt_map, unwrap_or, and_then, nat_beq, leb, ◌≢◌, is_some,
  Option-cases, Bool-cases, inl, inr,
}
use dreamwell.Common.Text.Utf8.{
  byte_len, len_utf8, len_utf8-pos, slice_to, slice_from, slice_parts, byte_len-append,
}

abbrev pub holdback_chars : ℕ
holdback_chars = 64

abbrev pub is_char_boundary : ℕ → String → Bool
is_char_boundary n s = is_some (slice_to n s)

-- The loop that moves the end of the slice back to a boundary.
unfoldable pub boundary_before : ℕ → String → ℕ
boundary_before zero s = zero
boundary_before (suc n) s =
    let earlier = boundary_before n s in if is_char_boundary (suc n) s then suc n else earlier

-- The event, if there is one, and the buffer; `none` is a panic of the slices.
unfoldable pub emit_prose_holdback : String → Option (Option String × String)
unfolding boundary_before
emit_prose_holdback buffer =
    let split = boundary_before (byte_len buffer - holdback_chars) buffer in
    if leb (byte_len buffer) holdback_chars
    then some (none, buffer)
    else if nat_beq split 0
    then some (none, buffer)
    else and_then (slice_to split buffer)
        (λ emit. opt_map (λ rest. (some emit, rest)) (slice_from split buffer))

boundary-cons :
    (m : ℕ) (c : Char) (s : String)
    → is_char_boundary m s ≡ true
    → is_char_boundary (m + len_utf8 (code c)) (String.◌∷◌ c s) ≡ true
unfolding slice_to
boundary-cons m c s h =
    let back : m + len_utf8 (code c) - len_utf8 (code c) ≡ m = omega arith in
    let some_left : nat_beq (m + len_utf8 (code c)) 0 ≡ false =
      ground (arith, len_utf8-pos (code c)) in
    let fits : leb (len_utf8 (code c)) (m + len_utf8 (code c)) ≡ true = ground arith in
    rw (some_left, fits, back) (ground arith)

-- One of four bytes in a row is a boundary.
near :
    (n : ℕ) (s : String)
    → n ≤ byte_len s
    → (m : ℕ) × (m ≤ n) × (n ≤ m + 3) × (is_char_boundary m s ≡ true)
unfolding byte_len slice_to
near zero String.[] h = (0, omega arith, omega arith, refl)
near (suc n) String.[] h = absurd (omega arith)
near n (String.◌∷◌ c s) h = elim (Bool-cases (leb (len_utf8 (code c)) n)) [
  | inr inside ↦ (0, omega arith, ground arith, refl)
  | inl fits ↦
      let (m, low, high, boundary) = near (n - len_utf8 (code c)) s (ground arith) in
      (m + len_utf8 (code c), ground arith, ground arith, boundary-cons m c s boundary)
]

boundary_before-ge :
    (n m : ℕ) (s : String)
    → m ≤ n
    → is_char_boundary m s ≡ true
    → (m ≤ boundary_before n s) × (boundary_before n s ≤ n)
unfolding boundary_before
boundary_before-ge zero m s h k = (h, omega arith)
boundary_before-ge (suc n) m s h k = elim (Bool-cases (is_char_boundary (suc n) s)) [
  | inl here ↦ rw here (h, omega arith)
  | inr inside ↦ elim (Bool-cases (nat_beq m (suc n))) [
    | inl last ↦
        let e : m ≡ suc n = ground arith in
        absurd (cc (k, inside, ap (λ i. is_char_boundary i s) e))
    | inr before ↦
        let (low, high) = boundary_before-ge n m s (ground arith) k in
        rw inside (low, omega (arith, high))
  ]
]

boundary_before-boundary : (n : ℕ) (s : String) → is_char_boundary (boundary_before n s) s ≡ true
unfolding boundary_before slice_to
boundary_before-boundary zero String.[] = refl
boundary_before-boundary zero (String.◌∷◌ c s) = refl
boundary_before-boundary (suc n) s = elim (Bool-cases (is_char_boundary (suc n) s)) [
  | inl here ↦ rw here here
  | inr inside ↦ rw inside (boundary_before-boundary n s)
]

-- Nothing is lost: what is emitted and the buffer that is left make the buffer, and the slices do not
-- panic. At most 67 bytes are held back, and an event is not empty.
pub emit_prose_holdback_lem :
    (buffer : String)
    → (event : Option String) × (left : String) × (emit_prose_holdback buffer ≡ some (event, left))
      × (unwrap_or event "" ++ left ≡ buffer)
      × (byte_len left ≤ 67)
      × (event ≢ some "")
unfolding emit_prose_holdback byte_len
emit_prose_holdback_lem buffer = elim (Bool-cases (leb (byte_len buffer) holdback_chars)) [
  | inl short ↦ (none, buffer, rw short refl, nil-append buffer, ground arith, cc)
  | inr long ↦
      let n : ℕ = byte_len buffer - holdback_chars in
      let (m, low, high, boundary) = near n buffer (omega arith) in
      let (above, below) = boundary_before-ge n m buffer low boundary in
      elim (Bool-cases (nat_beq (boundary_before n buffer) 0)) [
        | inl nothing ↦ (none, buffer, rw (long, nothing) refl, nil-append buffer, ground arith, cc)
        | inr something ↦ elim (Option-cases (slice_to (boundary_before n buffer) buffer)) [
          | inl inside ↦
              absurd (
                cc
                  (boundary_before-boundary n buffer, ap (λ (o : Option String). is_some o) inside))
          | inr (emit, to) ↦
              let (left, from, whole, len) =
                slice_parts (boundary_before n buffer) buffer emit to in
              let total : byte_len buffer ≡ byte_len emit + byte_len left =
                ap byte_len (sym whole) ∙ byte_len-append emit left in
              (
                some emit,
                left,
                rw (long, something, to) (rw from refl),
                whole,
                ground arith,
                λ e.
                    let z : byte_len emit ≡ 0 = ap (λ o. byte_len (unwrap_or o "")) e in
                    absurd (ground arith),
              )
        ]
      ]
]
