-- ===== src/Tools/Braces.antt =====
-- The content of balanced brackets: `balanced_brace_content` and `balanced_bracket_content` of
-- crates/server/src/tool_stream.rs.
use Prim.Native.String.{◌++◌}
use Prim.Native.Char.{Char, code}
use text.Mathlib.TextLemmas.{nil-append, cons-append}
use dreamwell.Common.{
  ℕ, suc, ◌+◌, ◌-◌, ◌≡◌, refl, sym, ap, ◌∙◌, false, ◌&&◌, Option, none, some, String, if◌then◌else◌,
  arith, opt_map, nat_beq, Option-cases, Bool-cases, inl, inr,
}
use dreamwell.Common.Text.Utf8.{byte_len}

-- The loop behind the first bracket: the text before the bracket that closes it and the text behind.
module _ (opening closing : ℕ) where
  abbrev pub depth_after : ℕ → Char → ℕ
  depth_after depth c =
      if nat_beq (code c) opening
      then suc depth
      else if nat_beq (code c) closing
      then depth - 1
      else depth

  unfoldable pub scan : ℕ → String → Option (String × String)
  scan depth String.[] = none
  scan depth (String.◌∷◌ c s) =
      let rest = opt_map (λ p. (String.◌∷◌ c p.0, p.1)) (scan (depth_after depth c) s) in
      if nat_beq (code c) closing && nat_beq (depth_after depth c) 0 then some ("", s) else rest

  -- The content, and the bytes of it and its brackets.
  unfoldable pub balanced_content : String → Option (String × ℕ)
  unfolding scan
  balanced_content String.[] = none
  balanced_content (String.◌∷◌ c s) =
      let found = opt_map (λ p. (p.0, byte_len p.0 + 2)) (scan 1 s) in
      if nat_beq (code c) opening then found else none

  -- The depth behind a text, if no bracket closes one that was not opened.
  abbrev pub level : ℕ → String → Option ℕ
  level depth String.[] = some depth
  level depth (String.◌∷◌ c s) =
      let rest = level (depth_after depth c) s in
      if nat_beq (code c) closing && nat_beq depth 0 then none else rest

abbrev pub balanced_brace_content : String → Option (String × ℕ)
unfolding balanced_content
balanced_brace_content s = balanced_content b'{' b'}' s

abbrev pub balanced_bracket_content : String → Option (String × ℕ)
unfolding balanced_content
balanced_bracket_content s = balanced_content b'[' b']' s

module _ (opening closing : ℕ) (apart : nat_beq opening closing ≡ false) where
  -- A character that does not close the last bracket leaves one open.
  depth_down :
      (depth : ℕ) (c : Char)
      → (nat_beq (code c) closing && nat_beq (depth_after opening closing (suc depth) c) 0) ≡ false
      → (k : ℕ) × (depth_after opening closing (suc depth) c ≡ suc k)
        × ((t : String) → level opening closing depth (String.◌∷◌ c t) ≡ level opening closing k t)
  depth_down depth c h = elim (Bool-cases (nat_beq (code c) opening)) [
    | inl o ↦
        let other : nat_beq (code c) closing ≡ false = ground arith in
        (suc depth, ground arith, λ t. rw (o, other) refl)
    | inr o ↦ elim (Bool-cases (nat_beq (code c) closing)) [
      | inr plain ↦ (depth, ground arith, λ t. rw (o, plain) refl)
      | inl closes ↦
          let opened : nat_beq depth 0 ≡ false = ground arith in
          (depth - 1, ground arith, λ t. rw (o, closes, opened) refl)
    ]
  ]

  scan-level :
      (depth : ℕ) (s inner rest : String)
      → scan opening closing (suc depth) s ≡ some (inner, rest)
      → (c : Char) × (code c ≡ closing)
        × (s ≡ inner ++ String.◌∷◌ c rest)
        × (level opening closing depth inner ≡ some 0)
  unfolding scan
  scan-level depth String.[] inner rest h = absurd (ground arith)
  scan-level depth (String.◌∷◌ c s) inner rest h =
      elim (Bool-cases
        (nat_beq (code c) closing && nat_beq (depth_after opening closing (suc depth) c) 0)) [
          | inl closes ↦
              let e : inner ≡ "" = ground arith in
              let f : rest ≡ s = ground arith in
              (c, ground arith, rw (e, f) (sym (nil-append (String.◌∷◌ c s))), rw e (ground arith))
          | inr opens ↦
              elim (Option-cases
                (scan opening closing (depth_after opening closing (suc depth) c) s)) [
                  | inl open_end ↦ absurd (ground arith)
                  | inr ((inner', rest'), found) ↦
                      let (k, down, same) = depth_down depth c opens in
                      let (x, is, whole, ends) =
                        scan-level k s inner' rest'
                          (ap (λ d. scan opening closing d s) (sym down) ∙ found) in
                      let e : inner ≡ String.◌∷◌ c inner' = ground arith in
                      let f : rest ≡ rest' = ground arith in
                      (
                        x,
                        is,
                        rw (e, f)
                            (ap (String.◌∷◌ c) whole
                              ∙ sym (cons-append c inner' (String.◌∷◌ x rest'))),
                        rw e (same inner' ∙ ends),
                      )
                ]
        ]

  -- What is found is the text between a bracket and the one that closes it, in which every
  -- other bracket is closed, and its bytes are those of the text and the two brackets, if
  -- the two brackets differ.
  pub balanced_content_lem :
      (s inner : String) (size : ℕ)
      → balanced_content opening closing s ≡ some (inner, size)
      → (c d : Char) × (rest : String) × (code c ≡ opening)
        × (code d ≡ closing)
        × (s ≡ String.◌∷◌ c (inner ++ String.◌∷◌ d rest))
        × (level opening closing 0 inner ≡ some 0)
        × (size ≡ byte_len inner + 2)
  unfolding balanced_content
  balanced_content_lem String.[] inner size h = absurd (ground arith)
  balanced_content_lem (String.◌∷◌ c s) inner size h =
      elim (Bool-cases (nat_beq (code c) opening)) [
        | inr other ↦ absurd (ground arith)
        | inl opens ↦ elim (Option-cases (scan opening closing 1 s)) [
          | inl open_end ↦ absurd (ground arith)
          | inr ((inner', rest), found) ↦
              let (d, is, whole, ends) = scan-level 0 s inner' rest found in
              let e : inner ≡ inner' = ground arith in
              (
                c,
                d,
                rest,
                ground arith,
                is,
                rw e (ap (String.◌∷◌ c) whole),
                rw e ends,
                ground arith,
              )
        ]
      ]
