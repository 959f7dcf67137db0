-- ===== src/Macros/Once.antt =====
-- One pass of the substitution of crates/dreamwell-types/src/macros.rs and the repeated passes.
use Prim.Native.String.{◌++◌}
use Prim.Native.Char.{code}
use dreamwell.Common.{
  ℕ, zero, suc, ◌<◌, ◌≡◌, refl, inl, inr, ◌&&◌, Option, none, some, String, if◌then◌else◌, arith,
  nat_beq, opt_map, unwrap_or, ◌==◌, string_eq, Option-cases, Bool-cases,
}
use dreamwell.Common.Text.{trim}
use dreamwell.Macros.{MacroContext, resolve_macro}

-- The text before and behind the first doubled character: `find("{{")` and the slices around it.
abbrev pub around : ℕ → String → Option (String × String)
around d String.[] = none
around d (String.◌∷◌ c String.[]) = none
around d (String.◌∷◌ c (String.◌∷◌ e s)) =
    let later = around d (String.◌∷◌ e s) in
    if nat_beq (code c) d && nat_beq (code e) d
    then some ("", s)
    else opt_map (λ (p : String × String). (String.◌∷◌ c p.0, p.1)) later

-- What a key between the marks becomes.
abbrev pub replaced : String → String → MacroContext → String → String
replaced open_mark close_mark ctx raw = elim (resolve_macro (trim raw) ctx) [
  | some value ↦ value
  | none ↦ open_mark ++ (trim raw ++ close_mark)
]

-- The loop over the rest of the text; `none` means that the fuel ran out.
module _ (open_mark close_mark : String) (open_char close_char : ℕ) (ctx : MacroContext) where
  -- What follows the search for the closing mark and that for the opening one; `loop` goes on behind them.
  abbrev pub closing :
      (String → Option String) → String → String → Option (String × String) → Option String
  closing loop before behind none = some (before ++ (open_mark ++ behind))
  closing loop before behind (some (raw, rest)) =
      opt_map (λ t. before ++ (replaced open_mark close_mark ctx raw ++ t)) (loop rest)

  abbrev pub opening : (String → Option String) → String → Option (String × String) → Option String
  opening loop rest none = some rest
  opening loop rest (some (before, behind)) = closing loop before behind (around close_char behind)

  unfoldable pub substitute_from : ℕ → String → Option String
  substitute_from zero rest = none
  substitute_from (suc fuel) rest = opening (substitute_from fuel) rest (around open_char rest)

abbrev pub char_count : String → ℕ
char_count String.[] = 0
char_count (String.◌∷◌ c s) = suc (char_count s)

pub around-shorter :
    (d : ℕ) (s before behind : String)
    → around d s ≡ some (before, behind)
    → char_count behind < char_count s
around-shorter d String.[] before behind h = absurd (cc)
around-shorter d (String.◌∷◌ c String.[]) before behind h = absurd (cc)
around-shorter d (String.◌∷◌ c (String.◌∷◌ e s)) before behind h =
    elim (Bool-cases (nat_beq (code c) d && nat_beq (code e) d)) [
      | inl here ↦
          let found : ◌≡◌ {A = Option (String × String)} (some ("", s)) (some (before, behind)) =
            rw here at h in
          let same : s ≡ behind = cc in rw (← same) (omega arith)
      | inr later ↦ elim (Option-cases (around d (String.◌∷◌ e s))) [
        | inl gone ↦
            let bad : ◌≡◌ {A = Option (String × String)} none (some (before, behind)) =
              rw (later, gone) at h in
            absurd (cc)
        | inr ((b, r), found) ↦
            let got : ◌≡◌ {A = Option (String × String)} (some (String.◌∷◌ c b, r))
                (some (before, behind)) =
              rw (later, found) at h in
            let same : r ≡ behind = cc in
            rw (← same) (omega (arith, around-shorter d (String.◌∷◌ e s) b r found))
      ]
    ]

module _ (open_mark close_mark : String) (open_char close_char : ℕ) (ctx : MacroContext) where
  -- The loop's result does not depend on the fuel, once that is larger than the text.
  pub substitute_from-fuel :
      (f g : ℕ) (rest : String)
      → char_count rest < f
      → char_count rest < g
      → (t : String) × (substitute_from open_mark close_mark open_char close_char ctx f rest
          ≡ some t)
        × (substitute_from open_mark close_mark open_char close_char ctx g rest ≡ some t)
  unfolding substitute_from
  substitute_from-fuel zero g rest h k = absurd (omega arith)
  substitute_from-fuel (suc f) zero rest h k = absurd (omega arith)
  substitute_from-fuel (suc f) (suc g) rest h k = elim (Option-cases (around open_char rest)) [
    | inl none_open ↦ (rest, rw none_open refl, rw none_open refl)
    | inr ((before, behind), opened) ↦ elim (Option-cases (around close_char behind)) [
      | inl unclosed ↦
          (before ++ (open_mark ++ behind), rw (opened, unclosed) refl, rw (opened, unclosed) refl)
      | inr ((raw, behind'), closed) ↦
          let shorter : char_count behind' < char_count rest = omega (
            arith,
            around-shorter open_char rest before behind opened,
            around-shorter close_char behind raw behind' closed,
          ) in
          let (t, e, e') =
            substitute_from-fuel f g behind' (omega (arith, h, shorter))
              (omega (arith, k, shorter)) in
          (
            before ++ (replaced open_mark close_mark ctx raw ++ t),
            rw (opened, closed, e) refl,
            rw (opened, closed, e') refl,
          )
    ]
  ]

-- The fuel is enough for the text, so that the default is not used.
unfoldable pub substitute_angle_macros : String → MacroContext → String
unfolding substitute_from
substitute_angle_macros text ctx =
    unwrap_or (substitute_from "<<" ">>" b'<' b'>' ctx (suc (char_count text)) text) text

unfoldable pub substitute_macros_once : String → MacroContext → String
unfolding substitute_from
substitute_macros_once text ctx =
    unwrap_or (substitute_from "{{" "}}" b'{' b'}' ctx (suc (char_count text)) text) text

unfoldable pub passes : MacroContext → ℕ → String → String
unfolding substitute_macros_once
passes ctx zero current = current
passes ctx (suc n) current =
    let later = passes ctx n (substitute_macros_once current ctx) in
    if substitute_macros_once current ctx == current then current else later

unfoldable pub substitute_macros : String → MacroContext → String
substitute_macros text ctx = passes ctx 8 (substitute_angle_macros text ctx)
