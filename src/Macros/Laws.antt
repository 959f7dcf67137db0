-- ===== src/Macros/Laws.antt =====
-- What a pass of crates/dreamwell-types/src/macros.rs does to a text.
use Prim.Native.String.{◌++◌}
use Prim.Native.Char.{Char, code}
use text.Mathlib.TextLemmas.{nil-append, cons-append}
use dreamwell.Common.{
  ℕ, zero, suc, ◌<◌, ◌≡◌, refl, ap, ◌∙◌, Bool, true, false, ◌&&◌, not, Option, none, some, String,
  arith, nat_beq, ==_iff, string_eq, ◌==◌, any, find, get_elem?, List, [], ◌∷◌, if◌then◌else◌,
  Bool-cases, inl, inr,
}
use dreamwell.Common.Text.{all_chars, trim, nonempty}
use dreamwell.Macros.{
  MacroContext, resolve_macro, effective_user_name, eq_ignore_ascii_case, setup_value,
}
use dreamwell.Macros.Once.{
  around, replaced, char_count, around-shorter, substitute_from-fuel, substitute_angle_macros,
  substitute_macros_once, passes, substitute_macros,
}

around-here :
    (c : Char) (s : String) → around (code c) (String.◌∷◌ c (String.◌∷◌ c s)) ≡ some ("", s)
around-here c s = ground arith

-- A doubled character is found behind a text without it.
around-append :
    (c : Char) (pre s : String)
    → all_chars (λ k. not (nat_beq k (code c))) pre ≡ true
    → around (code c) (pre ++ String.◌∷◌ c (String.◌∷◌ c s)) ≡ some (pre, s)
around-append c String.[] s h = rw (nil-append (String.◌∷◌ c (String.◌∷◌ c s))) (around-here c s)
around-append c (String.◌∷◌ d String.[]) s h =
    rw
      (cons-append d "" (String.◌∷◌ c (String.◌∷◌ c s)), nil-append (String.◌∷◌ c (String.◌∷◌ c s)))
      (ground (arith, around-here c s))
around-append c (String.◌∷◌ d (String.◌∷◌ e pre)) s h =
    let ih : around (code c) (String.◌∷◌ e pre ++ String.◌∷◌ c (String.◌∷◌ c s))
        ≡ some (String.◌∷◌ e pre, s) =
      around-append c (String.◌∷◌ e pre) s (ground arith) in
    rw
      (
        cons-append d (String.◌∷◌ e pre) (String.◌∷◌ c (String.◌∷◌ c s)),
        cons-append e pre (String.◌∷◌ c (String.◌∷◌ c s)),
      )
      (ground (arith, ap (around (code c)) (cons-append e pre (String.◌∷◌ c (String.◌∷◌ c s))), ih))

around_plain :
    (d : ℕ) (s : String) → all_chars (λ k. not (nat_beq k d)) s ≡ true → around d s ≡ none
around_plain d String.[] h = refl
around_plain d (String.◌∷◌ c String.[]) h = refl
around_plain d (String.◌∷◌ c (String.◌∷◌ e s)) h = ground (arith, around_plain d (String.◌∷◌ e s))

doubled :
    (c : Char) (s : String)
    → String.◌∷◌ c (String.◌∷◌ c String.[]) ++ s ≡ String.◌∷◌ c (String.◌∷◌ c s)
doubled c s =
    cons-append c (String.◌∷◌ c String.[]) s
    ∙ ap (String.◌∷◌ c) (cons-append c String.[] s ∙ ap (String.◌∷◌ c) (nil-append s))

-- A pass replaces what is between the marks and goes on behind them.
once-replaced :
    (pre raw rest : String) (ctx : MacroContext)
    → all_chars (λ k. not (nat_beq k b'{')) pre ≡ true
    → all_chars (λ k. not (nat_beq k b'}')) raw ≡ true
    → substitute_macros_once (pre ++ ("{{" ++ (raw ++ ("}}" ++ rest)))) ctx
      ≡ pre ++ (replaced "{{" "}}" ctx raw ++ substitute_macros_once rest ctx)
unfolding substitute_macros_once
once-replaced pre raw rest ctx h k =
    let inner = raw ++ ("}}" ++ rest) in
    let whole = pre ++ ("{{" ++ inner) in
    let opened : around b'{' whole ≡ some (pre, inner) =
      ap (λ t. around b'{' (pre ++ t)) (doubled "{" inner) ∙ around-append "{" pre inner h in
    let closed : around b'}' inner ≡ some (raw, rest) =
      ap (λ t. around b'}' (raw ++ t)) (doubled "}" rest) ∙ around-append "}" raw rest k in
    let shorter : char_count rest < char_count whole = omega (
      arith,
      around-shorter b'{' whole pre inner opened,
      around-shorter b'}' inner raw rest closed,
    ) in
    let (t, e, e') =
      substitute_from-fuel "{{" "}}" b'{' b'}' ctx (char_count whole) (suc (char_count rest)) rest
        shorter (omega arith) in
    rw (opened, closed, e, e') refl

-- What stands in place of a key, by what it resolves to.
abbrev inserted : String → Option String → String
inserted raw none = "{{" ++ (trim raw ++ "}}")
inserted raw (some value) = value

-- What the names of the macros stand for.
abbrev pub standing_for : MacroContext → List (String × String)
standing_for ctx =
    ("user", if nonempty (trim ctx.user_name) then trim ctx.user_name else "User")
    ∷ ("char", ctx.char_name)
    ∷ ("persona", ctx.persona)
    ∷ ("description", ctx.description)
    ∷ ("personality", ctx.personality)
    ∷ ("scenario", ctx.scenario)
    ∷ ("charfirstmessage", ctx.first_message)
    ∷ []

-- The name of no macro and of no setup variable, in any case of its letters.
abbrev pub is_unknown : String → MacroContext → Bool
is_unknown key ctx =
    not (any (λ (n : String × String). eq_ignore_ascii_case key n.0) (standing_for ctx))
    && (not (any (λ (v : String × String). v.0 == key) ctx.setup_vars)
        && not (any (λ (v : String × String). eq_ignore_ascii_case v.0 key) ctx.setup_vars))

-- Names that a key equals, up to case, are equal up to case.
eq_ignore_ascii_case_same :
    (key a b : String)
    → eq_ignore_ascii_case key a ≡ true
    → eq_ignore_ascii_case key b ≡ true
    → eq_ignore_ascii_case a b ≡ true
eq_ignore_ascii_case_same String.[] String.[] String.[] h k = refl
eq_ignore_ascii_case_same (String.◌∷◌ c s) (String.◌∷◌ d t) (String.◌∷◌ e u) h k =
    ground (arith, eq_ignore_ascii_case_same s t u)
eq_ignore_ascii_case_same s t u h k = absurd (cc)

other_name :
    (key a b : String)
    → eq_ignore_ascii_case key a ≡ true
    → eq_ignore_ascii_case a b ≡ false
    → eq_ignore_ascii_case key b ≡ false
other_name key a b h k = elim (Bool-cases (eq_ignore_ascii_case key b)) [
  | inl same ↦ absurd (cc (eq_ignore_ascii_case_same key a b h same, k))
  | inr other ↦ other
]

module _ (key a name value shown : String)
    (at : ◌≡◌ {A = Option (String × String)} (some (a, value)) (some (name, shown))) where
  key_named : eq_ignore_ascii_case key name ≡ true → eq_ignore_ascii_case key a ≡ true
  key_named h = let same : a ≡ name = cc at in ap (eq_ignore_ascii_case key) same ∙ h

  value_named : some value ≡ some shown
  value_named = let same : value ≡ shown = cc at in ap some same

resolve_macro-standing_for :
    (key : String) (ctx : MacroContext) (i : ℕ) (name value : String)
    → get_elem? (standing_for ctx) i ≡ some (name, value)
    → eq_ignore_ascii_case key name ≡ true
    → resolve_macro key ctx ≡ some value
unfolding resolve_macro effective_user_name
resolve_macro-standing_for key ctx zero name value at h =
    let named =
      key_named key "user" name
        (if nonempty (trim ctx.user_name) then trim ctx.user_name else "User") value at h in
    rw (named) (
      value_named key "user" name
        (if nonempty (trim ctx.user_name) then trim ctx.user_name else "User") value at)
resolve_macro-standing_for key ctx (suc zero) name value at h =
    let named = key_named key "char" name (ctx.char_name) value at h in
    rw (other_name key "char" "user" named refl, named)
      (value_named key "char" name (ctx.char_name) value at)
resolve_macro-standing_for key ctx (suc (suc zero)) name value at h =
    let named = key_named key "persona" name (ctx.persona) value at h in
    rw
      (
        other_name key "persona" "user" named refl,
        other_name key "persona" "char" named refl,
        named,
      )
      (value_named key "persona" name (ctx.persona) value at)
resolve_macro-standing_for key ctx (suc (suc (suc zero))) name value at h =
    let named = key_named key "description" name (ctx.description) value at h in
    rw
      (
        other_name key "description" "user" named refl,
        other_name key "description" "char" named refl,
        other_name key "description" "persona" named refl,
        named,
      )
      (value_named key "description" name (ctx.description) value at)
resolve_macro-standing_for key ctx (suc (suc (suc (suc zero)))) name value at h =
    let named = key_named key "personality" name (ctx.personality) value at h in
    rw
      (
        other_name key "personality" "user" named refl,
        other_name key "personality" "char" named refl,
        other_name key "personality" "persona" named refl,
        other_name key "personality" "description" named refl,
        named,
      )
      (value_named key "personality" name (ctx.personality) value at)
resolve_macro-standing_for key ctx (suc (suc (suc (suc (suc zero))))) name value at h =
    let named = key_named key "scenario" name (ctx.scenario) value at h in
    rw
      (
        other_name key "scenario" "user" named refl,
        other_name key "scenario" "char" named refl,
        other_name key "scenario" "persona" named refl,
        other_name key "scenario" "description" named refl,
        other_name key "scenario" "personality" named refl,
        named,
      )
      (value_named key "scenario" name (ctx.scenario) value at)
resolve_macro-standing_for key ctx (suc (suc (suc (suc (suc (suc zero)))))) name value at h =
    let named = key_named key "charfirstmessage" name (ctx.first_message) value at h in
    rw
      (
        other_name key "charfirstmessage" "user" named refl,
        other_name key "charfirstmessage" "char" named refl,
        other_name key "charfirstmessage" "persona" named refl,
        other_name key "charfirstmessage" "description" named refl,
        other_name key "charfirstmessage" "personality" named refl,
        other_name key "charfirstmessage" "scenario" named refl,
        named,
      )
      (value_named key "charfirstmessage" name (ctx.first_message) value at)
resolve_macro-standing_for key ctx (suc (suc (suc (suc (suc (suc (suc i))))))) name value at h =
    absurd (cc)

find-none {ℓ} : {A : Type ℓ} (p : A → Bool) (l : List A) → any p l ≡ false → find p l ≡ none
find-none p [] h = refl
find-none p (x ∷ l) h = ground (arith, find-none p l)

resolve_macro_unknown :
    (key : String) (ctx : MacroContext) → is_unknown key ctx ≡ true → resolve_macro key ctx ≡ none
unfolding resolve_macro
resolve_macro_unknown key ctx h =
    let exact : find (λ (v : String × String). v.0 == key) ctx.setup_vars ≡ none =
      find-none _ ctx.setup_vars (ground arith) in
    let near : find (λ (v : String × String). eq_ignore_ascii_case v.0 key) ctx.setup_vars ≡ none =
      find-none _ ctx.setup_vars (ground arith) in
    let plain : setup_value key ctx.setup_vars ≡ none = rw (exact, near) refl in
    ground (arith, plain)

-- A pass replaces the name of a macro between its marks, in any case of its letters and with spaces
-- around it, by what the name stands for, and goes on behind it, if the text before has no opening
-- brace and the name no closing brace.
pub substitute_macros_once-macro :
    (pre raw rest : String) (ctx : MacroContext) (i : ℕ) (name value : String)
    → all_chars (λ k. not (nat_beq k b'{')) pre ≡ true
    → all_chars (λ k. not (nat_beq k b'}')) raw ≡ true
    → get_elem? (standing_for ctx) i ≡ some (name, value)
    → eq_ignore_ascii_case (trim raw) name ≡ true
    → substitute_macros_once (pre ++ ("{{" ++ (raw ++ ("}}" ++ rest)))) ctx
      ≡ pre ++ (value ++ substitute_macros_once rest ctx)
substitute_macros_once-macro pre raw rest ctx i name value h k at same =
    once-replaced pre raw rest ctx h k
    ∙ ap (λ o. pre ++ (inserted raw o ++ substitute_macros_once rest ctx))
        (resolve_macro-standing_for (trim raw) ctx i name value at same)

-- A name of no macro and of no setup variable stays between its marks, but the spaces around it are
-- dropped, and the pass goes on behind it, if the text before has no opening brace and the name no
-- closing brace.
pub substitute_macros_once_unknown :
    (pre raw rest : String) (ctx : MacroContext)
    → all_chars (λ k. not (nat_beq k b'{')) pre ≡ true
    → all_chars (λ k. not (nat_beq k b'}')) raw ≡ true
    → is_unknown (trim raw) ctx ≡ true
    → substitute_macros_once (pre ++ ("{{" ++ (raw ++ ("}}" ++ rest)))) ctx
      ≡ pre ++ (("{{" ++ (trim raw ++ "}}")) ++ substitute_macros_once rest ctx)
substitute_macros_once_unknown pre raw rest ctx h k unknown =
    once-replaced pre raw rest ctx h k
    ∙ ap (λ o. pre ++ (inserted raw o ++ substitute_macros_once rest ctx))
        (resolve_macro_unknown (trim raw) ctx unknown)

passes_fixed :
    (ctx : MacroContext) (n : ℕ) (text : String)
    → substitute_macros_once text ctx ≡ text
    → passes ctx n text ≡ text
unfolding passes
passes_fixed ctx zero text h = refl
passes_fixed ctx (suc n) text h = ground (arith, ==_iff (substitute_macros_once text ctx) text)

angle_plain :
    (text : String) (ctx : MacroContext)
    → all_chars (λ k. not (nat_beq k b'<')) text ≡ true
    → substitute_angle_macros text ctx ≡ text
unfolding substitute_angle_macros
angle_plain text ctx k = rw (around_plain b'<' text k) refl

once_plain :
    (text : String) (ctx : MacroContext)
    → all_chars (λ k. not (nat_beq k b'{')) text ≡ true
    → substitute_macros_once text ctx ≡ text
unfolding substitute_macros_once
once_plain text ctx h = rw (around_plain b'{' text h) refl

-- A text without `{` and `<` is left as it is.
pub substitute_macros_plain :
    (text : String) (ctx : MacroContext)
    → all_chars (λ k. not (nat_beq k b'{')) text ≡ true
    → all_chars (λ k. not (nat_beq k b'<')) text ≡ true
    → substitute_macros text ctx ≡ text
unfolding substitute_macros
substitute_macros_plain text ctx h k =
    ap (passes ctx 8) (angle_plain text ctx k) ∙ passes_fixed ctx 8 text (once_plain text ctx h)
