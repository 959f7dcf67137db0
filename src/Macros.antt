-- ===== src/Macros.antt =====
-- The substitution of `{{macro}}` and `<<macro>>` in texts: crates/dreamwell-types/src/macros.rs.
pub mod Once
pub mod Laws
mod Tests
use Prim.Native.String
use Prim.Native.String.{◌++◌}
use Prim.Native.Char.{Char, code}
use dreamwell.Common.{
  ℕ, zero, suc, ◌+◌, Bool, true, false, ◌&&◌, Option, none, some, List, [], ◌∷◌, String,
  if◌then◌else◌, leb, nat_beq, find, opt_map, or_else, ◌==◌, string_eq,
}
use dreamwell.Common.Text.{trim, is_empty_text, nonempty}
use dreamwell.Summary.Plan.{Character}

-- The map of setup variables in the order of its iteration.
pub record MacroContext : Type 0 where
  pub char_name : String
  pub user_name : String
  pub persona : String
  pub description : String
  pub personality : String
  pub scenario : String
  pub first_message : String
  pub setup_vars : List (String × String)

unfoldable pub effective_user_name : MacroContext → String
effective_user_name ctx = if nonempty (trim ctx.user_name) then trim ctx.user_name else "User"

pub from_character_and_settings : Option Character → String → String → MacroContext
from_character_and_settings (some c) user_name persona = record {
  char_name = c.name;
  user_name = user_name;
  persona = persona;
  description = c.description;
  personality = c.personality;
  scenario = c.scenario;
  first_message = c.first_message;
  setup_vars = [];
}
from_character_and_settings none user_name persona = record {
  char_name = "Character";
  user_name = user_name;
  persona = persona;
  description = "";
  personality = "";
  scenario = "";
  first_message = "";
  setup_vars = [];
}

abbrev pub ascii_lower : ℕ → ℕ
ascii_lower c = if leb 65 c && leb c 90 then c + 32 else c

abbrev pub eq_ignore_ascii_case : String → String → Bool
eq_ignore_ascii_case String.[] String.[] = true
eq_ignore_ascii_case String.[] (String.◌∷◌ d t) = false
eq_ignore_ascii_case (String.◌∷◌ c s) String.[] = false
eq_ignore_ascii_case (String.◌∷◌ c s) (String.◌∷◌ d t) =
    nat_beq (ascii_lower (code c)) (ascii_lower (code d)) && eq_ignore_ascii_case s t

-- A setup variable: by its exact name, or else the first whose name differs only in case.
abbrev pub setup_value : String → List (String × String) → Option String
setup_value key vars =
    or_else
      (opt_map (λ (v : String × String). v.1) (find (λ (v : String × String). v.0 == key) vars))
      (opt_map (λ (v : String × String). v.1)
        (find (λ (v : String × String). eq_ignore_ascii_case v.0 key) vars))

unfoldable pub resolve_macro : String → MacroContext → Option String
unfolding effective_user_name
resolve_macro key ctx =
    if eq_ignore_ascii_case key "user"
    then some (effective_user_name ctx)
    else if eq_ignore_ascii_case key "char"
    then some ctx.char_name
    else if eq_ignore_ascii_case key "persona"
    then some ctx.persona
    else if eq_ignore_ascii_case key "description"
    then some ctx.description
    else if eq_ignore_ascii_case key "personality"
    then some ctx.personality
    else if eq_ignore_ascii_case key "scenario"
    then some ctx.scenario
    else if eq_ignore_ascii_case key "charfirstmessage"
    then some ctx.first_message
    else setup_value key ctx.setup_vars
