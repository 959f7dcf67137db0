-- ===== src/Macros/Tests.antt =====
-- The substitution's theorems at a greeting.
use Prim.Native.String.{◌++◌}
use dreamwell.Common.{◌≡◌, refl, [], ◌∷◌}
use dreamwell.Macros.{MacroContext}
use dreamwell.Macros.Once.{substitute_macros_once}
use dreamwell.Macros.Laws.{substitute_macros_once-macro, substitute_macros_once_unknown}

abbrev context : MacroContext
context = record {
  char_name = "Seraphina";
  user_name = "Alex";
  persona = "A curious traveler.";
  description = "A forest guardian.";
  personality = "Kind and wise.";
  scenario = "An enchanted forest.";
  first_message = "Welcome, {{user}}.";
  setup_vars = ("kingdom", "Avalon") ∷ [];
}

substitute_macros_once-macro_example :
    substitute_macros_once ("Hello, " ++ ("{{" ++ (" Char " ++ ("}}" ++ "!")))) context
    ≡ "Hello, " ++ ("Seraphina" ++ substitute_macros_once "!" context)
substitute_macros_once-macro_example =
    substitute_macros_once-macro "Hello, " " Char " "!" context 1 "char" "Seraphina" refl refl refl
      refl

substitute_macros_once_unknown_example :
    substitute_macros_once ("Hello, " ++ ("{{" ++ (" queen " ++ ("}}" ++ "!")))) context
    ≡ "Hello, " ++ (("{{" ++ ("queen" ++ "}}")) ++ substitute_macros_once "!" context)
substitute_macros_once_unknown_example =
    substitute_macros_once_unknown "Hello, " " queen " "!" context refl refl refl
