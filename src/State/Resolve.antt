-- ===== src/State/Resolve.antt =====
-- Which actor a target names: crates/dreamwell-state/src/resolve.rs.
use Prim.Native.Char.{code}
use dreamwell.Common.{
  ℕ, ◌+◌, Bool, true, false, ◌&&◌, ◌||◌, not, Option, none, List, String, find, is_empty, leb,
  nat_beq, if◌then◌else◌, ◌==◌, string_eq, opt_map, unwrap_or,
}
use dreamwell.Common.Int.{ℤ, pos}
use dreamwell.Common.Dict.{lookup}
use dreamwell.State.Types.{SessionActor}

unfoldable pub normalize_target : String → String
normalize_target target = if target == "user" then "pc" else target

unfoldable pub should_vivify_actor : String → Bool
unfolding normalize_target
should_vivify_actor target =
    let normalized = normalize_target target in
    not (normalized == "world") && not (normalized == "pc")

-- A letter of the alphabet in lower case; any other code point as it is.
abbrev pub to_lower : ℕ → ℕ
to_lower c = if leb b'A' c && leb c b'Z' then c + 32 else c

unfoldable pub eq_ignore_ascii_case : String → String → Bool
eq_ignore_ascii_case String.[] String.[] = true
eq_ignore_ascii_case (String.◌∷◌ c s) (String.◌∷◌ d t) =
    nat_beq (to_lower (code c)) (to_lower (code d)) && eq_ignore_ascii_case s t
eq_ignore_ascii_case _ _ = false

unfoldable pub resolve_actor_id : String → List SessionActor → Option ℤ
unfolding normalize_target
resolve_actor_id target actors =
    let normalized = normalize_target target in
    let chosen =
      λ (a : SessionActor). a.role == normalized || eq_ignore_ascii_case a.name normalized in
    if normalized == "world"
    then none
    else if normalized == "pc"
    then opt_map (λ a. a.id) (find (λ a. a.role == "pc") actors)
    else opt_map (λ a. a.id) (find chosen actors)

unfoldable pub validate_skill : String → SessionActor → List String → String
validate_skill skill actor allowed_traits =
    if is_empty allowed_traits
    then skill
    else unwrap_or (find (λ name. eq_ignore_ascii_case name skill) allowed_traits) skill

unfoldable pub skill_modifier : String → SessionActor → ℤ
skill_modifier skill actor = unwrap_or (lookup skill actor.skills) (pos 0)
