-- ===== src/Client/Router/Segments.antt =====
-- The segments that `to_path` of crates/frontend/src/router.rs writes.
use mathlib.Core.List
use Prim.Native.String.{◌++◌}
use text.Mathlib.TextLemmas.{append-nil, append_assoc}
use dreamwell.Common.{
  ◌≡◌, refl, sym, ap, ◌∙◌, Bool, true, false, Option, none, some, List, [], ◌∷◌, String, All,
  if◌then◌else◌,
}
use dreamwell.Common.Int.{ℤ}
use dreamwell.Common.Decimal.{show_ℤ}
use dreamwell.Common.Text.{join}
use dreamwell.Client.Router.{
  Overlay, variables, new_chat, new_game, state, StoryNav, collapsed, basics, chapter, beat,
  AppRoute, chats, stories, games, queue, settings, characters, scenarios, overlay_parts, nav_parts,
  overlay_segment, to_path,
}
use dreamwell.Client.Router.Paths.{IsSegment, path_of, show_ℤ-IsSegment}

abbrev pub id_parts : Option ℤ → List String
id_parts none = []
id_parts (some id) = show_ℤ id ∷ []

abbrev pub target_parts : String → Option ℤ → List String
target_parts label none = []
target_parts label (some id) = label ∷ show_ℤ id ∷ []

abbrev pub tail_parts : AppRoute → List String
tail_parts (chats chat_id shown) = List.◌++◌ (id_parts chat_id) (overlay_parts shown)
tail_parts (stories none nav reading shown) = overlay_parts shown
tail_parts (stories (some id) nav reading shown) =
    show_ℤ id ∷ List.◌++◌ (if reading then "reading" ∷ [] else nav_parts nav) (overlay_parts shown)
tail_parts (games game_id shown) = List.◌++◌ (id_parts game_id) (overlay_parts shown)
tail_parts queue = []
tail_parts settings = []
tail_parts (characters character_id chat_id) =
    List.◌++◌ (id_parts character_id) (target_parts "chat" chat_id)
tail_parts (scenarios scenario_id game_id) =
    List.◌++◌ (id_parts scenario_id) (target_parts "game" game_id)

abbrev pub head_part : AppRoute → String
head_part (chats chat_id shown) = "chats"
head_part (stories story_id nav reading shown) = "stories"
head_part (games game_id shown) = "games"
head_part queue = "queue"
head_part settings = "settings"
head_part (characters character_id chat_id) = "characters"
head_part (scenarios scenario_id game_id) = "scenarios"

-- A literal path in front of what follows it.
after_literal : (a s : String) → ("/" ++ (a ++ "/")) ++ s ≡ "/" ++ (a ++ ("/" ++ s))
after_literal a s = simp append_assoc

id_path : (a s : String) → ("/" ++ (a ++ "/")) ++ s ≡ path_of (a ∷ s ∷ [])
id_path a s = simp (append_assoc, append-nil)

id_path_more :
    (a s b : String) → ("/" ++ (a ++ "/")) ++ (s ++ ("/" ++ b)) ≡ path_of (a ∷ s ∷ b ∷ [])
id_path_more a s b = simp (append_assoc, append-nil)

target_path : (a b s : String) → ("/" ++ (a ++ ("/" ++ (b ++ "/")))) ++ s ≡ path_of (a ∷ b ∷ s ∷ [])
target_path a b s = simp (append_assoc, append-nil)

id_target_path :
    (a s b t : String)
    → ("/" ++ (a ++ "/")) ++ (s ++ (("/" ++ (b ++ "/")) ++ t)) ≡ path_of (a ∷ s ∷ b ∷ t ∷ [])
id_target_path a s b t = simp (append_assoc, append-nil)

join-path_of : (s : String) (parts : List String) → join "/" (s ∷ parts) ≡ s ++ path_of parts
join-path_of s [] = sym (append-nil s)
join-path_of s (t ∷ parts) = ap (λ u. s ++ ("/" ++ u)) (join-path_of t parts)

story_path :
    (s : String) (parts : List String)
    → join "/" (("/stories/" ++ s) ∷ parts) ≡ path_of ("stories" ∷ s ∷ parts)
story_path s parts =
    join-path_of ("/stories/" ++ s) parts
    ∙ append_assoc "/stories/" s (path_of parts)
    ∙ after_literal "stories" (s ++ path_of parts)

-- The path of a route is that of its segments.
pub to_path-path_of : (r : AppRoute) → to_path r ≡ path_of (head_part r ∷ tail_parts r)
unfolding to_path
to_path-path_of (chats none none) = refl
to_path-path_of (chats none (some variables)) = refl
to_path-path_of (chats none (some new_chat)) = refl
to_path-path_of (chats none (some new_game)) = refl
to_path-path_of (chats none (some state)) = refl
to_path-path_of (chats (some id) none) = id_path "chats" (show_ℤ id)
to_path-path_of (chats (some id) (some shown)) =
    id_path_more "chats" (show_ℤ id) (overlay_segment shown)
to_path-path_of (stories none nav reading none) = refl
to_path-path_of (stories none nav reading (some variables)) = refl
to_path-path_of (stories none nav reading (some new_chat)) = refl
to_path-path_of (stories none nav reading (some new_game)) = refl
to_path-path_of (stories none nav reading (some state)) = refl
to_path-path_of (stories (some id) nav reading shown) =
    story_path (show_ℤ id)
      (List.◌++◌ (if reading then "reading" ∷ [] else nav_parts nav) (overlay_parts shown))
to_path-path_of (games none none) = refl
to_path-path_of (games none (some variables)) = refl
to_path-path_of (games none (some new_chat)) = refl
to_path-path_of (games none (some new_game)) = refl
to_path-path_of (games none (some state)) = refl
to_path-path_of (games (some id) none) = id_path "games" (show_ℤ id)
to_path-path_of (games (some id) (some shown)) =
    id_path_more "games" (show_ℤ id) (overlay_segment shown)
to_path-path_of queue = refl
to_path-path_of settings = refl
to_path-path_of (characters none none) = refl
to_path-path_of (characters (some id) none) = id_path "characters" (show_ℤ id)
to_path-path_of (characters none (some chat_id)) = target_path "characters" "chat" (show_ℤ chat_id)
to_path-path_of (characters (some id) (some chat_id)) =
    id_target_path "characters" (show_ℤ id) "chat" (show_ℤ chat_id)
to_path-path_of (scenarios none none) = refl
to_path-path_of (scenarios (some id) none) = id_path "scenarios" (show_ℤ id)
to_path-path_of (scenarios none (some game_id)) = target_path "scenarios" "game" (show_ℤ game_id)
to_path-path_of (scenarios (some id) (some game_id)) =
    id_target_path "scenarios" (show_ℤ id) "game" (show_ℤ game_id)

overlay_segment-IsSegment : (shown : Overlay) → IsSegment (overlay_segment shown)
overlay_segment-IsSegment variables = (refl, refl)
overlay_segment-IsSegment new_chat = (refl, refl)
overlay_segment-IsSegment new_game = (refl, refl)
overlay_segment-IsSegment state = (refl, refl)

overlay_parts-IsSegment : (shown : Option Overlay) → All IsSegment (overlay_parts shown)
overlay_parts-IsSegment none = tt
overlay_parts-IsSegment (some shown) = (overlay_segment-IsSegment shown, tt)

All-append :
    (xs ys : List String) → All IsSegment xs → All IsSegment ys → All IsSegment (List.◌++◌ xs ys)
All-append [] ys h k = k
All-append (x ∷ xs) ys h k = (h.0, All-append xs ys h.1 k)

id_parts-IsSegment : (id : Option ℤ) → All IsSegment (id_parts id)
id_parts-IsSegment none = tt
id_parts-IsSegment (some id) = (show_ℤ-IsSegment id, tt)

target_parts-IsSegment :
    (label : String) (id : Option ℤ) → IsSegment label → All IsSegment (target_parts label id)
target_parts-IsSegment label none h = tt
target_parts-IsSegment label (some id) h = (h, (show_ℤ-IsSegment id, tt))

section_parts-IsSegment :
    (reading : Bool) (nav : StoryNav)
    → All IsSegment (if reading then "reading" ∷ [] else nav_parts nav)
section_parts-IsSegment true nav = ((refl, refl), tt)
section_parts-IsSegment false collapsed = tt
section_parts-IsSegment false basics = ((refl, refl), tt)
section_parts-IsSegment false (chapter c) = ((refl, refl), (show_ℤ-IsSegment c, tt))
section_parts-IsSegment false (beat c b) =
    ((refl, refl), (show_ℤ-IsSegment c, ((refl, refl), (show_ℤ-IsSegment b, tt))))

pub parts-IsSegment : (r : AppRoute) → All IsSegment (head_part r ∷ tail_parts r)
parts-IsSegment (chats c shown) = (
  (refl, refl),
  All-append (id_parts c) (overlay_parts shown) (id_parts-IsSegment c)
      (overlay_parts-IsSegment shown),
)
parts-IsSegment (stories none nav reading shown) = ((refl, refl), overlay_parts-IsSegment shown)
parts-IsSegment (stories (some id) nav reading shown) = (
  (refl, refl),
  (
    show_ℤ-IsSegment id,
    All-append (if reading then "reading" ∷ [] else nav_parts nav) (overlay_parts shown)
        (section_parts-IsSegment reading nav) (overlay_parts-IsSegment shown),
  ),
)
parts-IsSegment (games c shown) = (
  (refl, refl),
  All-append (id_parts c) (overlay_parts shown) (id_parts-IsSegment c)
      (overlay_parts-IsSegment shown),
)
parts-IsSegment queue = ((refl, refl), tt)
parts-IsSegment settings = ((refl, refl), tt)
parts-IsSegment (characters a b) = (
  (refl, refl),
  All-append (id_parts a) (target_parts "chat" b) (id_parts-IsSegment a)
      (target_parts-IsSegment "chat" b (refl, refl)),
)
parts-IsSegment (scenarios a b) = (
  (refl, refl),
  All-append (id_parts a) (target_parts "game" b) (id_parts-IsSegment a)
      (target_parts-IsSegment "game" b (refl, refl)),
)
