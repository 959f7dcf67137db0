-- ===== src/Client/Router.antt =====
-- The routes of the application and the paths that they are shown as: crates/frontend/src/router.rs.
pub mod Parse
pub mod Paths
pub mod Segments
pub mod RoundTrip
pub mod Parsed
pub mod Settled
pub mod Session
pub mod Overlays
use mathlib.Core.List
use Prim.Native.String.{◌++◌}
use dreamwell.Common.{
  ◌≡◌, refl, Bool, true, false, Option, none, some, List, [], ◌∷◌, String, if◌then◌else◌,
}
use dreamwell.Common.Int.{ℤ}
use dreamwell.Common.Decimal.{show_ℤ}
use dreamwell.Common.Text.{join}

pub data Overlay : Type 0 where
  variables new_chat new_game state : Overlay

-- `collapsed` is `StoryNav::None`.
pub data StoryNav : Type 0 where
  collapsed basics : StoryNav
  chapter : ℤ → StoryNav
  beat : ℤ → ℤ → StoryNav

pub data AppRoute : Type 0 where
  chats : Option ℤ → Option Overlay → AppRoute
  stories : Option ℤ → StoryNav → Bool → Option Overlay → AppRoute
  games : Option ℤ → Option Overlay → AppRoute
  queue settings : AppRoute
  characters : Option ℤ → Option ℤ → AppRoute
  scenarios : Option ℤ → Option ℤ → AppRoute

-- `AppRoute::default`.
abbrev pub default_route : AppRoute
default_route = chats none none

-- `AppMode` of queue_ui.rs: the section of the application that is shown.
pub data AppMode : Type 0 where
  chats_mode stories_mode game_mode queue_mode settings_mode characters_mode : AppMode
  scenarios_mode : AppMode

pub mode : AppRoute → AppMode
mode (chats chat_id shown) = chats_mode
mode (stories story_id nav reading shown) = stories_mode
mode (games game_id shown) = game_mode
mode queue = queue_mode
mode settings = settings_mode
mode (characters character_id chat_id) = characters_mode
mode (scenarios scenario_id game_id) = scenarios_mode

pub overlay : AppRoute → Option Overlay
overlay (chats chat_id shown) = shown
overlay (stories story_id nav reading shown) = shown
overlay (games game_id shown) = shown
overlay queue = none
overlay settings = none
overlay (characters character_id chat_id) = none
overlay (scenarios scenario_id game_id) = none

pub without_overlay : AppRoute → AppRoute
without_overlay (chats chat_id shown) = chats chat_id none
without_overlay (stories story_id nav reading shown) = stories story_id nav reading none
without_overlay (games game_id shown) = games game_id none
without_overlay queue = queue
without_overlay settings = settings
without_overlay (characters character_id chat_id) = characters character_id chat_id
without_overlay (scenarios scenario_id game_id) = scenarios scenario_id game_id

pub with_overlay : AppRoute → Overlay → AppRoute
with_overlay (chats chat_id old) new = chats chat_id (some new)
with_overlay (stories story_id nav reading old) new = stories story_id nav reading (some new)
with_overlay (games game_id old) new = games game_id (some new)
with_overlay queue new = queue
with_overlay settings new = settings
with_overlay (characters character_id chat_id) new = characters character_id chat_id
with_overlay (scenarios scenario_id game_id) new = scenarios scenario_id game_id

abbrev pub overlay_segment : Overlay → String
overlay_segment variables = "variables"
overlay_segment new_chat = "new"
overlay_segment new_game = "new"
overlay_segment state = "state"

-- `format!("{a}{b}")`, to the right.
unfoldable pub chats_to_path : Option ℤ → Option Overlay → String
chats_to_path none (some new_chat) = "/chats/new"
chats_to_path none none = "/chats"
chats_to_path none (some shown) = "/chats/" ++ overlay_segment shown
chats_to_path (some id) none = "/chats/" ++ show_ℤ id
chats_to_path (some id) (some shown) = "/chats/" ++ (show_ℤ id ++ ("/" ++ overlay_segment shown))

-- The parts that the code pushes for the section of the outline.
abbrev pub nav_parts : StoryNav → List String
nav_parts collapsed = []
nav_parts basics = "basics" ∷ []
nav_parts (chapter chapter_id) = "chapters" ∷ show_ℤ chapter_id ∷ []
nav_parts (beat chapter_id beat_id) = "chapters" ∷ show_ℤ chapter_id ∷ "beats" ∷ show_ℤ beat_id ∷ []

abbrev pub overlay_parts : Option Overlay → List String
overlay_parts none = []
overlay_parts (some shown) = overlay_segment shown ∷ []

pub stories_to_path : Option ℤ → StoryNav → Bool → Option Overlay → String
stories_to_path none nav reading (some shown) = "/stories/" ++ overlay_segment shown
stories_to_path none nav reading none = "/stories"
stories_to_path (some id) nav reading shown =
    let sections : List String = if reading then "reading" ∷ [] else nav_parts nav in
    join "/" (("/stories/" ++ show_ℤ id) ∷ List.◌++◌ sections (overlay_parts shown))

pub games_to_path : Option ℤ → Option Overlay → String
games_to_path none none = "/games"
games_to_path none (some new_game) = "/games/new"
games_to_path none (some shown) = "/games/" ++ overlay_segment shown
games_to_path (some id) none = "/games/" ++ show_ℤ id
games_to_path (some id) (some shown) = "/games/" ++ (show_ℤ id ++ ("/" ++ overlay_segment shown))

pub characters_to_path : Option ℤ → Option ℤ → String
characters_to_path none none = "/characters"
characters_to_path (some id) none = "/characters/" ++ show_ℤ id
characters_to_path none (some chat_id) = "/characters/chat/" ++ show_ℤ chat_id
characters_to_path (some id) (some chat_id) =
    "/characters/" ++ (show_ℤ id ++ ("/chat/" ++ show_ℤ chat_id))

pub scenarios_to_path : Option ℤ → Option ℤ → String
scenarios_to_path none none = "/scenarios"
scenarios_to_path (some id) none = "/scenarios/" ++ show_ℤ id
scenarios_to_path none (some game_id) = "/scenarios/game/" ++ show_ℤ game_id
scenarios_to_path (some id) (some game_id) =
    "/scenarios/" ++ (show_ℤ id ++ ("/game/" ++ show_ℤ game_id))

unfoldable pub to_path : AppRoute → String
unfolding chats_to_path stories_to_path games_to_path characters_to_path scenarios_to_path
to_path (chats chat_id shown) = chats_to_path chat_id shown
to_path (stories story_id nav reading shown) = stories_to_path story_id nav reading shown
to_path (games game_id shown) = games_to_path game_id shown
to_path queue = "/queue"
to_path settings = "/settings"
to_path (characters character_id chat_id) = characters_to_path character_id chat_id
to_path (scenarios scenario_id game_id) = scenarios_to_path scenario_id game_id
