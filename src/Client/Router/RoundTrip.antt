-- ===== src/Client/Router/RoundTrip.antt =====
-- What `parse_path` of crates/frontend/src/router.rs reads of a path that `to_path` wrote.
use dreamwell.Common.{
  ◌≡◌, refl, ap, ◌∙◌, Bool, true, false, Option, none, some, ◌∷◌, String, arith, opt_map, ◌==◌,
  ==_iff, string_eq, Bool-cases, inl, inr,
}
use dreamwell.Common.Int.{ℤ, IsI64}
use dreamwell.Common.Decimal.{show_ℤ}
use dreamwell.Common.Text.{parse_i64}
use dreamwell.Common.Text.Numbers.{parse_i64-show_ℤ}
use dreamwell.Client.Router.{
  Overlay, variables, new_chat, new_game, state, StoryNav, collapsed, basics, chapter, beat,
  AppRoute, chats, stories, games, queue, settings, characters, scenarios, to_path, overlay_parts,
}
use dreamwell.Client.Router.Parse.{
  parse_path, parse_segments, parse_scenarios, parse_characters, parse_chats, parse_games,
  parse_stories,
}
use dreamwell.Client.Router.Paths.{parse_path-path_of}
use dreamwell.Client.Router.Segments.{head_part, tail_parts, parts-IsSegment, to_path-path_of}

-- The overlay that the segment of an overlay names.
abbrev pub named_overlay : Overlay → Overlay
named_overlay variables = variables
named_overlay new_chat = new_chat
named_overlay new_game = new_chat
named_overlay state = state

-- The route that a path keeps of a route: the new-game overlay is read as the new-chat one outside
-- the games, a game with a new-game overlay and an overlay without a game are the list of games,
-- a story list keeps no section, a story that is read keeps no section, and basics with an overlay
-- are read as no section.
abbrev pub canonical : AppRoute → AppRoute
canonical (chats chat_id shown) = chats chat_id (opt_map named_overlay shown)
canonical (stories none nav reading shown) =
    stories none collapsed false (opt_map named_overlay shown)
canonical (stories (some id) nav true shown) =
    stories (some id) collapsed true (opt_map named_overlay shown)
canonical (stories (some id) basics false (some shown)) =
    stories (some id) collapsed false (some (named_overlay shown))
canonical (stories (some id) nav false shown) =
    stories (some id) nav false (opt_map named_overlay shown)
canonical (games none none) = games none none
canonical (games none (some variables)) = games none none
canonical (games none (some new_chat)) = games none (some new_game)
canonical (games none (some new_game)) = games none (some new_game)
canonical (games none (some state)) = games none none
canonical (games (some id) none) = games (some id) none
canonical (games (some id) (some variables)) = games (some id) (some variables)
canonical (games (some id) (some new_chat)) = games none none
canonical (games (some id) (some new_game)) = games none none
canonical (games (some id) (some state)) = games (some id) (some state)
canonical queue = queue
canonical settings = settings
canonical (characters character_id chat_id) = characters character_id chat_id
canonical (scenarios scenario_id game_id) = scenarios scenario_id game_id

abbrev pub IdInRange : Option ℤ → Type 0
IdInRange none = Unit {0}
IdInRange (some id) = IsI64 id

abbrev pub NavInRange : StoryNav → Type 0
NavInRange collapsed = Unit {0}
NavInRange basics = Unit {0}
NavInRange (chapter chapter_id) = IsI64 chapter_id
NavInRange (beat chapter_id beat_id) = IsI64 chapter_id × IsI64 beat_id

-- The ids of a route are `i64` values.
abbrev pub InRange : AppRoute → Type 0
InRange (chats chat_id shown) = IdInRange chat_id
InRange (stories story_id nav reading shown) = IdInRange story_id × NavInRange nav
InRange (games game_id shown) = IdInRange game_id
InRange queue = Unit {0}
InRange settings = Unit {0}
InRange (characters character_id chat_id) = IdInRange character_id × IdInRange chat_id
InRange (scenarios scenario_id game_id) = IdInRange scenario_id × IdInRange game_id

-- A written number is no word of the routes.
number_ne : (z : ℤ) (word : String) → IsI64 z → parse_i64 word ≡ none → (show_ℤ z == word) ≡ false
number_ne z word h k = elim (Bool-cases (show_ℤ z == word)) [
  | inl same ↦
      let e : show_ℤ z ≡ word = (==_iff (show_ℤ z) word).0 same in
      absurd (cc (parse_i64-show_ℤ z h, ap parse_i64 e))
  | inr other ↦ other
]

-- A text that reads as a number, which is none of the words of the routes.
record IsNumber (s : String) (z : ℤ) : Type 0 where
  reads : parse_i64 s ≡ some z
  not_settings : (s == "settings") ≡ false
  not_sidebar : (s == "sidebar") ≡ false
  not_new : (s == "new") ≡ false
  not_character : (s == "character") ≡ false
  not_scenario : (s == "scenario") ≡ false
  not_variables : (s == "variables") ≡ false
  not_state : (s == "state") ≡ false
  not_chat : (s == "chat") ≡ false
  not_game : (s == "game") ≡ false
  not_reading : (s == "reading") ≡ false
  not_basics : (s == "basics") ≡ false
  not_chapters : (s == "chapters") ≡ false

show_ℤ-IsNumber : (z : ℤ) → IsI64 z → IsNumber (show_ℤ z) z
unfolding parse_i64
show_ℤ-IsNumber z h = record {
  reads = parse_i64-show_ℤ z h;
  not_settings = number_ne z "settings" h refl;
  not_sidebar = number_ne z "sidebar" h refl;
  not_new = number_ne z "new" h refl;
  not_character = number_ne z "character" h refl;
  not_scenario = number_ne z "scenario" h refl;
  not_variables = number_ne z "variables" h refl;
  not_state = number_ne z "state" h refl;
  not_chat = number_ne z "chat" h refl;
  not_game = number_ne z "game" h refl;
  not_reading = number_ne z "reading" h refl;
  not_basics = number_ne z "basics" h refl;
  not_chapters = number_ne z "chapters" h refl;
}

chats_read :
    (chat_id : Option ℤ) (shown : Option Overlay)
    → IdInRange chat_id
    → parse_chats (tail_parts (chats chat_id shown)) ≡ canonical (chats chat_id shown)
unfolding parse_chats parse_i64
chats_read none none h = refl
chats_read none (some variables) h = refl
chats_read none (some new_chat) h = refl
chats_read none (some new_game) h = refl
chats_read none (some state) h = refl
chats_read (some id) (some state) h = let number = show_ℤ-IsNumber id h in ground arith
chats_read (some id) shown h = let number = show_ℤ-IsNumber id h in ground arith

games_read :
    (game_id : Option ℤ) (shown : Option Overlay)
    → IdInRange game_id
    → parse_games (tail_parts (games game_id shown)) ≡ canonical (games game_id shown)
unfolding parse_games parse_i64
games_read none none h = refl
games_read none (some variables) h = refl
games_read none (some new_chat) h = refl
games_read none (some new_game) h = refl
games_read none (some state) h = refl
games_read (some id) (some state) h = let number = show_ℤ-IsNumber id h in ground arith
games_read (some id) shown h = let number = show_ℤ-IsNumber id h in ground arith

characters_read :
    (character_id chat_id : Option ℤ)
    → IdInRange character_id
    → IdInRange chat_id
    → parse_characters (tail_parts (characters character_id chat_id))
      ≡ characters character_id chat_id
unfolding parse_characters
characters_read none none h k = refl
characters_read (some id) none h k = let number = show_ℤ-IsNumber id h in ground arith
characters_read none (some id) h k = let number = show_ℤ-IsNumber id k in ground arith
characters_read (some id) (some chat_id) h k =
    let number = show_ℤ-IsNumber id h in let target = show_ℤ-IsNumber chat_id k in ground arith

scenarios_read :
    (scenario_id game_id : Option ℤ)
    → IdInRange scenario_id
    → IdInRange game_id
    → parse_scenarios (tail_parts (scenarios scenario_id game_id)) ≡ scenarios scenario_id game_id
unfolding parse_scenarios
scenarios_read none none h k = refl
scenarios_read (some id) none h k = let number = show_ℤ-IsNumber id h in ground arith
scenarios_read none (some id) h k = let number = show_ℤ-IsNumber id k in ground arith
scenarios_read (some id) (some game_id) h k =
    let number = show_ℤ-IsNumber id h in let target = show_ℤ-IsNumber game_id k in ground arith

stories_read :
    (id : ℤ) (nav : StoryNav) (reading : Bool) (shown : Option Overlay)
    → IsI64 id
    → NavInRange nav
    → parse_stories (tail_parts (stories (some id) nav reading shown))
      ≡ canonical (stories (some id) nav reading shown)
unfolding parse_stories parse_i64
stories_read id nav true (some state) h k = let number = show_ℤ-IsNumber id h in ground arith
stories_read id nav true shown h k = let number = show_ℤ-IsNumber id h in ground arith
stories_read id collapsed false (some state) h k = let number = show_ℤ-IsNumber id h in ground arith
stories_read id collapsed false shown h k = let number = show_ℤ-IsNumber id h in ground arith
stories_read id basics false (some state) h k = let number = show_ℤ-IsNumber id h in ground arith
stories_read id basics false shown h k = let number = show_ℤ-IsNumber id h in ground arith
stories_read id (chapter c) false (some state) h k =
    let number = show_ℤ-IsNumber id h in let section = show_ℤ-IsNumber c k in ground arith
stories_read id (chapter c) false shown h k =
    let number = show_ℤ-IsNumber id h in let section = show_ℤ-IsNumber c k in ground arith
stories_read id (beat c b) false (some state) h k =
    let number = show_ℤ-IsNumber id h in
    let section = show_ℤ-IsNumber c k.0 in let part = show_ℤ-IsNumber b k.1 in ground arith
stories_read id (beat c b) false shown h k =
    let number = show_ℤ-IsNumber id h in
    let section = show_ℤ-IsNumber c k.0 in let part = show_ℤ-IsNumber b k.1 in ground arith

story_list_read :
    (shown : Option Overlay)
    → parse_stories (overlay_parts shown)
      ≡ stories none collapsed false (opt_map named_overlay shown)
unfolding parse_stories parse_i64
story_list_read none = refl
story_list_read (some variables) = refl
story_list_read (some new_chat) = refl
story_list_read (some new_game) = refl
story_list_read (some state) = refl

parse_segments-parts :
    (r : AppRoute) → InRange r → parse_segments (head_part r ∷ tail_parts r) ≡ canonical r
unfolding parse_segments
parse_segments-parts (chats c shown) h = chats_read c shown h
parse_segments-parts (stories none nav reading shown) h = story_list_read shown
parse_segments-parts (stories (some id) nav reading shown) h =
    stories_read id nav reading shown h.0 h.1
parse_segments-parts (games c shown) h = games_read c shown h
parse_segments-parts queue h = refl
parse_segments-parts settings h = refl
parse_segments-parts (characters a b) h = characters_read a b h.0 h.1
parse_segments-parts (scenarios a b) h = scenarios_read a b h.0 h.1

-- A route whose ids are `i64` values is read back from its path in its canonical form.
pub parse_path-to_path : (r : AppRoute) → InRange r → parse_path (to_path r) ≡ canonical r
parse_path-to_path r h =
    ap parse_path (to_path-path_of r)
    ∙ parse_path-path_of (head_part r) (tail_parts r) (parts-IsSegment r)
    ∙ parse_segments-parts r h
