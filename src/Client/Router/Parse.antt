-- ===== src/Client/Router/Parse.antt =====
-- The route of a path: `parse_path` of crates/frontend/src/router.rs.
use dreamwell.Common.{
  Bool, true, false, ◌&&◌, Option, none, some, List, [], ◌∷◌, String, if◌then◌else◌, is_some, keep,
  ◌==◌, string_eq, any, is_empty,
}
use dreamwell.Common.Int.{ℤ}
use dreamwell.Common.Text.{trim, strip_char, is_empty_text, nonempty, split, parse_i64}
use dreamwell.Client.Router.{
  Overlay, variables, new_chat, new_game, state, collapsed, basics, chapter, beat, AppRoute, chats,
  stories, games, queue, settings, characters, scenarios, default_route,
}

abbrev pub parse_id : String → Option ℤ
parse_id = parse_i64

abbrev pub parse_overlay : String → Option Overlay
parse_overlay value =
    if value == "variables"
    then some variables
    else if value == "new"
    then some new_chat
    else if value == "state"
    then some state
    else none

abbrev pub parse_game_overlay : String → Option Overlay
parse_game_overlay value =
    if value == "variables" then some variables else if value == "state" then some state else none

-- The slice without its last segment, where that is `sidebar`.
abbrev pub strip_legacy_suffix : List String → List String
strip_legacy_suffix [] = []
strip_legacy_suffix (s ∷ []) = if s == "sidebar" then [] else s ∷ []
strip_legacy_suffix (s ∷ t ∷ segments) = s ∷ strip_legacy_suffix (t ∷ segments)

abbrev pub route_if_settings : List String → Option AppRoute
route_if_settings segments = if any (λ s. s == "settings") segments then some settings else none

-- Each `match` on the segments is a function by clauses on the slice without its suffix.
abbrev pub match_scenarios : List String → AppRoute
match_scenarios [] = scenarios none none
match_scenarios (id ∷ []) =
    if is_some (parse_id id) then scenarios (parse_id id) none else scenarios none none
match_scenarios (a ∷ b ∷ []) =
    if a == "game" && is_some (parse_id b) then scenarios none (parse_id b) else scenarios none none
match_scenarios (a ∷ b ∷ c ∷ []) =
    if b == "game" && (is_some (parse_id a) && is_some (parse_id c))
    then scenarios (parse_id a) (parse_id c)
    else scenarios none none
match_scenarios _ = scenarios none none

unfoldable pub parse_scenarios : List String → AppRoute
parse_scenarios segments = match_scenarios (strip_legacy_suffix segments)

abbrev pub match_characters : List String → AppRoute
match_characters [] = characters none none
match_characters (id ∷ []) =
    if is_some (parse_id id) then characters (parse_id id) none else characters none none
match_characters (a ∷ b ∷ []) =
    if a == "chat" && is_some (parse_id b)
    then characters none (parse_id b)
    else characters none none
match_characters (a ∷ b ∷ c ∷ []) =
    if b == "chat" && (is_some (parse_id a) && is_some (parse_id c))
    then characters (parse_id a) (parse_id c)
    else characters none none
match_characters _ = characters none none

unfoldable pub parse_characters : List String → AppRoute
parse_characters segments = match_characters (strip_legacy_suffix segments)

abbrev pub match_chats : List String → AppRoute
match_chats [] = chats none none
match_chats (s ∷ []) =
    if s == "new"
    then chats none (some new_chat)
    else if s == "character"
    then characters none none
    else if is_some (parse_overlay s)
    then chats none (parse_overlay s)
    else if is_some (parse_id s)
    then chats (parse_id s) none
    else default_route
match_chats (id ∷ s ∷ []) =
    if s == "character" && is_some (parse_id id)
    then characters none (parse_id id)
    else if is_some (parse_id id) && is_some (parse_overlay s)
    then chats (parse_id id) (parse_overlay s)
    else default_route
match_chats _ = default_route

unfoldable pub parse_chats : List String → AppRoute
parse_chats segments = elim (route_if_settings segments) [
  | some route ↦ route
  | none ↦ match_chats (strip_legacy_suffix segments)
]

abbrev pub match_games : List String → AppRoute
match_games [] = games none none
match_games (s ∷ []) =
    if s == "scenario"
    then scenarios none none
    else if s == "new"
    then games none (some new_game)
    else if is_some (parse_id s)
    then games (parse_id s) none
    else games none none
match_games (id ∷ s ∷ []) =
    if s == "scenario" && is_some (parse_id id)
    then scenarios none (parse_id id)
    else if is_some (parse_id id) && is_some (parse_game_overlay s)
    then games (parse_id id) (parse_game_overlay s)
    else games none none
match_games _ = games none none

unfoldable pub parse_games : List String → AppRoute
parse_games segments = match_games (strip_legacy_suffix segments)

-- The first tests of `parse_story_detail`: one segment that is an overlay, or two of which the
-- second is one.
abbrev pub closing_overlay : List String → Option Overlay
closing_overlay [] = none
closing_overlay (s ∷ []) = parse_overlay s
closing_overlay (s ∷ t ∷ []) = parse_overlay t
closing_overlay (s ∷ t ∷ u ∷ segments) = none

-- The last test: an overlay in front of what is not understood.
abbrev pub front_overlay : ℤ → Bool → String → AppRoute
front_overlay story_id reading s = stories (some story_id) collapsed reading (parse_overlay s)

-- `segments.get(4).and_then(parse_overlay)`.
abbrev pub beat_overlay : List String → Option Overlay
beat_overlay [] = none
beat_overlay (s ∷ segments) = parse_overlay s

-- The three tests on a `chapters` slice, by the segments after the chapter's id.
abbrev pub chapter_detail : ℤ → Bool → ℤ → List String → AppRoute
chapter_detail story_id reading chapter_id [] =
    stories (some story_id) (chapter chapter_id) reading none
chapter_detail story_id reading chapter_id (s ∷ []) = elim (parse_overlay s) [
  | some overlay ↦ stories (some story_id) (chapter chapter_id) reading (some overlay)
  | none ↦ front_overlay story_id reading "chapters"
]
chapter_detail story_id reading chapter_id (s ∷ t ∷ rest) =
    if s == "beats"
    then elim (parse_id t) [
      | some beat_id ↦ stories (some story_id) (beat chapter_id beat_id) reading (beat_overlay rest)
      | none ↦ front_overlay story_id reading "chapters"
    ]
    else front_overlay story_id reading "chapters"

abbrev pub outline_section : ℤ → Bool → List String → AppRoute
outline_section story_id reading [] = stories (some story_id) collapsed reading none
outline_section story_id reading (s ∷ []) =
    if s == "basics"
    then stories (some story_id) basics reading none
    else front_overlay story_id reading s
outline_section story_id reading (s ∷ t ∷ rest) =
    if s == "basics" && (is_empty rest && is_some (parse_overlay t))
    then stories (some story_id) basics reading (parse_overlay t)
    else if s == "chapters"
    then elim (parse_id t) [
      | some chapter_id ↦ chapter_detail story_id reading chapter_id rest
      | none ↦ front_overlay story_id reading s
    ]
    else front_overlay story_id reading s

-- What follows the tests on `character` and `reading`.
abbrev pub story_section : ℤ → Bool → List String → AppRoute
story_section story_id reading segments = elim (closing_overlay segments) [
  | some overlay ↦ stories (some story_id) collapsed reading (some overlay)
  | none ↦ outline_section story_id reading segments
]

unfoldable pub parse_story_detail : ℤ → List String → AppRoute
parse_story_detail story_id [] = stories (some story_id) collapsed false none
parse_story_detail story_id (s ∷ segments) =
    if s == "character"
    then characters none (some story_id)
    else if s == "reading"
    then story_section story_id true segments
    else story_section story_id false (s ∷ segments)

-- What follows an id, or what is not understood.
unfoldable pub story_of_id : Option ℤ → List String → AppRoute
unfolding parse_story_detail
story_of_id (some story_id) segments = parse_story_detail story_id segments
story_of_id none segments = stories none collapsed false none

abbrev pub match_stories : List String → AppRoute
match_stories [] = stories none collapsed false none
match_stories (s ∷ []) =
    if s == "character"
    then characters none none
    else if is_some (parse_overlay s)
    then stories none collapsed false (parse_overlay s)
    else story_of_id (parse_id s) []
match_stories (id ∷ s ∷ segments) = story_of_id (parse_id id) (s ∷ segments)

unfoldable pub parse_stories : List String → AppRoute
unfolding story_of_id
parse_stories segments = elim (route_if_settings segments) [
  | some route ↦ route
  | none ↦ match_stories (strip_legacy_suffix segments)
]

unfoldable pub parse_queue : List String → AppRoute
parse_queue segments = elim (route_if_settings segments) [ some route ↦ route | none ↦ queue ]

unfoldable pub parse_segments : List String → AppRoute
unfolding parse_queue parse_characters parse_scenarios parse_stories parse_games parse_chats
parse_segments [] = parse_chats []
parse_segments (s ∷ segments) =
    if s == "settings"
    then settings
    else if s == "queue"
    then parse_queue segments
    else if s == "characters"
    then parse_characters segments
    else if s == "scenarios"
    then parse_scenarios segments
    else if s == "stories"
    then parse_stories segments
    else if s == "games"
    then parse_games segments
    else if s == "chats"
    then parse_chats segments
    else default_route

unfoldable pub parse_path : String → AppRoute
unfolding parse_segments
parse_path path =
    let path' = strip_char b'/' (trim path) in
    if is_empty_text path' then default_route else parse_segments (keep nonempty (split b'/' path'))
