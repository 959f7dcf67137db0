-- ===== src/Client/Router/Parsed.antt =====
-- The routes that `parse_path` of crates/frontend/src/router.rs makes of any path.
use dreamwell.Common.{
  ◌≡◌, refl, Bool, true, false, ◌&&◌, Option, none, some, List, [], ◌∷◌, String, arith, keep, inl,
  inr, Bool-cases, Option-cases, ltb, ℕ, zero, suc,
}
use dreamwell.Common.Int.{ℤ, pos, negsuc, IsI64, i64_half}
use dreamwell.Common.Text.{
  parse_i64, unsigned_part, signed, digits_from, trim, strip_char, is_empty_text, nonempty, split,
}
use dreamwell.Client.Router.{
  new_chat, new_game, StoryNav, collapsed, basics, chapter, beat, AppRoute, chats, stories, games,
  queue, settings, characters, scenarios,
}
use dreamwell.Client.Router.Parse.{
  parse_path, parse_segments, parse_scenarios, parse_characters, parse_chats, parse_games,
  parse_stories, parse_queue, parse_story_detail, strip_legacy_suffix, match_scenarios,
  match_characters, match_chats, match_games, match_stories, story_of_id, story_section,
  chapter_detail,
}

abbrev pub in_range : ℤ → Bool
in_range (pos n) = ltb n i64_half
in_range (negsuc n) = ltb n i64_half

abbrev pub id_in_range : Option ℤ → Bool
id_in_range none = true
id_in_range (some z) = in_range z

abbrev pub nav_in_range : StoryNav → Bool
nav_in_range collapsed = true
nav_in_range basics = true
nav_in_range (chapter c) = in_range c
nav_in_range (beat c b) = in_range c && in_range b

abbrev pub ids_in_range : AppRoute → Bool
ids_in_range (chats chat_id shown) = id_in_range chat_id
ids_in_range (stories story_id nav reading shown) = id_in_range story_id && nav_in_range nav
ids_in_range (games game_id shown) = id_in_range game_id
ids_in_range queue = true
ids_in_range settings = true
ids_in_range (characters character_id chat_id) = id_in_range character_id && id_in_range chat_id
ids_in_range (scenarios scenario_id game_id) = id_in_range scenario_id && id_in_range game_id

-- The shapes that no path is read as are those whose overlay has another name or another place.
abbrev pub shape : AppRoute → Bool
shape (chats chat_id (some new_game)) = false
shape (stories story_id nav reading (some new_game)) = false
shape (stories story_id basics reading (some shown)) = false
shape (games none (some new_game)) = true
shape (games none (some shown)) = false
shape (games (some id) (some new_chat)) = false
shape (games (some id) (some new_game)) = false
shape r = true

abbrev pub parsed : AppRoute → Bool
parsed r = shape r && ids_in_range r

signed-in_range : (minus : Bool) (n : ℕ) → id_in_range (signed minus n) ≡ true
signed-in_range minus zero = refl
signed-in_range false (suc n) = ground arith
signed-in_range true (suc n) = ground arith

unsigned_part-in_range : (minus : Bool) (s : String) → id_in_range (unsigned_part minus s) ≡ true
unsigned_part-in_range minus s = elim (Bool-cases (is_empty_text s)) [
  | inl empty ↦ rw empty refl
  | inr full ↦ elim (Option-cases (digits_from 0 s)) [
    | inl bad ↦ rw (full, bad) refl
    | inr (n, good) ↦ rw (full, good) (signed-in_range minus n)
  ]
]

parse_i64-in_range : (s : String) → id_in_range (parse_i64 s) ≡ true
unfolding parse_i64
parse_i64-in_range String.[] = refl
parse_i64-in_range (String.◌∷◌ c s) = ground (
  arith,
  unsigned_part-in_range true s,
  unsigned_part-in_range false s,
  unsigned_part-in_range false (String.◌∷◌ c s),
)

match_scenarios-parsed : (segments : List String) → parsed (match_scenarios segments) ≡ true
match_scenarios-parsed [] = refl
match_scenarios-parsed (s ∷ []) = ground (arith, parse_i64-in_range s)
match_scenarios-parsed (s ∷ t ∷ []) = ground (arith, parse_i64-in_range t)
match_scenarios-parsed (s ∷ t ∷ u ∷ []) = ground (arith, parse_i64-in_range s, parse_i64-in_range u)
match_scenarios-parsed (s ∷ t ∷ u ∷ v ∷ segments) = refl

match_characters-parsed : (segments : List String) → parsed (match_characters segments) ≡ true
match_characters-parsed [] = refl
match_characters-parsed (s ∷ []) = ground (arith, parse_i64-in_range s)
match_characters-parsed (s ∷ t ∷ []) = ground (arith, parse_i64-in_range t)
match_characters-parsed (s ∷ t ∷ u ∷ []) =
    ground (arith, parse_i64-in_range s, parse_i64-in_range u)
match_characters-parsed (s ∷ t ∷ u ∷ v ∷ segments) = refl

match_chats-parsed : (segments : List String) → parsed (match_chats segments) ≡ true
match_chats-parsed [] = refl
match_chats-parsed (s ∷ []) = ground (arith, parse_i64-in_range s)
match_chats-parsed (s ∷ t ∷ []) = ground (arith, parse_i64-in_range s)
match_chats-parsed (s ∷ t ∷ u ∷ segments) = refl

match_games-parsed : (segments : List String) → parsed (match_games segments) ≡ true
match_games-parsed [] = refl
match_games-parsed (s ∷ []) = ground (arith, parse_i64-in_range s)
match_games-parsed (s ∷ t ∷ []) = ground (arith, parse_i64-in_range s)
match_games-parsed (s ∷ t ∷ u ∷ segments) = refl

module _ (id : ℤ) (valid : in_range id ≡ true) where
  chapter_detail-parsed :
      (reading : Bool) (c : ℤ) (rest : List String)
      → in_range c ≡ true
      → parsed (chapter_detail id reading c rest) ≡ true
  chapter_detail-parsed reading c [] h = ground arith
  chapter_detail-parsed reading c (s ∷ []) h = ground arith
  chapter_detail-parsed reading c (s ∷ t ∷ []) h = ground (arith, parse_i64-in_range t)
  chapter_detail-parsed reading c (s ∷ t ∷ u ∷ rest) h = ground (arith, parse_i64-in_range t)

  story_section-parsed :
      (reading : Bool) (segments : List String) → parsed (story_section id reading segments) ≡ true
  story_section-parsed reading [] = ground arith
  story_section-parsed reading (s ∷ []) = ground arith
  story_section-parsed reading (s ∷ t ∷ []) = ground (arith, parse_i64-in_range t)
  story_section-parsed reading (s ∷ t ∷ u ∷ rest) = elim (Option-cases (parse_i64 t)) [
    | inl bad ↦ ground arith
    | inr (c, good) ↦
        ground (arith, parse_i64-in_range t, chapter_detail-parsed reading c (u ∷ rest))
  ]

  parse_story_detail-parsed :
      (segments : List String) → parsed (parse_story_detail id segments) ≡ true
  unfolding parse_story_detail
  parse_story_detail-parsed [] = ground arith
  parse_story_detail-parsed (s ∷ segments) =
      ground (arith, story_section-parsed true segments, story_section-parsed false (s ∷ segments))

story_of_id-parsed :
    (id : Option ℤ) (segments : List String)
    → id_in_range id ≡ true
    → parsed (story_of_id id segments) ≡ true
unfolding story_of_id
story_of_id-parsed none segments h = refl
story_of_id-parsed (some id) segments h = parse_story_detail-parsed id h segments

match_stories-parsed : (segments : List String) → parsed (match_stories segments) ≡ true
match_stories-parsed [] = refl
match_stories-parsed (s ∷ []) =
    ground (arith, story_of_id-parsed (parse_i64 s) [] (parse_i64-in_range s))
match_stories-parsed (s ∷ t ∷ segments) =
    story_of_id-parsed (parse_i64 s) (t ∷ segments) (parse_i64-in_range s)

parse_scenarios-parsed : (segments : List String) → parsed (parse_scenarios segments) ≡ true
unfolding parse_scenarios
parse_scenarios-parsed segments = match_scenarios-parsed (strip_legacy_suffix segments)

parse_characters-parsed : (segments : List String) → parsed (parse_characters segments) ≡ true
unfolding parse_characters
parse_characters-parsed segments = match_characters-parsed (strip_legacy_suffix segments)

parse_games-parsed : (segments : List String) → parsed (parse_games segments) ≡ true
unfolding parse_games
parse_games-parsed segments = match_games-parsed (strip_legacy_suffix segments)

parse_chats-parsed : (segments : List String) → parsed (parse_chats segments) ≡ true
unfolding parse_chats
parse_chats-parsed segments = ground (arith, match_chats-parsed (strip_legacy_suffix segments))

parse_queue-parsed : (segments : List String) → parsed (parse_queue segments) ≡ true
unfolding parse_queue
parse_queue-parsed segments = ground arith

parse_stories-parsed : (segments : List String) → parsed (parse_stories segments) ≡ true
unfolding parse_stories
parse_stories-parsed segments = ground (arith, match_stories-parsed (strip_legacy_suffix segments))

parse_segments-parsed : (segments : List String) → parsed (parse_segments segments) ≡ true
unfolding parse_segments
parse_segments-parsed [] = parse_chats-parsed []
parse_segments-parsed (s ∷ segments) = ground (
  arith,
  parse_queue-parsed segments,
  parse_characters-parsed segments,
  parse_scenarios-parsed segments,
  parse_stories-parsed segments,
  parse_games-parsed segments,
  parse_chats-parsed segments,
)

pub parse_path-parsed : (path : String) → parsed (parse_path path) ≡ true
unfolding parse_path
parse_path-parsed path =
    ground (arith, parse_segments-parsed (keep nonempty (split b'/' (strip_char b'/' (trim path)))))

pub in_range-IsI64 : (z : ℤ) → in_range z ≡ true → IsI64 z
in_range-IsI64 (pos n) h = ground arith
in_range-IsI64 (negsuc n) h = ground arith
