-- ===== src/Client/Router/Settled.antt =====
-- What a path was read as, written and read again: crates/frontend/src/router.rs.
use mathlib.Core.Path.{subst}
use dreamwell.Common.{◌≡◌, ◌≢◌, refl, ap, ◌∙◌, Bool, true, false, Option, none, some, String, arith}
use dreamwell.Common.Int.{ℤ}
use dreamwell.Client.Router.{
  Overlay, variables, new_chat, new_game, state, StoryNav, collapsed, basics, chapter, beat,
  AppRoute, chats, stories, games, queue, settings, characters, scenarios, to_path,
}
use dreamwell.Client.Router.Parse.{parse_path}
use dreamwell.Client.Router.RoundTrip.{
  canonical, InRange, IdInRange, NavInRange, parse_path-to_path,
}
use dreamwell.Client.Router.Parsed.{
  id_in_range, nav_in_range, parsed, in_range-IsI64, parse_path-parsed,
}

id_in_range-IdInRange : (id : Option ℤ) → id_in_range id ≡ true → IdInRange id
id_in_range-IdInRange none h = tt
id_in_range-IdInRange (some z) h = in_range-IsI64 z h

nav_in_range-NavInRange : (nav : StoryNav) → nav_in_range nav ≡ true → NavInRange nav
nav_in_range-NavInRange collapsed h = tt
nav_in_range-NavInRange basics h = tt
nav_in_range-NavInRange (chapter c) h = in_range-IsI64 c h
nav_in_range-NavInRange (beat c b) h =
    (in_range-IsI64 c (ground arith), in_range-IsI64 b (ground arith))

-- A route that was read names a path as its canonical form does.
to_path-canonical : (r : AppRoute) → parsed r ≡ true → to_path (canonical r) ≡ to_path r
unfolding to_path
to_path-canonical (chats none (some new_game)) h = cc
to_path-canonical (chats (some id) (some new_game)) h = cc
to_path-canonical (stories none nav reading (some new_game)) h = cc
to_path-canonical (stories (some id) basics false (some variables)) h = cc
to_path-canonical (stories (some id) nav true (some new_game)) h = cc
to_path-canonical (games none (some new_game)) h = refl
to_path-canonical (games (some id) (some new_game)) h = cc
to_path-canonical r h = ground arith

parsed-InRange : (r : AppRoute) → parsed r ≡ true → InRange r
parsed-InRange (chats c shown) h = id_in_range-IdInRange c (ground arith)
parsed-InRange (stories id nav reading shown) h =
    (id_in_range-IdInRange id (ground arith), nav_in_range-NavInRange nav (ground arith))
parsed-InRange (games c shown) h = id_in_range-IdInRange c (ground arith)
parsed-InRange queue h = tt
parsed-InRange settings h = tt
parsed-InRange (characters a b) h =
    (id_in_range-IdInRange a (ground arith), id_in_range-IdInRange b (ground arith))
parsed-InRange (scenarios a b) h =
    (id_in_range-IdInRange a (ground arith), id_in_range-IdInRange b (ground arith))

basics_overlay_not_parsed :
    (story_id : Option ℤ) (reading : Bool) (shown : Overlay)
    → parsed (stories story_id basics reading (some shown)) ≢ true
basics_overlay_not_parsed story_id reading variables h = cc
basics_overlay_not_parsed story_id reading new_chat h = cc
basics_overlay_not_parsed story_id reading new_game h = cc
basics_overlay_not_parsed story_id reading state h = cc

-- No path is read as the basics of a story with an overlay.
pub parse_path-ne-basics :
    (path : String) (story_id : Option ℤ) (reading : Bool) (shown : Overlay)
    → parse_path path ≢ stories story_id basics reading (some shown)
parse_path-ne-basics path story_id reading shown e =
    basics_overlay_not_parsed story_id reading shown
      (subst (λ r. parsed r ≡ true) e (parse_path-parsed path))

-- Written and read again, what a path was read as names the same path.
pub to_path-settles :
    (path : String) → to_path (parse_path (to_path (parse_path path))) ≡ to_path (parse_path path)
to_path-settles path =
    ap to_path (parse_path-to_path (parse_path path) (parsed-InRange _ (parse_path-parsed path)))
    ∙ to_path-canonical (parse_path path) (parse_path-parsed path)
