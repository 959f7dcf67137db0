-- ===== src/Client/Router/Overlays.antt =====
-- The overlay of a route of crates/frontend/src/router.rs, opened and closed.
use dreamwell.Common.{◌≡◌, refl, none, some, Bool, true, false, if◌then◌else◌}
use dreamwell.Client.Router.{
  AppMode, chats_mode, stories_mode, game_mode, Overlay, AppRoute, chats, mode, overlay,
  with_overlay, without_overlay,
}

-- The sections of the application that have overlays.
abbrev pub has_overlays : AppMode → Bool
has_overlays chats_mode = true
has_overlays stories_mode = true
has_overlays game_mode = true
has_overlays m = false

-- Opening an overlay keeps the section, shows the overlay just in a section that has overlays, and
-- closing it again is closing the one before.
pub overlay-with_overlay :
    (r : AppRoute) (o : Overlay)
    → (mode (with_overlay r o) ≡ mode r)
      × (overlay (with_overlay r o) ≡ (if has_overlays (mode r) then some o else none))
      × (without_overlay (with_overlay r o) ≡ without_overlay r)
      × (overlay (without_overlay r) ≡ none)
unfolding mode overlay with_overlay without_overlay
overlay-with_overlay (chats c shown) o = (refl, refl, refl, refl)
overlay-with_overlay r o = (refl, refl, refl, refl)
