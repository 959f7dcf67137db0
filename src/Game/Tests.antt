-- ===== src/Game/Tests.antt =====
-- The game's theorems at a small board and deck.
use dreamwell.Common.{ℕ, ◌≡◌, refl, true, List, [], ◌∷◌, String, string_eq}
use dreamwell.Common.Int.{ℤ, pos}
use dreamwell.Common.Dict.{lookup}
use dreamwell.Game.Elements.{BoardDef, CardDef, DeckDef, ElementInstances}
use dreamwell.Game.Mechanics.{apply_results}
use dreamwell.Game.Play.{Play, move, draw, roll, play, apply_results-play}

abbrev board : BoardDef
board = record {
  id = "main";
  spaces = 80;
  move_dice = "1d6";
  tag_rules = [];
  default_tag = "space";
}

abbrev card : String → CardDef
card id = record { id = id; name = "Storm"; text = "A storm hits." }

abbrev events : DeckDef
events = record { id = "events"; consume_on_draw = true; cards = card "a" ∷ card "b" ∷ [] }

abbrev instances : ElementInstances
instances = record {
  board_positions = [];
  deck_piles =
      ("events", record { deck_id = "events"; draw_pile = "b" ∷ "a" ∷ []; discard = [] }) ∷ [];
}

abbrev faces : ℤ → ℕ → ℕ → List ℤ
faces face count sides = face ∷ []

abbrev plays : List Play
plays =
    draw events true
    ∷ move (faces (pos 4)) board "pc"
    ∷ move (faces (pos 2)) board "pc"
    ∷ roll (faces (pos 6)) "1d6" "luck"
    ∷ draw events true
    ∷ draw events true
    ∷ []

apply_results-play_example :
    apply_results instances (play plays instances).1 ≡ (play plays instances).0
unfolding lookup
apply_results-play_example =
    apply_results-play plays instances ((refl, refl, (refl, refl, tt)), tt)
      (refl, (refl, (refl, tt)))
