-- ===== src/Game/Mechanics.antt =====
-- Moves, draws and their replay: crates/server/src/game_mechanics.rs. A function returns the instances
-- that it leaves beside its result, since a draw that fails may have dealt a pile.
use Prim.Native.String
use dreamwell.Common.{
  ℕ, ◌+◌, ◌%◌, ◌-◌, min, Bool, ◌&&◌, Option, none, some, List, [], ◌∷◌, ◌++◌, map, String, any,
  length, find, if◌then◌else◌, ◌==◌, string_eq, nat_eq, is_empty, unwrap_or,
}
use dreamwell.Common.Int.{ℤ, pos, negsuc}
use dreamwell.Common.Dict.{lookup, insert}
use dreamwell.Game.Dice.{SystemRollResult, roll_system_dice}
use dreamwell.Game.Elements.{
  BoardTagRule, BoardDef, CardDef, DeckDef, GameElementsConfig, DeckInstance, ElementInstances,
  dice_roll, board_move, card_draw, dice_roll_data, board_move_data, card_draw_data,
  MechanicalResult,
}

-- `as u32`
abbrev pub as_u32 : ℤ → ℕ
as_u32 (pos n) = n % 4294967296
as_u32 (negsuc n) = 4294967295 - n % 4294967296

abbrev pub rule_tags : ℕ → String → List BoardTagRule → List String
rule_tags space default_tag [] = default_tag ∷ []
rule_tags space default_tag (rule ∷ rules) =
    if any (λ s. s == space) rule.spaces then rule.tag ∷ [] else rule_tags space default_tag rules

unfoldable pub board_space_tags : BoardDef → ℕ → List String
board_space_tags board space = rule_tags space board.default_tag board.tag_rules

abbrev pub position_of : ElementInstances → String → ℕ
position_of instances actor = unwrap_or (lookup actor instances.board_positions) 0

-- Addition on `u32` wraps.
abbrev pub target : BoardDef → ℕ → ℤ → ℕ
target board start roll = min ((start + as_u32 roll) % 4294967296) board.spaces

unfoldable pub place : String → ℕ → ElementInstances → ElementInstances
place actor space instances = record instances {
  board_positions = insert actor space instances.board_positions;
}

-- `entry().or_insert_with()`: the pile that is there, or a new one.
abbrev pub pile_of : DeckDef → ElementInstances → DeckInstance
pile_of deck_def instances = unwrap_or (lookup deck_def.id instances.deck_piles) (record {
  deck_id = deck_def.id;
  draw_pile = map (λ (c : CardDef). c.id) deck_def.cards;
  discard = [];
})

unfoldable pub put_pile : String → DeckInstance → ElementInstances → ElementInstances
put_pile id pile instances = record instances { deck_piles = insert id pile instances.deck_piles }

-- `position` and `remove`: the first entry goes.
unfoldable pub remove_first : String → List String → List String
remove_first id [] = []
remove_first id (x ∷ xs) = let rest = remove_first id xs in if x == id then xs else x ∷ rest

abbrev pub contains_card : String → List String → Bool
contains_card id cards = any (λ c. c == id) cards

-- The rest of a move and of a roll, once the dice are rolled.
unfoldable pub move_by :
    BoardDef
    → ElementInstances
    → String
    → Option SystemRollResult
    → ElementInstances × Option MechanicalResult
unfolding board_space_tags place
move_by board instances actor none = (instances, none)
move_by board instances actor (some roll) =
    let start = position_of instances actor in
    let to = target board start roll.total in
    (
      place actor to instances,
      some (record {
        kind = board_move;
        label = String.◌++◌ actor " moves";
        data_ = board_move_data actor board.id roll.total start to (board_space_tags board to);
        sort_order = pos 0;
      }),
    )

unfoldable pub result_of_roll : String → String → Option SystemRollResult → Option MechanicalResult
result_of_roll dice_expr label none = none
result_of_roll dice_expr label (some roll) = some (record {
  kind = dice_roll;
  label = label;
  data_ = dice_roll_data dice_expr roll.rolls roll.total;
  sort_order = pos 0;
})

module _ (roller : ℕ → ℕ → List ℤ) where
  unfoldable pub execute_board_move :
      BoardDef → ElementInstances → String → ElementInstances × Option MechanicalResult
  unfolding roll_system_dice move_by
  execute_board_move board instances actor =
      move_by board instances actor (roll_system_dice roller board.move_dice)

  unfoldable pub execute_dice_roll : String → String → Option MechanicalResult
  unfolding roll_system_dice result_of_roll
  execute_dice_roll dice_expr label =
      result_of_roll dice_expr label (roll_system_dice roller dice_expr)

-- The rest of a draw, once the card is known.
unfoldable pub draw_card :
    DeckDef
    → DeckInstance
    → String
    → CardDef
    → Bool
    → ElementInstances
    → ElementInstances × Option MechanicalResult
unfolding put_pile remove_first
draw_card deck_def pile card_id card consumed instances =
    let after = record pile {
      draw_pile = remove_first card_id pile.draw_pile;
      discard = pile.discard ++ card_id ∷ [];
    } in
    (
      if consumed then put_pile deck_def.id after instances else instances,
      some (record {
        kind = card_draw;
        label = String.◌++◌ "Draw " card.name;
        data_ = card_draw_data deck_def.id card.id card.name card.text consumed;
        sort_order = pos 0;
      }),
    )

unfoldable pub draw_found :
    DeckDef
    → DeckInstance
    → String
    → Bool
    → ElementInstances
    → Option CardDef
    → ElementInstances × Option MechanicalResult
unfolding draw_card
draw_found deck_def pile card_id consumed instances none = (instances, none)
draw_found deck_def pile card_id consumed instances (some card) =
    draw_card deck_def pile card_id card consumed instances

-- The cards are those of the draw pile, whose first one is drawn.
unfoldable pub draw_top :
    DeckDef
    → DeckInstance
    → Bool
    → ElementInstances
    → List String
    → ElementInstances × Option MechanicalResult
unfolding draw_found
draw_top deck_def pile consumed instances [] = (instances, none)
draw_top deck_def pile consumed instances (card_id ∷ _) =
    draw_found deck_def pile card_id consumed instances
      (find (λ (c : CardDef). c.id == card_id) deck_def.cards)

unfoldable pub execute_card_draw :
    DeckDef → ElementInstances → Bool → ElementInstances × Option MechanicalResult
unfolding draw_top put_pile
execute_card_draw deck_def instances consume =
    let pile = pile_of deck_def instances in
    draw_top deck_def pile (consume && deck_def.consume_on_draw)
      (put_pile deck_def.id pile instances) pile.draw_pile

-- A pile after the replay of a consumed card.
unfoldable pub replay_pile : String → DeckInstance → DeckInstance
unfolding remove_first
replay_pile card_id pile = record pile {
  draw_pile = remove_first card_id pile.draw_pile;
  discard =
      if contains_card card_id pile.discard then pile.discard else pile.discard ++ card_id ∷ [];
}

unfoldable pub replay_card : String → String → ElementInstances → ElementInstances
unfolding replay_pile put_pile
replay_card deck_id card_id instances = elim (lookup deck_id instances.deck_piles) [
  | none ↦ instances
  | some pile ↦ put_pile deck_id (replay_pile card_id pile) instances
]

unfoldable pub apply_mechanical_result_to_instances :
    ElementInstances → MechanicalResult → ElementInstances
unfolding replay_card place
apply_mechanical_result_to_instances instances result = elim result.data_ [
  | dice_roll_data dice_expr rolls total ↦ instances
  | board_move_data actor board_id roll from_space to_space space_tags ↦
      place actor to_space instances
  | card_draw_data deck_id card_id name text consumed ↦
      if consumed then replay_card deck_id card_id instances else instances
]

unfoldable pub apply_results : ElementInstances → List MechanicalResult → ElementInstances
unfolding apply_mechanical_result_to_instances
apply_results instances [] = instances
apply_results instances (r ∷ results) =
    apply_results (apply_mechanical_result_to_instances instances r) results

-- `shuffle` of the `rand` crate is a parameter, anew for each deck: it is given how many decks follow.
module _ (shuffle : ℕ → List String → List String) where
  unfoldable pub deal : List DeckDef → List (String × DeckInstance) → List (String × DeckInstance)
  deal [] piles = piles
  deal (deck ∷ decks) piles = deal decks (
      insert deck.id
        (record {
          deck_id = deck.id;
          draw_pile = shuffle (length decks) (map (λ (c : CardDef). c.id) deck.cards);
          discard = [];
        })
        piles)

  unfoldable pub init_element_instances : GameElementsConfig → ElementInstances
  unfolding deal
  init_element_instances elements = record {
    board_positions = [];
    deck_piles = deal elements.decks [];
  }

  abbrev pub apply_turns : ElementInstances → List (List MechanicalResult) → ElementInstances
  apply_turns instances [] = instances
  apply_turns instances (t ∷ turns) = apply_turns (apply_results instances t) turns

  -- Each turn is its mechanical results.
  unfoldable pub replay_element_instances :
      GameElementsConfig → List (List MechanicalResult) → ElementInstances
  unfolding init_element_instances apply_results
  replay_element_instances elements turns =
      if is_empty elements.boards && is_empty elements.decks
      then record { board_positions = []; deck_piles = [] }
      else apply_turns (init_element_instances elements) turns
