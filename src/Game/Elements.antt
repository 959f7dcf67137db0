-- ===== src/Game/Elements.antt =====
-- Boards, decks and their instances in a game: crates/dreamwell-types/src/game_elements.rs.
use dreamwell.Common.{ℕ, Bool, List, String}
use dreamwell.Common.Int.{ℤ}

pub record BoardTagRule : Type 0 where
  pub tag : String
  pub spaces : List ℕ

pub record BoardDef : Type 0 where
  pub id : String
  pub spaces : ℕ
  pub move_dice : String
  pub tag_rules : List BoardTagRule
  pub default_tag : String

pub record CardDef : Type 0 where
  pub id : String
  pub name : String
  pub text : String

pub record DeckDef : Type 0 where
  pub id : String
  pub consume_on_draw : Bool
  pub cards : List CardDef

pub record GameElementsConfig : Type 0 where
  pub boards : List BoardDef
  pub decks : List DeckDef

pub record DeckInstance : Type 0 where
  pub deck_id : String
  pub draw_pile : List String
  pub discard : List String

pub record ElementInstances : Type 0 where
  pub board_positions : List (String × ℕ)
  pub deck_piles : List (String × DeckInstance)

pub data MechanicalKind : Type 0 where
  dice_roll board_move card_draw : MechanicalKind

pub data MechanicalData : Type 0 where
  dice_roll_data : (dice_expr : String) (rolls : List ℤ) (total : ℤ) → MechanicalData
  board_move_data :
      (actor board_id : String) (roll : ℤ) (from_space to_space : ℕ) (space_tags : List String)
      → MechanicalData
  card_draw_data : (deck_id card_id name text : String) (consumed : Bool) → MechanicalData

pub record MechanicalResult : Type 0 where
  pub kind : MechanicalKind
  pub label : String
  pub data_ : MechanicalData
  pub sort_order : ℤ
