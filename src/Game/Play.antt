-- ===== src/Game/Play.antt =====
-- A turn's moves, draws and rolls in order, as the tools of a turn call those of crates/server/src/game_mechanics.rs.
use dreamwell.Common.{
  ℕ, ◌≡◌, refl, sym, ap, ◌∙◌, Bool, true, false, ◌&&◌, Option, none, some, List, [], ◌∷◌, String,
  find, ◌==◌, string_eq, arith, is_some,
}
use dreamwell.Common.Int.{ℤ}
use dreamwell.Common.Dict.{lookup-insert}
use dreamwell.Game.Dice.{SystemRollResult, roll_system_dice}
use dreamwell.Game.Elements.{
  BoardDef, CardDef, DeckDef, DeckInstance, ElementInstances, MechanicalResult,
}
use dreamwell.Game.Mechanics.{
  execute_board_move, execute_card_draw, execute_dice_roll, move_by, result_of_roll, draw_found,
  draw_top, draw_card, put_pile, pile_of, place, apply_mechanical_result_to_instances,
  apply_results,
}
use dreamwell.Game.Replay.{Replays, IsStocked, has_pile, execute_card_draw-Replays}

-- The dice of a call fall anew: each move and roll has its own faces.
pub data Play : Type 0 where
  move : (ℕ → ℕ → List ℤ) → BoardDef → String → Play
  draw : DeckDef → Bool → Play
  roll : (ℕ → ℕ → List ℤ) → String → String → Play

has_pile-put_pile :
    (id deck_id : String) (pile : DeckInstance) (instances : ElementInstances)
    → has_pile instances id ≡ true
    → has_pile (put_pile deck_id pile instances) id ≡ true
unfolding put_pile
has_pile-put_pile id deck_id pile instances h =
    ap is_some (lookup-insert deck_id id pile instances.deck_piles) ∙ ground arith

has_pile-draw_top :
    (id : String) (deck_def : DeckDef) (pile : DeckInstance) (consumed : Bool)
    (instances : ElementInstances) (cards : List String)
    → has_pile instances id ≡ true
    → has_pile (draw_top deck_def pile consumed instances cards).0 id ≡ true
unfolding draw_top draw_found draw_card
has_pile-draw_top id deck_def pile consumed instances [] h = h
has_pile-draw_top id deck_def pile consumed instances (c ∷ cards) h =
    of_card (find (λ (d : CardDef). d.id == c) deck_def.cards) consumed
  where
    of_card :
        (o : Option CardDef) (consumed : Bool)
        → has_pile (draw_found deck_def pile c consumed instances o).0 id ≡ true
    of_card none consumed = h
    of_card (some card) false = h
    of_card (some card) true = has_pile-put_pile id deck_def.id _ instances h

abbrev pub with_roll :
    ElementInstances → Option MechanicalResult → ElementInstances × Option MechanicalResult
with_roll instances result = (instances, result)

abbrev pub play_one : Play → ElementInstances → ElementInstances × Option MechanicalResult
play_one (move roller board actor) instances = execute_board_move roller board instances actor
play_one (draw deck_def consume) instances = execute_card_draw deck_def instances consume
play_one (roll roller dice_expr label) instances =
    with_roll instances (execute_dice_roll roller dice_expr label)

-- The instances after the plays, and the results of those that gave one.
abbrev pub add_result : Option MechanicalResult → List MechanicalResult → List MechanicalResult
add_result none results = results
add_result (some r) results = r ∷ results

abbrev pub play : List Play → ElementInstances → ElementInstances × List MechanicalResult
play [] instances = (instances, [])
play (p ∷ plays) instances =
    let (next, result) = play_one p instances in
    let (last, results) = play plays next in (last, add_result result results)

-- Every drawn deck has its pile.
abbrev pub AllDealt : ElementInstances → List Play → Type 0
AllDealt instances [] = Unit
AllDealt instances (move roller board actor ∷ plays) = AllDealt instances plays
AllDealt instances (draw deck_def consume ∷ plays) =
    (has_pile instances deck_def.id ≡ true) × AllDealt instances plays
AllDealt instances (roll roller dice_expr label ∷ plays) = AllDealt instances plays

-- A play is replayed from its result, leaves the piles stocked, and drops none.
abbrev IsReplayed : ElementInstances → ElementInstances × Option MechanicalResult → Type 0
IsReplayed instances after =
    Replays instances after
    × IsStocked after.0
    × ((id : String) → has_pile instances id ≡ true → has_pile after.0 id ≡ true)

move_by-IsReplayed :
    (board : BoardDef) (actor : String) (instances : ElementInstances)
    (rolled : Option SystemRollResult)
    → IsStocked instances
    → IsReplayed instances (move_by board instances actor rolled)
unfolding move_by apply_mechanical_result_to_instances place
move_by-IsReplayed board actor instances none s = (refl, s, λ id h. h)
move_by-IsReplayed board actor instances (some r) s = (refl, s, λ id h. h)

rolled-IsReplayed :
    (dice_expr label : String) (instances : ElementInstances) (rolled : Option SystemRollResult)
    → IsStocked instances
    → IsReplayed instances (with_roll instances (result_of_roll dice_expr label rolled))
unfolding result_of_roll apply_mechanical_result_to_instances
rolled-IsReplayed dice_expr label instances none s = (refl, s, λ id h. h)
rolled-IsReplayed dice_expr label instances (some r) s = (refl, s, λ id h. h)

draw-IsReplayed :
    (deck_def : DeckDef) (consume : Bool) (instances : ElementInstances)
    → IsStocked instances
    → has_pile instances deck_def.id ≡ true
    → IsReplayed instances (execute_card_draw deck_def instances consume)
unfolding execute_card_draw
draw-IsReplayed deck_def consume instances s dealt =
    let (replays, stocked) = execute_card_draw-Replays deck_def consume instances s dealt in
    let pile = pile_of deck_def instances in
    (
      replays,
      stocked,
      λ id h.
          has_pile-draw_top id deck_def pile (consume && deck_def.consume_on_draw)
            (put_pile deck_def.id pile instances) pile.draw_pile
            (has_pile-put_pile id deck_def.id pile instances h),
    )

AllDealt-later :
    (plays : List Play) (before after : ElementInstances)
    → ((id : String) → has_pile before id ≡ true → has_pile after id ≡ true)
    → AllDealt before plays
    → AllDealt after plays
AllDealt-later [] before after keeps d = tt
AllDealt-later (move roller board actor ∷ plays) before after keeps d =
    AllDealt-later plays before after keeps d
AllDealt-later (draw deck_def consume ∷ plays) before after keeps (d, later) =
    (keeps deck_def.id d, AllDealt-later plays before after keeps later)
AllDealt-later (roll roller dice_expr label ∷ plays) before after keeps d =
    AllDealt-later plays before after keeps d

add_result_lem :
    (instances after : ElementInstances) (o : Option MechanicalResult)
    (results : List MechanicalResult)
    → Replays instances (after, o)
    → apply_results instances (add_result o results) ≡ apply_results after results
unfolding apply_results
add_result_lem instances after none results r = ap (λ i. apply_results i results) (sym r)
add_result_lem instances after (some result) results r = ap (λ i. apply_results i results) r

play_one-IsReplayed :
    (p : Play) (plays : List Play) (instances : ElementInstances)
    → IsStocked instances
    → AllDealt instances (p ∷ plays)
    → IsReplayed instances (play_one p instances) × AllDealt instances plays
unfolding execute_board_move execute_dice_roll
play_one-IsReplayed (move roller board actor) plays instances s d =
    (move_by-IsReplayed board actor instances (roll_system_dice roller board.move_dice) s, d)
play_one-IsReplayed (draw deck_def consume) plays instances s (dealt, d) =
    (draw-IsReplayed deck_def consume instances s dealt, d)
play_one-IsReplayed (roll roller dice_expr label) plays instances s d =
    (rolled-IsReplayed dice_expr label instances (roll_system_dice roller dice_expr) s, d)

-- The replay of the results of any moves, draws and rolls, each with dice of its own, gives the
-- positions and piles that these left, if it starts from the same ones, no card lies twice in a pile and its discard, and every drawn deck
-- has its pile.
pub apply_results-play :
    (plays : List Play) (instances : ElementInstances)
    → IsStocked instances
    → AllDealt instances plays
    → apply_results instances (play plays instances).1 ≡ (play plays instances).0
unfolding apply_results
apply_results-play [] instances s d = refl
apply_results-play (p ∷ plays) instances s d =
    let ((replays, stocked, keeps), rest) = play_one-IsReplayed p plays instances s d in
    let next = (play_one p instances).0 in
    add_result_lem instances next (play_one p instances).1 (play plays next).1 replays
    ∙ apply_results-play plays next stocked (AllDealt-later plays instances next keeps rest)
