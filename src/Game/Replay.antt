-- ===== src/Game/Replay.antt =====
-- Piles under draws and under the replay of their results: crates/server/src/game_mechanics.rs.
use mathlib.Core.Path.{subst}
use dreamwell.Common.{
  ◌≡◌, refl, sym, ap, ◌∙◌, inl, inr, Bool, true, false, ◌&&◌, ◌||◌, Option, none, some, List, [],
  ◌∷◌, ◌++◌, String, find, ◌==◌, ==_iff, string_eq, arith, Bool-cases, Option-cases, is_some,
}
use dreamwell.Common.Dict.{lookup, insert}
use dreamwell.Game.Elements.{CardDef, DeckDef, DeckInstance, ElementInstances, MechanicalResult}
use dreamwell.Game.Mechanics.{
  execute_card_draw, draw_found, draw_top, draw_card, put_pile, pile_of, remove_first,
  contains_card, replay_pile, replay_card, apply_mechanical_result_to_instances,
}

-- No card of the draw pile lies twice, in it or in the discard.
abbrev pub IsFresh : List String → List String → Type 0
IsFresh [] discard = Unit
IsFresh (c ∷ draw) discard =
    (contains_card c draw ≡ false) × (contains_card c discard ≡ false) × IsFresh draw discard

abbrev pub IsPile : DeckInstance → Type 0
IsPile p = IsFresh p.draw_pile p.discard

abbrev pub HasPiles : List (String × DeckInstance) → Type 0
HasPiles [] = Unit
HasPiles ((id, p) ∷ piles) = IsPile p × HasPiles piles

contains-append :
    (c d : String) (xs : List String)
    → contains_card c (xs ++ d ∷ []) ≡ (contains_card c xs || (d == c))
contains-append c d [] = ground arith
contains-append c d (x ∷ xs) = ground (arith, contains-append c d xs)

discarded-IsFresh :
    (c : String) (draw discard : List String)
    → contains_card c draw ≡ false
    → IsFresh draw discard
    → IsFresh draw (discard ++ c ∷ [])
discarded-IsFresh c [] discard h f = tt
discarded-IsFresh c (d ∷ draw) discard h (a, b, f) =
    let other : (c == d) ≡ false = ground (arith, ==_iff d c, ==_iff c d) in
    let apart : contains_card d (discard ++ c ∷ []) ≡ false =
      contains-append d c discard ∙ ground arith in
    (a, apart, discarded-IsFresh c draw discard (ground arith) f)

lookup-HasPiles :
    (id : String) (piles : List (String × DeckInstance)) (p : DeckInstance)
    → HasPiles piles
    → lookup id piles ≡ some p
    → IsPile p
unfolding lookup
lookup-HasPiles id [] p h e = absurd (ground arith)
lookup-HasPiles id ((k, q) ∷ piles) p (hq, h) e = elim (Bool-cases (k == id)) [
  | inl hit ↦
      let same : q ≡ p = let found : some q ≡ some p = rw hit at e in ground arith in rw (← same) hq
  | inr miss ↦ lookup-HasPiles id piles p h (rw miss at e)
]

insert-HasPiles :
    (id : String) (piles : List (String × DeckInstance)) (p : DeckInstance)
    → HasPiles piles
    → IsPile p
    → HasPiles (insert id p piles)
unfolding insert
insert-HasPiles id [] p h f = (f, tt)
insert-HasPiles id ((k, q) ∷ piles) p (hq, h) f = elim (Bool-cases (k == id)) [
  | inl hit ↦ rw hit (f, h)
  | inr miss ↦ rw miss (hq, insert-HasPiles id piles p h f)
]

insert_same :
    (id : String) (piles : List (String × DeckInstance)) (p : DeckInstance)
    → lookup id piles ≡ some p
    → insert id p piles ≡ piles
unfolding lookup insert
insert_same id [] p e = absurd (ground arith)
insert_same id ((k, q) ∷ piles) p e = ground (arith, ==_iff k id, insert_same id piles p)

-- A drawn card as the replay of its result moves it.
replay_drawn :
    (c : String) (draw : List String) (p : DeckInstance)
    → IsPile p
    → p.draw_pile ≡ c ∷ draw
    → (replay_pile c p
        ≡ record p { draw_pile = remove_first c p.draw_pile; discard = p.discard ++ c ∷ [] })
      × IsPile (record p { draw_pile = remove_first c p.draw_pile; discard = p.discard ++ c ∷ [] })
unfolding replay_pile remove_first
replay_drawn c draw p f e =
    let (apart, fresh, rest) = rw e at f in
    let self : (c == c) ≡ true = (==_iff c c).1 refl in
    (rw fresh refl, rw (e, self) (discarded-IsFresh c draw p.discard apart rest))

-- The piles are those of the game, and hold no card twice.
abbrev pub IsStocked : ElementInstances → Type 0
IsStocked instances = HasPiles instances.deck_piles

abbrev pub has_pile : ElementInstances → String → Bool
has_pile instances id = is_some (lookup id instances.deck_piles)

-- The cards that are found have the name that was looked for.
find_card :
    (id : String) (cards : List CardDef) (card : CardDef)
    → find (λ (c : CardDef). c.id == id) cards ≡ some card
    → card.id ≡ id
find_card id [] card e = absurd (ground arith)
find_card id (c ∷ cards) card e = ground (arith, ==_iff c.id id, find_card id cards card)

-- What a draw leaves and what the replay of its result makes are the same, and the piles stay stocked.
abbrev pub Replays : ElementInstances → ElementInstances × Option MechanicalResult → Type 0
Replays before (after, none) = after ≡ before
Replays before (after, some result) = apply_mechanical_result_to_instances before result ≡ after

replay_card_lem :
    (deck_id card_id : String) (instances : ElementInstances) (p : DeckInstance)
    → lookup deck_id instances.deck_piles ≡ some p
    → replay_card deck_id card_id instances ≡ put_pile deck_id (replay_pile card_id p) instances
unfolding replay_card
replay_card_lem deck_id card_id instances p found = ground arith

draw_card-Replays :
    (deck_def : DeckDef) (p : DeckInstance) (id : String) (draw : List String) (card : CardDef)
    (consumed : Bool) (instances : ElementInstances)
    → IsStocked instances
    → lookup deck_def.id instances.deck_piles ≡ some p
    → p.draw_pile ≡ id ∷ draw
    → card.id ≡ id
    → Replays instances (draw_card deck_def p id card consumed instances)
      × IsStocked (draw_card deck_def p id card consumed instances).0
unfolding draw_card apply_mechanical_result_to_instances replay_card put_pile
draw_card-Replays deck_def p id draw card false instances s found top named = (refl, s)
draw_card-Replays deck_def p id draw card true instances s found top named =
    let (moved, fresh) =
      replay_drawn id draw p (lookup-HasPiles deck_def.id instances.deck_piles p s found) top in
    let replayed =
      ap (λ c. replay_card deck_def.id c instances) named
      ∙ replay_card_lem deck_def.id id instances p found
      ∙ ap (λ q. put_pile deck_def.id q instances) moved in
    (replayed, insert-HasPiles deck_def.id instances.deck_piles _ s fresh)

draw_top-Replays :
    (deck_def : DeckDef) (p : DeckInstance) (consumed : Bool) (instances : ElementInstances)
    (draw : List String)
    → IsStocked instances
    → lookup deck_def.id instances.deck_piles ≡ some p
    → p.draw_pile ≡ draw
    → Replays instances (draw_top deck_def p consumed instances draw)
      × IsStocked (draw_top deck_def p consumed instances draw).0
unfolding draw_top
draw_top-Replays deck_def p consumed instances [] s found top = (refl, s)
draw_top-Replays deck_def p consumed instances (id ∷ draw) s found top =
    of_card (find (λ (c : CardDef). c.id == id) deck_def.cards) (find_card id deck_def.cards)
  where
    of_card :
        (o : Option CardDef)
        → ((card : CardDef) → o ≡ some card → card.id ≡ id)
        → Replays instances (draw_found deck_def p id consumed instances o)
          × IsStocked (draw_found deck_def p id consumed instances o).0
    of_card none named = (refl, s)
    of_card (some card) named =
        draw_card-Replays deck_def p id draw card consumed instances s found top (named card refl)

-- A draw from a deck whose pile is dealt.
pub execute_card_draw-Replays :
    (deck_def : DeckDef) (consume : Bool) (instances : ElementInstances)
    → IsStocked instances
    → has_pile instances deck_def.id ≡ true
    → Replays instances (execute_card_draw deck_def instances consume)
      × IsStocked (execute_card_draw deck_def instances consume).0
unfolding execute_card_draw put_pile
execute_card_draw-Replays deck_def consume instances s known =
    elim (Option-cases (lookup deck_def.id instances.deck_piles)) [
      | inl missing ↦ absurd (let e : false ≡ true = rw missing at known in cc)
      | inr (p, found) ↦
          let consumed = consume && deck_def.consume_on_draw in
          let dealt : p ≡ pile_of deck_def instances = rw found refl in
          let same : instances ≡ put_pile deck_def.id p instances =
            ap (λ piles. record instances { deck_piles = piles })
              (sym (insert_same deck_def.id instances.deck_piles p found)) in
          let here = draw_top-Replays deck_def p consumed instances p.draw_pile s found refl in
          let kept =
            subst
              (λ i.
                Replays instances (draw_top deck_def p consumed i p.draw_pile)
                × IsStocked (draw_top deck_def p consumed i p.draw_pile).0)
              same here in
          subst
            (λ q.
              Replays instances
                (draw_top deck_def q consumed (put_pile deck_def.id q instances) q.draw_pile)
              × IsStocked
                  (draw_top deck_def q consumed (put_pile deck_def.id q instances) q.draw_pile).0)
            dealt kept
    ]
