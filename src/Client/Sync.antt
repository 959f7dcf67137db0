-- ===== src/Client/Sync.antt =====
-- Open stories and games against the lists and the event stream: crates/frontend/src/story_sync.rs and game_sync.rs.
use dreamwell.Common.{
  ℕ, suc, ◌<◌, ◌≡◌, refl, Bool, true, false, ◌&&◌, Option, none, some, List, [], ◌∷◌, map,
  if◌then◌else◌, ltb, nat_beq, is_some, is_none, arith, ◌==◌, ==_iff, not,
}
use dreamwell.Common.Int.{ℤ, int_eq}
use dreamwell.Queue.Job.{Job}

-- A fetch generation is a `u64` that stops at its largest value.
abbrev pub bump : ℕ → ℕ
bump generation = if ltb generation 18446744073709551615 then suc generation else generation

unfoldable pub fetch_response_is_current : ℕ → ℕ → Bool → Bool
fetch_response_is_current started latest pending_matches = nat_beq started latest && pending_matches

-- A story or a game: its id, its active job and what else it shows.
module _ {ℓ} (A : Type ℓ) where
  pub record Item : Type ℓ where
    pub id : ℤ
    pub active_job : Option Job
    pub rest : A

pub should_replace_detail_from_sse : Option Job → Bool
should_replace_detail_from_sse active_job = is_some active_job

module _ {ℓ} {A : Type ℓ} where
  -- `detail_stale_vs_story_list` and `detail_stale_vs_game_list`, of the item of the open detail.
  pub detail_stale_vs_list : Item A → Item A → Bool
  detail_stale_vs_list detail item = is_some detail.active_job && is_none item.active_job

  pub detail_stale_vs_sse : Item A → Option Job → Bool
  detail_stale_vs_sse detail payload_active = is_some detail.active_job && is_none payload_active

  -- `story_list_with_detail` and `game_list_with_detail`.
  pub list_with_detail : List (Item A) → Item A → List (Item A)
  list_with_detail items detail =
      map (λ (s : Item A). if s.id == detail.id then detail else s) items

  -- While the detail has a job, a payload is taken over just when the detail is not stale against it.
  pub replace-or-stale :
      (detail : Item A) (payload_active : Option Job)
      → is_some detail.active_job ≡ true
      → should_replace_detail_from_sse payload_active
        ≡ not (detail_stale_vs_sse detail payload_active)
  unfolding should_replace_detail_from_sse detail_stale_vs_sse
  replace-or-stale detail none h = ground arith
  replace-or-stale detail (some job) h = ground arith

  -- The list keeps its ids and their order.
  pub list_with_detail-ids :
      (items : List (Item A)) (detail : Item A)
      → map (λ (s : Item A). s.id) (list_with_detail items detail)
        ≡ map (λ (s : Item A). s.id) items
  unfolding list_with_detail
  list_with_detail-ids [] detail = refl
  list_with_detail-ids (s ∷ items) detail =
      ground (arith, ==_iff s.id detail.id, list_with_detail-ids items detail)

-- Of two fetches the response of the first is not applied once the second has started.
pub superseded :
    (generation : ℕ) (pending_matches : Bool)
    → generation < 18446744073709551615
    → fetch_response_is_current generation (bump generation) pending_matches ≡ false
unfolding fetch_response_is_current
superseded generation pending_matches h = ground arith
