-- ===== src/Sequence.antt =====
-- An ordered list of texts with a cursor: crates/dreamwell-types/src/state_payload.rs.
-- `serde_json` is the parameter `Json`: a printer and a parser of payloads.
pub mod Laws
mod Tests
use dreamwell.Common.{
  ℕ, ◌+◌, ◌-◌, Bool, true, false, ◌&&◌, ◌||◌, Option, none, some, List, String, length, get_elem?,
  is_empty, if◌then◌else◌, and_then, unwrap_or,
}
use dreamwell.Common.Int.{
  ℤ, pos, negsuc, ◌+ℤ◌, rem_ℤ, clamp_ℤ, ltb_ℤ, leb_ℤ, wrap64, pos_part, neg_part,
}
use dreamwell.Common.{◌≡◌}

pub record SequencePayload : Type 0 where
  pub items : List String
  pub position : ℤ
  pub loop : Bool

pub data StepSequenceResult : Type 0 where
  ok rejected_empty at_end : StepSequenceResult

-- The index of the last item, `len - 1`.
abbrev pub last_index : List String → ℤ
last_index items = if is_empty items then negsuc 0 else pos (length items - 1)

unfoldable pub new : List String → Option ℤ → Bool → Option SequencePayload
new items position loop =
    if is_empty items
    then none
    else some (record {
      items = items;
      position = clamp_ℤ (unwrap_or position (pos 0)) (pos 0) (last_index items);
      loop = loop;
    })

-- What the program uses of `serde_json` for this type: `to_string` and `from_str`.
pub record Json : Type 0 where
  pub print : SequencePayload → String
  pub parse : String → Option SequencePayload

unfoldable pub encode : Json → SequencePayload → String
encode json p = json.print p

-- A parsed payload with no items is refused.
unfoldable pub decode : Json → String → Option SequencePayload
decode json raw =
    and_then (json.parse raw) (λ payload. if is_empty payload.items then none else some payload)

-- `usize::try_from` fails on a negative position.
abbrev index_of : ℤ → Option ℕ
index_of (pos n) = some n
index_of (negsuc n) = none

unfoldable pub active_item : SequencePayload → Option String
active_item p = and_then (index_of p.position) (get_elem? p.items)

unfoldable pub step : SequencePayload → ℤ → SequencePayload × StepSequenceResult
step p delta =
    let len = length p.items in
    let prev = p.position in
    let moved = wrap64 (prev +ℤ delta) in
    let wrapped = rem_ℤ (wrap64 (rem_ℤ moved len +ℤ pos len)) len in
    let clamped = clamp_ℤ moved (pos 0) (last_index p.items) in
    let ended =
      (ltb_ℤ (pos 0) delta && leb_ℤ (last_index p.items) prev)
      || (ltb_ℤ delta (pos 0) && leb_ℤ prev (pos 0)) in
    if is_empty p.items
    then (p, rejected_empty)
    else if p.loop
    then (record p { position = wrapped }, ok)
    else (record p { position = clamped }, if ended then at_end else ok)
