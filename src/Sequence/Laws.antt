-- ===== src/Sequence/Laws.antt =====
-- Cursors and their steps: crates/dreamwell-types/src/state_payload.rs.
use native.Mathlib.Decide.{dec_lt}
use native.Mathlib.Nat.{suc-mod, mod-eq_of_lt, mod-lt, mod_self, add-mod_right}
use dreamwell.Common.{
  ap, ◌∙◌, inl, inr, ℕ, suc, ◌+◌, ◌-◌, ◌%◌, ◌≤◌, ◌<◌, ◌≡◌, ◌≢◌, ◌↔◌, ◌⊎◌, Bool, true, false, Option,
  some, List, [], ◌∷◌, String, length, get_elem?, get_elem?-lt, arith, and_then,
}
use dreamwell.Common.Int.{
  ℤ, pos, negsuc, ◌+ℤ◌, ◌≤ℤ◌, ◌<ℤ◌, IsI64, wrap64, wrap64_of_IsI64, sub_ℕ, rem_ℤ,
}
use dreamwell.Sequence.{
  index_of, SequencePayload, ok, at_end, new, step, active_item, encode, decode, Json,
}

-- The cursor stands on an item. A vector's length is far below 2^62 on every target.
pub record IsValid (p : SequencePayload) : Type 0 where
  pub low : pos 0 ≤ℤ p.position
  pub high : p.position <ℤ pos (length p.items)

abbrev pub vec_max : ℕ
vec_max = 4611686018427387904

-- A payload that is made has the given items, and its cursor stands on one of them.
pub new-IsValid :
    (items : List String) (position : Option ℤ) (loop : Bool) (p : SequencePayload)
    → new items position loop ≡ some p
    → IsValid p × (p.items ≡ items)
unfolding new
new-IsValid [] position loop p h = cc
new-IsValid (x ∷ xs) position loop p h = ground arith

-- `rem_euclid`: the remainder that is never negative.
abbrev pub mod_euclid : ℤ → ℕ → ℕ
mod_euclid (pos n) m = n % m
mod_euclid (negsuc n) m = m - 1 - n % m

-- One step of the remainder: it wraps to zero, or grows by one.
suc-mod_cases :
    (a m : ℕ)
    → 0 < m
    → (suc a % m ≡ 0) × (suc (a % m) ≡ m) ⊎ (suc a % m ≡ suc (a % m)) × (suc (a % m) < m)
suc-mod_cases a m h = elim (dec_lt (suc (a % m)) m) [
  | yes p ↦ inr (suc-mod a m ∙ mod-eq_of_lt p, p)
  | no p ↦
      let e : suc (a % m) ≡ m = omega (arith, mod-lt a h) in
      inl (suc-mod a m ∙ ap (λ t. t % m) e ∙ mod_self m, e)
]

add_self-mod : (a m : ℕ) → a < m → (a + m) % m ≡ a
add_self-mod a m h = add-mod_right a m ∙ mod-eq_of_lt h

add-neg : (r len : ℕ) → r ≤ len → sub_ℕ 0 r +ℤ pos len ≡ pos (len - r)
unfolding ◌+ℤ◌
add-neg r len h = ground arith

add-pos : (r len : ℕ) → pos r +ℤ pos len ≡ pos (r + len)
unfolding ◌+ℤ◌
add-pos r len = ground arith

wrap-pos : (n len : ℕ) → n < len + len → len ≤ vec_max → wrap64 (pos n) ≡ pos n
wrap-pos n len h k = wrap64_of_IsI64 (pos n) (omega arith)

-- The two remainders and the sum between them are the remainder that is never negative.
wrapped-eq-mod_euclid :
    (x : ℤ) (len : ℕ)
    → 0 < len
    → len ≤ vec_max
    → rem_ℤ (wrap64 (rem_ℤ x len +ℤ pos len)) len ≡ pos (mod_euclid x len)
wrapped-eq-mod_euclid (pos n) len h k =
    let small : n % len < len = mod-lt n h in
    rw (add-pos (n % len) len) (
      rw (wrap-pos (n % len + len) len (omega arith) k) (ap pos (add_self-mod (n % len) len small)))
wrapped-eq-mod_euclid (negsuc n) len h k =
    let small : suc n % len < len = mod-lt (suc n) h in
    rw (add-neg (suc n % len) len (omega arith)) (
      rw (wrap-pos (len - suc n % len) len (omega arith) k) (elim (suc-mod_cases n len h) [
        | inl (e, f) ↦
            let whole : len - suc n % len ≡ len = omega arith in
            ap pos (ap (λ t. t % len) whole ∙ mod_self len ∙ omega arith)
        | inr (e, f) ↦ ap pos (mod-eq_of_lt (omega arith) ∙ omega arith)
      ]))

mod_euclid-lt : (x : ℤ) (len : ℕ) → 0 < len → mod_euclid x len < len
mod_euclid-lt (pos n) len h = mod-lt n h
mod_euclid-lt (negsuc n) len h = omega (arith, mod-lt n h)

-- In a loop the cursor moves by `delta` round the list; `prev + delta` fits in 64 bits.
pub step-loop :
    (p : SequencePayload) (delta : ℤ)
    → p.loop ≡ true
    → p.items ≢ []
    → length p.items ≤ vec_max
    → IsI64 (p.position +ℤ delta)
    → step p delta
      ≡ (record p { position = pos (mod_euclid (p.position +ℤ delta) (length p.items)) }, ok)
unfolding step
step-loop p delta l n k i = ground (
  arith,
  wrapped-eq-mod_euclid (p.position +ℤ delta) (length p.items),
  wrap64_of_IsI64 (p.position +ℤ delta) i,
)

-- Whatever the delta, and if the sum wraps round too, the cursor stays on an item.
pub step-IsValid :
    (p : SequencePayload) (delta : ℤ)
    → p.items ≢ []
    → length p.items ≤ vec_max
    → IsValid (step p delta).0
unfolding step
step-IsValid p delta h k = ground (
  arith,
  wrapped-eq-mod_euclid (wrap64 (p.position +ℤ delta)) (length p.items),
  mod_euclid-lt (wrap64 (p.position +ℤ delta)) (length p.items),
)

item_at :
    (items : List String) (z : ℤ)
    → pos 0 ≤ℤ z
    → z <ℤ pos (length items)
    → (item : String) × (and_then (index_of z) (get_elem? items) ≡ some item)
item_at items (pos n) low high = get_elem?-lt items n (omega arith)
item_at items (negsuc n) low high = absurd (omega arith)

-- A cursor that stands on an item has an active item.
pub active_item-IsValid :
    (p : SequencePayload) → IsValid p → (item : String) × (active_item p ≡ some item)
unfolding active_item
active_item-IsValid p v = item_at p.items p.position v.low v.high

-- Without a loop, `at_end` is reported exactly when the cursor was asked to move and did not.
pub at_end_iff :
    (p : SequencePayload) (delta : ℤ)
    → p.loop ≡ false
    → IsValid p
    → IsI64 (p.position +ℤ delta)
    → ((step p delta).1 ≡ at_end) ↔ (((step p delta).0.position ≡ p.position) × (delta ≢ pos 0))
unfolding step ◌+ℤ◌
at_end_iff p delta l v i = ground (arith, wrap64_of_IsI64 (p.position +ℤ delta) i)

-- Where the parser reads back what the printer wrote, a payload survives, unless it is empty.
pub decode-encode_iff :
    (json : Json) (p : SequencePayload)
    → json.parse (json.print p) ≡ some p
    → (decode json (encode json p) ≡ some p) ↔ (p.items ≢ [])
unfolding decode encode
decode-encode_iff json p h = rw h (ground arith)
