-- ===== src/Sequence/Tests.antt =====
-- The sequence laws at small payloads.
use dreamwell.Common.{◌≡◌, refl, Bool, true, false, some, List, [], ◌∷◌, String, arith}
use dreamwell.Common.Int.{ℤ, pos, negsuc, ◌+ℤ◌}
use dreamwell.Sequence.{SequencePayload, Json, ok, step}
use dreamwell.Sequence.Laws.{IsValid, step-loop, step-IsValid}

abbrev order : List String
order = "pc" ∷ "maya" ∷ "ryan" ∷ []

abbrev cursor : ℤ → Bool → SequencePayload
cursor position loop = record { items = order; position = position; loop = loop }

abbrev json : Json
json = record { print = λ p. "order"; parse = λ s. some (cursor (pos 0) true) }

valid : (loop : Bool) → IsValid (cursor (pos 2) loop)
valid loop = record { low = omega arith; high = omega arith }

-- Two steps back from the first of three.
step-loop_example : step (cursor (pos 0) true) (negsuc 1) ≡ (cursor (pos 1) true, ok)
unfolding ◌+ℤ◌
step-loop_example =
    step-loop (cursor (pos 0) true) (negsuc 1) refl (λ h. cc) (omega arith)
      (omega arith, omega arith)

step-IsValid_example : IsValid (step (cursor (pos 1) false) (pos 7)).0
step-IsValid_example = step-IsValid (cursor (pos 1) false) (pos 7) (λ h. cc) (omega arith)
