-- ===== src/State/Bounds.antt =====
-- Measurements and the bounds of their entry: `plan_measurement_change` of crates/dreamwell-state/src/apply.rs.
use dreamwell.Common.{
  ◌≡◌, ◌⊎◌, Option, none, some, [], ◌∷◌, false, ==_iff, arith, inl, inr, String, unwrap_or,
}
use dreamwell.Common.Int.{ℤ, pos}
use dreamwell.State.Types.{
  StateOp, set, add, measurement, kind_eq, StateEntry, StateChangeRequest, FloatOps,
  clamp_measurement,
}
use dreamwell.State.Mutation.{update_measurement}
use dreamwell.State.PlanMeasurement.{
  plan_measurement_with_collision, reading_for, float_from_change,
}

-- What `f64::max` and `f64::min` do on numbers that are ordered. A text in a request can also be
-- read as NaN, which is not.
pub record IsOrdered {R : Type 0} (ops : FloatOps R) (le : R → R → Type 0) : Type 0 where
  pub le_larger : (a b : R) → le b (ops.larger a b)
  pub smaller_le : (a b : R) → le (ops.smaller a b) b
  pub le_smaller : (c a b : R) → le c a → le c b → le c (ops.smaller a b)

module _ {R : Type 0} (ops : FloatOps R) (le : R → R → Type 0) (o : IsOrdered ops le) where
  abbrev pub AtLeast : Option R → R → Type 0
  AtLeast none v = Unit
  AtLeast (some m) v = le m v

  abbrev pub AtMost : Option R → R → Type 0
  AtMost none v = Unit
  AtMost (some m) v = le v m

  -- The bounds do not cross.
  abbrev pub IsRange : Option R → Option R → Type 0
  IsRange (some low) (some high) = le low high
  IsRange _ _ = Unit

  clamp_measurement_bounds :
      (v : R) (low high : Option R)
      → IsRange low high
      → AtLeast low (clamp_measurement ops v low high)
        × AtMost high (clamp_measurement ops v low high)
  unfolding clamp_measurement
  clamp_measurement_bounds v none none r = (tt, tt)
  clamp_measurement_bounds v none (some h) r = (tt, o.smaller_le v h)
  clamp_measurement_bounds v (some l) none r = (o.le_larger v l, tt)
  clamp_measurement_bounds v (some l) (some h) r =
      (o.le_smaller l (ops.larger v l) h (o.le_larger v l) r, o.smaller_le (ops.larger v l) h)

  -- What the change makes of the value before the bounds are applied.
  abbrev pub raw_value : StateOp → StateChangeRequest R → StateEntry R → R
  raw_value set change e = unwrap_or (float_from_change ops change) ops.zero
  raw_value _ change e =
      ops.plus (unwrap_or e.float_value ops.zero) (ops.of_int (unwrap_or change.delta (pos 0)))

  planned_value :
      (change : StateChangeRequest R) (actor_id : Option ℤ) (e : StateEntry R)
      → (change.op ≡ set) ⊎ (change.op ≡ add)
      → change.kind ≡ measurement
      → e.kind ≡ measurement
      → let r = reading_for ops change.op change (some e) in
        (plan_measurement_with_collision ops change actor_id (some e)).1
        ≡ update_measurement e.id
            (some (clamp_measurement ops (raw_value change.op change e) e.float_min e.float_max))
            e.float_min
            e.float_max
            r.unit
            false
          ∷ []
  unfolding plan_measurement_with_collision
  planned_value change actor_id e (inl op) k l = rw op (ground (arith, ==_iff e.kind change.kind))
  planned_value change actor_id e (inr op) k l = rw op (ground (arith, ==_iff e.kind change.kind))

  -- Setting or adding to a measurement whose bounds are in order writes a value within them, keeps the bounds,
  -- and writes nothing else.
  pub measurement_within_bounds :
      (change : StateChangeRequest R) (actor_id : Option ℤ) (e : StateEntry R)
      → (change.op ≡ set) ⊎ (change.op ≡ add)
      → change.kind ≡ measurement
      → e.kind ≡ measurement
      → IsRange e.float_min e.float_max
      → (v : R) × (unit : Option String) × ((plan_measurement_with_collision ops change actor_id
            (some e)).1
          ≡ update_measurement e.id (some v) e.float_min e.float_max unit false ∷ [])
        × AtLeast e.float_min v
        × AtMost e.float_max v
  measurement_within_bounds change actor_id e op k l r =
      let raw = raw_value change.op change e in
      let (low, high) = clamp_measurement_bounds raw e.float_min e.float_max r in
      (_, _, planned_value change actor_id e op k l, low, high)
