-- ===== src/State/Types.antt =====
-- The rows and requests of the state engine: crates/dreamwell-types/src/lib.rs.
-- `f64` is a type `R` with the operations that the program uses of it, `FloatOps R`.
use dreamwell.Common.{ℕ, ◌≡◌, ◌↔◌, Bool, true, Option, none, some, List, String, arith, nat_beq, Eq}
use dreamwell.Common.Int.{ℤ}

pub data StateKind : Type 0 where
  variable condition measurement sequence : StateKind

pub data StateOp : Type 0 where
  set add remove setmin setmax step : StateOp

abbrev pub kind_code : StateKind → ℕ
kind_code variable = 0
kind_code condition = 1
kind_code measurement = 2
kind_code sequence = 3

abbrev pub op_code : StateOp → ℕ
op_code set = 0
op_code add = 1
op_code remove = 2
op_code setmin = 3
op_code setmax = 4
op_code step = 5

pub kind_code_iff : (a b : StateKind) → (nat_beq (kind_code a) (kind_code b) ≡ true) ↔ (a ≡ b)
kind_code_iff a b = ground arith

pub op_code_iff : (a b : StateOp) → (nat_beq (op_code a) (op_code b) ≡ true) ↔ (a ≡ b)
op_code_iff a b = ground arith

instance abbrev pub kind_eq : Eq StateKind
kind_eq = record { eqb = λ a b. nat_beq (kind_code a) (kind_code b); eqb_iff = kind_code_iff }

instance abbrev pub op_eq : Eq StateOp
op_eq = record { eqb = λ a b. nat_beq (op_code a) (op_code b); eqb_iff = op_code_iff }

-- An actor of a session. Times are seconds.
pub record SessionActor : Type 0 where
  pub id : ℤ
  pub game_id : ℤ
  pub role : String
  pub name : String
  pub description : String
  pub skills : List (String × ℤ)
  pub sort_order : ℤ
  pub created_at : ℕ
  pub updated_at : ℕ

pub record StateEntry (R : Type 0) : Type 0 where
  pub id : ℤ
  pub game_id : ℤ
  pub actor_id : Option ℤ
  pub kind : StateKind
  pub key : String
  pub value : String
  pub num_value : Option ℤ
  pub max_value : Option ℤ
  pub float_value : Option R
  pub float_min : Option R
  pub float_max : Option R
  pub unit : Option String
  pub source_turn : ℤ
  pub updated_at : ℕ

pub record StateChangeRequest (R : Type 0) : Type 0 where
  pub target : String
  pub kind : StateKind
  pub key : String
  pub op : StateOp
  pub value : Option String
  pub delta : Option ℤ
  pub float_value : Option R
  pub float_min : Option R
  pub float_max : Option R
  pub unit : Option String
  pub sequence_items : Option (List String)
  pub sequence_position : Option ℤ
  pub sequence_loop : Option Bool

-- The audit record of one change: what the revert is planned from.
pub record AppliedStateChange (R : Type 0) : Type 0 where
  pub target : String
  pub kind : StateKind
  pub key : String
  pub op : StateOp
  pub value : Option String
  pub delta : Option ℤ
  pub prev_value : Option String
  pub prev_num : Option ℤ
  pub prev_float : Option R
  pub prev_float_min : Option R
  pub prev_float_max : Option R
  pub prev_unit : Option String
  pub unit : Option String
  pub prev_kind : Option StateKind

-- `round` is `round() as i64`, `of_int` is `as f64`, `larger` and `smaller` are `f64::max` and `f64::min`.
pub record FloatOps (R : Type 0) : Type 0 where
  pub zero : R
  pub plus : R → R → R
  pub larger : R → R → R
  pub smaller : R → R → R
  pub of_int : ℤ → R
  pub round : R → ℤ
  pub parse : String → Option R
  pub show : R → String

module _ {R : Type 0} (ops : FloatOps R) where
  abbrev pub raise_to : R → Option R → R
  raise_to v none = v
  raise_to v (some m) = ops.larger v m

  abbrev pub lower_to : R → Option R → R
  lower_to v none = v
  lower_to v (some m) = ops.smaller v m

  unfoldable pub clamp_measurement : R → Option R → Option R → R
  clamp_measurement value low high = lower_to (raise_to value low) high
