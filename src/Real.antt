-- ===== src/Real.antt =====
-- Floating point numbers are a parameter of the model: a type with the operations that the code uses.
-- Nothing is assumed of them but what a theorem states.
use libov.Prelude.{ℕ, ◌+◌, ◌-◌, ◌*◌, ◌/◌, Bool, if◌then◌else◌, ltb, ◌==◌}

pub record RealOps (R : Type 0) : Type 0 where
  pub of_nat : ℕ → R
  pub add : R → R → R
  pub sub : R → R → R
  pub mul : R → R → R
  pub div : R → R → R
  pub neg_one : R
  pub lt : R → R → Bool
  pub eq : R → R → Bool

-- std::max and std::min.
module _ {R : Type 0} (real : RealOps R) where
  abbrev pub max_real : R → R → R
  max_real a b = if real.lt a b then b else a

  abbrev pub min_real : R → R → R
  min_real a b = if real.lt b a then b else a

-- Numbers in place of floats, for tests.
abbrev pub nat_real : RealOps ℕ
nat_real = record {
  of_nat = λ n. n;
  add = λ a b. a + b;
  sub = λ a b. a - b;
  mul = λ a b. a * b;
  div = λ a b. a / b;
  neg_one = 0;
  lt = ltb;
  eq = λ a b. a == b;
}
