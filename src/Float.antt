-- ===== src/Float.antt =====
-- The `float` of the program and what SimpleServer's sources do with it, as an interface: there are
-- no floats here. Laws that a theorem needs are hypotheses of that theorem.
use simple_server.Prelude.{ℕ, Bool}
use simple_server.Prelude.Int.{ℤ}

pub record FloatOps : Type 1 where
  pub F : Type 0
  -- The float nearest to `n / 10 ^ k`: `lit 5 1` is `0.5f`.
  pub lit : ℕ → ℕ → F
  pub add : F → F → F
  pub sub : F → F → F
  pub mul : F → F → F
  pub div : F → F → F
  pub neg : F → F
  -- `std::abs`
  pub abs : F → F
  pub lt : F → F → Bool
  pub le : F → F → Bool
  pub eq : F → F → Bool
  -- The conversion of an `int`.
  pub of_int : ℤ → F
  -- `static_cast<int>(std::floor(x))`, and `(int)std::ceil(x)`
  pub floor_int : F → ℤ
  pub ceil_int : F → ℤ
