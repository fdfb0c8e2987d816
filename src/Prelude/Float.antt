-- ===== src/Prelude/Float.antt =====
-- `f64`, whose values and operations are a parameter: the development has no floating point.
use Prim.Native.Nat.{ℕ}
use Prim.Native.String.{String}
use mathlib.Core.Bool.{Bool}

pub record Float : Type 1 where
  pub F : Type 0
  -- a literal, by its text, and `n as f64`
  pub literal : String → F
  pub of_nat : ℕ → F
  pub add : F → F → F
  pub sub : F → F → F
  pub mul : F → F → F
  pub div : F → F → F
  pub neg : F → F
  pub abs : F → F
  -- `f64::max`, `f64::min`
  pub max : F → F → F
  pub min : F → F → F
  -- `<=`, `<`, `==`
  pub le : F → F → Bool
  pub lt : F → F → Bool
  pub eq : F → F → Bool
  -- `a.total_cmp(b)` is not `Greater`
  pub total_le : F → F → Bool
  pub is_finite : F → Bool
  -- the text of `{:.4}`
  pub text4 : F → String
  -- the text of `{}`
  pub text : F → String
