-- ===== src/Base/Float.antt =====
-- What the code relies on of float64: quotients of two ints and the order of finite values. The
-- type and its operations are a parameter of the components that compare ratios.
use mathlib.Core.Path.{◌≡◌}
use mathlib.Core.Bool.{Bool, true, false}
use spoond.Base.Int.{ℤ, pos, ◌≤ℤ◌, ◌<ℤ◌}

-- IEEE 754: comparison of values that are not NaN is a total order, and division by one positive
-- divisor, rounded, is monotone in the dividend.
pub record Float64 : Type 1 where
  pub Value : Type 0
  pub quot : ℤ → ℤ → Value
  pub gtb : Value → Value → Bool
  pub gtb_irrefl : (a : Value) → gtb a a ≡ false
  pub gtb_trans : (a b c : Value) → gtb a b ≡ true → gtb b c ≡ true → gtb a c ≡ true
  pub gtb_cotrans : (a b c : Value) → gtb a b ≡ false → gtb b c ≡ false → gtb a c ≡ false
  pub quot_mono : (a b s : ℤ) → a ≤ℤ b → pos 0 <ℤ s → gtb (quot a s) (quot b s) ≡ false
