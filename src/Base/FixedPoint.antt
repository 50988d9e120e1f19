-- ===== src/Base/FixedPoint.antt =====
-- A value of the float64 interface: hundredths, rounded down. It shows that the laws can be met.
use Prim.Native.Nat.{ℕ, ◌*◌, ◌/◌, ◌≤◌, ◌<◌}
use mathlib.Core.Path.{◌≡◌}
use mathlib.Core.Bool.{Bool, true, false}
use native.Mathlib.Nat.{le-div_iff_mul-le, div-mul-le_self}
use native.Mathlib.Omega.{arith}
use spoond.Base.Int.{ℤ, pos, negsuc, ◌≤ℤ◌, ◌<ℤ◌, ltb_ℤ}
use spoond.Base.Float.{Float64}

abbrev hundredths : ℤ → ℤ → ℤ
hundredths (pos a) (pos s) = pos (a * 100 / s)
hundredths (pos a) (negsuc s) = pos 0
hundredths (negsuc a) s = negsuc 0

abbrev above : ℤ → ℤ → Bool
above a b = ltb_ℤ b a

pub above_irrefl : (a : ℤ) → above a a ≡ false
above_irrefl a = ground arith

pub above_trans : (a b c : ℤ) → above a b ≡ true → above b c ≡ true → above a c ≡ true
above_trans a b c h k = ground arith

pub above_cotrans : (a b c : ℤ) → above a b ≡ false → above b c ≡ false → above a c ≡ false
above_cotrans a b c h k = ground arith

div_mono : (a b s : ℕ) → a ≤ b → 0 < s → a * 100 / s ≤ b * 100 / s
div_mono a b s h k =
    (le-div_iff_mul-le {k = s} {x = a * 100 / s} {y = b * 100} k).1
      (omega (arith, div-mul-le_self (a * 100) s))

pub hundredths_mono :
    (a b s : ℤ) → a ≤ℤ b → pos 0 <ℤ s → above (hundredths a s) (hundredths b s) ≡ false
hundredths_mono (pos a) (pos b) (pos s) h k =
    ground (arith, div_mono a b s (omega arith) (omega arith))
hundredths_mono (pos a) (pos b) (negsuc s) h k = ground arith
hundredths_mono (pos a) (negsuc b) s h k = absurd (omega arith)
hundredths_mono (negsuc a) (pos b) (pos s) h k = ground arith
hundredths_mono (negsuc a) (pos b) (negsuc s) h k = ground arith
hundredths_mono (negsuc a) (negsuc b) s h k = ground arith

abbrev pub centi : Float64
centi = record {
  Value = ℤ;
  quot = hundredths;
  gtb = above;
  gtb_irrefl = above_irrefl;
  gtb_trans = above_trans;
  gtb_cotrans = above_cotrans;
  quot_mono = hundredths_mono;
}
