-- ===== src/Prelude/Float.antt =====
-- What the program uses of float64. Nothing is assumed of its arithmetic: only that the literals
-- 0, 0.3 and 1 are in order, and that half of 0 is not above 0.
use mathlib.Core.Path.{◌≡◌}
use mathlib.Core.Bool.{Bool, true, false}
use Prim.Native.Nat.{ℕ}
use go_agile_pool.Prelude.Int.{ℤ}

pub record Float64 : Type 1 where
  pub F : Type 0
  -- the literal `m / 100`
  pub hundredths : ℕ → F
  pub lt : F → F → Bool
  pub le : F → F → Bool
  pub add : F → F → F
  pub sub : F → F → F
  pub mul : F → F → F
  pub div : F → F → F
  -- the built-in `min`
  pub least : F → F → F
  -- the float64 of `m / 2`
  pub halves : ℕ → F
  -- `float64(n)` and `int64(x)`
  pub from_int : ℤ → F
  pub to_int : F → ℤ
  pub zero_le_three_tenths : le (hundredths 0) (hundredths 30) ≡ true
  pub three_tenths_le_one : le (hundredths 30) (hundredths 100) ≡ true
  pub no_half_above_zero : lt (hundredths 0) (halves 0) ≡ false
