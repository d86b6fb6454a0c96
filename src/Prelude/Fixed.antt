-- ===== src/Prelude/Fixed.antt =====
-- A fixed-point stand-in for float64 that the tests run on: a number of hundredths.
use Prim.Native.Nat.{ℕ, ◌+◌, ◌-◌, ◌*◌, ◌/◌, min}
use mathlib.Core.Path.{refl}
use go_agile_pool.Prelude.Tests.{ltb, leb}
use go_agile_pool.Prelude.Int.{pos, pos_part}
use go_agile_pool.Prelude.Float.{Float64}

abbrev pub fixed : Float64
fixed = record {
  F = ℕ;
  hundredths = λ n. n;
  lt = ltb;
  le = leb;
  add = λ a b. a + b;
  sub = λ a b. a - b;
  mul = λ a b. a * b / 100;
  div = λ a b. a * 100 / b;
  least = min;
  halves = λ m. m * 50;
  from_int = λ n. pos_part n * 100;
  to_int = λ x. pos (x / 100);
  zero_le_three_tenths = refl;
  three_tenths_le_one = refl;
  no_half_above_zero = refl;
}
