-- ===== src/Prelude/FloatToy.antt =====
-- A stand-in for `f64` with which tests compute: natural numbers, counted in hundredths.
use Prim.Native.Nat.{ℕ, ◌+◌, ◌-◌, ◌*◌, ◌/◌, max, min}
use Prim.Native.String.{String}
use mathlib.Core.Bool.{true}
use simon.Prelude.Tests.{leb, ltb, ◌==◌, if◌then◌else◌}
use simon.Prelude.Text.{str_eq}
use simon.Prelude.Float.{Float}

-- The literals of the program.
abbrev setne : String → ℕ
setne s =
    if str_eq s "1.0"
    then 100
    else if str_eq s "4.0"
    then 400
    else if str_eq s "0.9"
    then 90
    else if str_eq s "1000000.0"
    then 100000000
    else if str_eq s "0.25"
    then 25
    else if str_eq s "0.05"
    then 5
    else if str_eq s "0.02"
    then 2
    else 0

abbrev pub setne_float : Float
setne_float = record {
  F = ℕ;
  literal = setne;
  of_nat = λ n. n * 100;
  add = λ a c. a + c;
  sub = λ a c. a - c;
  mul = λ a c. a * c / 100;
  div = λ a c. a * 100 / c;
  neg = λ a. a;
  abs = λ a. a;
  max = max;
  min = min;
  le = leb;
  lt = ltb;
  eq = λ a c. a == c;
  total_le = leb;
  is_finite = λ a. true;
  text4 = λ a. "";
  text = λ a. "";
}
