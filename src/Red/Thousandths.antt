-- ===== src/Red/Thousandths.antt =====
-- Numbers in thousandths, for tests.
use saps_extended.Base.{ℕ, ◌+◌, ◌*◌, ◌-◌, ◌/◌, ltb, leb}
use saps_extended.Red.{Double}

abbrev pub thousandths : Double ℕ
thousandths = record {
  num = λ a b. a * 1000 / b;
  of_int = λ n. n * 1000;
  trunc = λ a. a / 1000;
  add = ◌+◌;
  sub = ◌-◌;
  mul = λ a b. a * b / 1000;
  over = λ a b. a * 1000 / b;
  pow = λ a b. a;
  lt = ltb;
  le = leb;
}
