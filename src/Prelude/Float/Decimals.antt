-- ===== src/Prelude/Float/Decimals.antt =====
-- Numbers of six decimals with the operations of f64, coarse where f64 has `exp` and `ln`: they show
-- that what the code relies on can hold, and the runs of the code use them.
use polyrust.Prelude.{
  ℕ, zero, suc, ◌+◌, ◌*◌, ◌/◌, ◌^◌, refl, true, Option, none, some, [], ◌∷◌, leb, arith,
  if◌then◌else◌,
}
use polyrust.Prelude.Int.{
  ℤ, pos, negsuc, ◌+ℤ◌, ◌-ℤ◌, ◌*ℤ◌, tdiv, ediv, ltb_ℤ, leb_ℤ, max_ℤ, magnitude,
}
use polyrust.Prelude.Words.{clamp32}
use polyrust.Prelude.Text.{Text, read_from}
use polyrust.Prelude.Float.{F64, IsF64}

-- The root of a number below 4 ^ fuel, rounded down.
abbrev root : ℕ → ℕ → ℕ
root zero n = 0
root (suc k) n = let r = 2 * root k (n / 4) in if leb ((r + 1) * (r + 1)) n then r + 1 else r

abbrev millionths : ℤ → ℤ
millionths a = a *ℤ pos 1_000_000

abbrev quotient : ℤ → ℤ → ℤ
quotient a b = tdiv (millionths a) b

-- a ^ n by repeated products, and by repeated quotients for a negative n.
abbrev power_of : ℤ → ℕ → ℤ
power_of a zero = pos 1_000_000
power_of a (suc n) = tdiv (a *ℤ power_of a n) (pos 1_000_000)

abbrev power : ℤ → ℤ → ℤ
power a (pos n) = power_of a n
power a (negsuc n) = quotient (pos 1_000_000) (power_of a (suc n))

-- Whole numbers alone are read.
abbrev whole_number : Text → Option ℤ
whole_number [] = none
whole_number (c ∷ s) = some (millionths (pos (read_from 0 (c ∷ s))))

abbrev pub decimals : F64
decimals = record {
  Num = ℤ;
  literal = λ m e. tdiv (millionths m) (pos (10 ^ e));
  of_int = millionths;
  nan = pos 0;
  add = ◌+ℤ◌;
  sub = ◌-ℤ◌;
  mul = λ a b. tdiv (a *ℤ b) (pos 1_000_000);
  div = quotient;
  max = max_ℤ;
  neg = λ a. pos 0 -ℤ a;
  abs = λ a. pos (magnitude a);
  sqrt = λ a. pos (root 40 (magnitude (millionths a)));
  exp = λ a. quotient (pos 1_000_000) (pos 1_000_000 -ℤ a);
  ln = λ a. a -ℤ pos 1_000_000;
  floor = λ a. millionths (ediv a 1_000_000);
  powi = λ a n. power a n;
  lt = ltb_ℤ;
  le = leb_ℤ;
  is_finite = λ a. true;
  as_i32 = λ a. clamp32 (tdiv a (pos 1_000_000));
  parse_f64 = whole_number;
}

pub decimals-IsF64 : IsF64 decimals
unfolding tdiv ◌*ℤ◌ ◌-ℤ◌
decimals-IsF64 = record {
  lt_irrefl = λ a. ground arith;
  lt_asym = λ a b h. ground arith;
  le_not_lt = λ a b h. ground arith;
  le_total = λ a b fa fb h. ground arith;
  zero_finite = refl;
  one_finite = refl;
  zero-le-one = refl;
  margin_ordered = refl;
}
