-- ===== src/Types/Lattice.antt =====
-- types.rs, the helpers of orders.rs: the greatest common divisor, the step of BUY sizes at which a
-- maker amount is a whole number of cents, rounding to a step, and the maker amount.
pub mod Divisors
pub mod Steps
use mathlib.Core.Logic.{ite, dite}
use mathlib.Core.WellFounded.{Acc, WellFounded}
use native.Mathlib.Decide.{dec_lt}
use polyrust.Prelude.{
  ℕ, zero, suc, ◌<◌, ◌≡◌, Bool, true, false, Option, none, some, arith, if◌then◌else◌,
}
use polyrust.Prelude.Int.{ℤ, pos, negsuc, magnitude, ◌-ℤ◌, ltb_ℤ, leb_ℤ, eqb_ℤ, tdiv, tmod}
use polyrust.Prelude.Words.{add64, sub64, mul64, checked_mul}
use polyrust.Types.{UsdcCents}

-- The loop of `gcd` runs while its second variable falls in magnitude.
abbrev pub ◌≺◌ : ℤ → ℤ → Type 0
◌≺◌ a b = magnitude a < magnitude b

Acc-smaller : (k : ℕ) (b : ℤ) → magnitude b < k → Acc ◌≺◌ b
Acc-smaller zero b h = elim h [ ]
Acc-smaller (suc k) b h = Acc.intro b (λ c hc. Acc-smaller k c (omega arith))

unfoldable pub smaller_wf : WellFounded ◌≺◌
unfolding Acc-smaller
smaller_wf = record { apply = λ b. Acc-smaller (suc (magnitude b)) b (omega arith) }

pub tmod_smaller : (a b : ℤ) → 0 < magnitude b → magnitude (tmod a b) < magnitude b
unfolding tmod
tmod_smaller a b h = ground arith

-- `while b != 0 { (a, b) = (b, a % b) }`
gcd_loop : (a b : ℤ) → Acc ◌≺◌ b → ℤ
gcd_loop a b (Acc.intro _ smaller) =
    dite (dec_lt 0 (magnitude b))
      (λ h. gcd_loop b (tmod a b) (smaller (tmod a b) (tmod_smaller a b h))) (λ _. a)

-- `if a < 0 { a = -a; }`
unfoldable pub abs64 : ℤ → ℤ
abs64 a = if ltb_ℤ a (pos 0) then sub64 (pos 0) a else a

unfoldable pub gcd_from : ℤ → ℤ → ℤ
unfolding gcd_loop smaller_wf dec_lt
gcd_from a b = gcd_loop a b (smaller_wf.apply b)

unfoldable pub gcd : ℤ → ℤ → ℤ
gcd a b = gcd_from (abs64 a) (abs64 b)

unfoldable pub buy_size_multiple_taker_units : ℤ → ℤ
unfolding tdiv
buy_size_multiple_taker_units price_ticks = tdiv (pos 10_000) (gcd price_ticks (pos 10_000))

unfoldable pub floor_to_multiple : ℤ → ℤ → ℤ
floor_to_multiple raw mult = if leb_ℤ mult (pos 0) then raw else mul64 (tdiv raw mult) mult

unfoldable pub ceil_to_multiple : ℤ → ℤ → ℤ
ceil_to_multiple raw mult =
    let r = tmod raw mult in
    if leb_ℤ mult (pos 0) then raw else if eqb_ℤ r (pos 0) then raw else add64 raw (sub64 mult r)

-- `product % 10_000 != 0` refuses; otherwise the cents.
abbrev whole_cents : ℤ → Option UsdcCents
whole_cents product =
    if eqb_ℤ (tmod product (pos 10_000)) (pos 0) then some (tdiv product (pos 10_000)) else none

unfoldable pub maker_cents_for : ℤ → ℤ → Option UsdcCents
maker_cents_for price_ticks size_taker_units = elim (checked_mul price_ticks size_taker_units) [
  | none ↦ none
  | some product ↦ whole_cents product
]
