-- ===== src/Types/Lattice/Steps.antt =====
-- The lattice of BUY sizes: the step is exactly the period of the sizes with a whole maker amount,
-- and rounding to it finds the nearest lattice points.
use Prim.Native.Nat.{◌∣◌}
use mathlib.Core.Path.{subst}
use native.Mathlib.Nat.{
  dvd_iff_mod-eq-zero, dvd-mul_left, dvd-mul_right, dvd_of_mul-dvd-mul_left, div-add-mod,
  div-add-mod', mul-dvd-mul, pos_of_dvd_of_pos,
}
use polyrust.Prelude.{
  ℕ, ◌+◌, ◌-◌, ◌*◌, ◌/◌, ◌%◌, ◌^◌, ◌<◌, ◌≤◌, ◌==◌, ◌≡◌, sym, ◌↔◌, inl, inr, arith, some, Bool-cases,
}
use polyrust.Prelude.Int.{pos, tmod, tdiv, ◌*ℤ◌, ◌+ℤ◌, ◌-ℤ◌}
use polyrust.Prelude.Words.{wrap64_self}
use polyrust.Types.Lattice.{
  buy_size_multiple_taker_units, floor_to_multiple, ceil_to_multiple, maker_cents_for,
}
use polyrust.Types.Lattice.Divisors.{gcd_pos}

-- With g a greatest common divisor of p and 10_000, the quotient is the period.
period :
    (p g m : ℕ)
    → 0 < g
    → g * m ≡ 10_000
    → g ∣ p
    → ((c k : ℕ) → c ∣ p * k → c ∣ 10_000 * k → c ∣ g * k)
    → (u : ℕ) → (p * u % 10_000 ≡ 0) ↔ (u % m ≡ 0)
period p g m h e gp greatest u = (to, from)
  where
    to : p * u % 10_000 ≡ 0 → u % m ≡ 0
    to z = (dvd_iff_mod-eq-zero m).0 (
        dvd_of_mul-dvd-mul_left m {n = u} h (
          subst (λ t. t ∣ g * u) (sym e)
            (greatest 10_000 u ((dvd_iff_mod-eq-zero 10_000).1 z) (dvd-mul_right 10_000 u))))

    from : u % m ≡ 0 → p * u % 10_000 ≡ 0
    from z =
        (dvd_iff_mod-eq-zero 10_000).0
          (subst (λ t. t ∣ p * u) e (mul-dvd-mul g m gp ((dvd_iff_mod-eq-zero m).1 z)))

quotient_bounds : (g m : ℕ) → 0 < g → g * m ≡ 10_000 → (0 < m) × (m ≤ 10_000)
quotient_bounds g m h e = grind arith

-- The step of BUY sizes at a positive price is from 1 to 10,000, and a size is a multiple of it
-- exactly if price times size is a whole number of cents.
pub buy_size_multiple_exact :
    (p : ℕ)
    → 0 < p
    → (m : ℕ) × (buy_size_multiple_taker_units (pos p) ≡ pos m)
      × (0 < m)
      × (m ≤ 10_000)
      × ((u : ℕ) → (p * u % 10_000 ≡ 0) ↔ (u % m ≡ 0))
unfolding buy_size_multiple_taker_units
buy_size_multiple_exact p h =
    let (g, e, gp, gd, greatest) = gcd_pos p 10_000 in
    let positive : 0 < g = pos_of_dvd_of_pos gd (omega arith) in
    let whole : g * (10_000 / g) ≡ 10_000 =
      omega (arith, div-add-mod 10_000 g, (dvd_iff_mod-eq-zero g).0 gd) in
    let (some_steps, few_steps) = quotient_bounds g (10_000 / g) positive whole in
    (10_000 / g, rw e, some_steps, few_steps, period p g (10_000 / g) positive whole gp greatest)

pub floor_to_multiple_pos :
    (u m : ℕ) → 0 < m → u < 2 ^ 63 → floor_to_multiple (pos u) (pos m) ≡ pos (u / m * m)
unfolding floor_to_multiple tdiv ◌*ℤ◌
floor_to_multiple_pos u m h b = ground (arith, wrap64_self (pos (u / m * m)))

mod-up : (u m : ℕ) → 0 < m → (u + (m - u % m)) % m ≡ 0
mod-up u m h = (dvd_iff_mod-eq-zero m).0 (subst (λ t. m ∣ t) up (dvd-mul_left m (u / m + 1)))
  where
    up : (u / m + 1) * m ≡ u + (m - u % m)
    up = grind (arith, div-add-mod' u m)

-- The least multiple from a size up.
pub ceil_to_multiple_pos :
    (u m : ℕ)
    → 0 < m
    → u + m < 2 ^ 63
    → (c : ℕ) × (ceil_to_multiple (pos u) (pos m) ≡ pos c) × (c % m ≡ 0) × (u ≤ c) × (c < u + m)
unfolding ceil_to_multiple tmod ◌+ℤ◌ ◌-ℤ◌
ceil_to_multiple_pos u m h b = elim (Bool-cases (u % m == 0)) [
  | inl z ↦ (u, ground arith, ground arith, omega arith, omega arith)
  | inr z ↦ (
    u + (m - u % m),
    ground (arith, wrap64_self (pos (m - u % m)), wrap64_self (pos (u + (m - u % m)))),
    mod-up u m h,
    omega arith,
    ground arith,
  )
]

-- The maker amount is exact: cents times 10_000 is price times size, and it exists exactly if that
-- product is a multiple of 10_000.
pub maker_cents_for_pos :
    (p u : ℕ)
    → p * u < 2 ^ 63
    → p * u % 10_000 ≡ 0
    → maker_cents_for (pos p) (pos u) ≡ some (pos (p * u / 10_000))
unfolding maker_cents_for tmod tdiv ◌*ℤ◌
maker_cents_for_pos p u b h = ground arith
