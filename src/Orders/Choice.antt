-- ===== src/Orders/Choice.antt =====
-- The BUY choice of orders.rs for a price within [1, 99] ticks and a target below 10^10 cents, where
-- no step overflows: the two lattice points around the raw size, and which of them is taken.
use native.Mathlib.Nat.{div-add-mod', dvd_iff_mod-eq-zero, dvd-mul_left}
use polyrust.Prelude.{
  ℕ, ◌+◌, ◌*◌, ◌/◌, ◌%◌, ◌^◌, ◌≤◌, ◌<◌, ◌≡◌, ◌∙◌, inl, inr, arith, Bool-cases, ltb, some,
  if◌then◌else◌,
}
use polyrust.Prelude.Int.{pos, ◌+ℤ◌, ◌*ℤ◌, ltb_ℤ, ediv, emod}
use polyrust.Prelude.Words.{wrap64_self, checked_mul}
use polyrust.Prelude.Result.{Result, Run, done, err}
use polyrust.Types.Lattice.{
  buy_size_multiple_taker_units, floor_to_multiple, ceil_to_multiple, maker_cents_for,
}
use polyrust.Types.Lattice.Steps.{
  buy_size_multiple_exact, floor_to_multiple_pos, ceil_to_multiple_pos, maker_cents_for_pos,
}
use polyrust.Orders.{
  BuyCanonicalInput, BuyCanonicalTarget, BuyCanonicalError, raw_size_below_min, raw_in_0_01, choose,
  max_allowed_for, snap, canonical_buy_target_for_notional,
}

-- The quotient rounded up: the raw size covers the target and is less than one unit too much.
raw_lem :
    (p n : ℕ)
    → 0 < p
    → n < 2 ^ 60
    → (r : ℕ) × (raw_in_0_01 (pos n) (pos p) ≡ pos r) × (n ≤ p * r) × (p * r < n + p) × (r ≤ n + 1)
unfolding raw_in_0_01 ediv emod ◌+ℤ◌
raw_lem p n h b = elim (Bool-cases (ltb 0 (n % p))) [
  | inl more ↦ (
    n / p + 1,
    ground (arith, wrap64_self (pos (n / p + 1))),
    grind (arith, div-add-mod' n p),
    grind (arith, div-add-mod' n p),
    omega arith,
  )
  | inr exact ↦ (
    n / p,
    ground (arith, wrap64_self (pos (n / p + 0))),
    grind (arith, div-add-mod' n p),
    grind (arith, div-add-mod' n p),
    omega arith,
  )
]

-- The lattice points around a raw size u at price p, with their maker amounts in cents.
pub record Points (p u : ℕ) : Type 0 where
  pub floor_size : ℕ
  pub floor_cents : ℕ
  pub ceil_size : ℕ
  pub ceil_cents : ℕ
  pub floor_exact : p * floor_size ≡ 10_000 * floor_cents
  pub ceil_exact : p * ceil_size ≡ 10_000 * ceil_cents
  pub floor_below : floor_size ≤ u
  pub ceil_above : u ≤ ceil_size
  pub floor_greatest : (v : ℕ) → p * v % 10_000 ≡ 0 → v ≤ u → v ≤ floor_size
  pub ceil_least : (v : ℕ) → p * v % 10_000 ≡ 0 → u ≤ v → ceil_size ≤ v

multiple_le : (m u v : ℕ) → 0 < m → v % m ≡ 0 → v ≤ u → v ≤ u / m * m
multiple_le m u v h z b = grind (arith, div-add-mod' u m, div-add-mod' v m)

multiple_ge : (m u c v : ℕ) → 0 < m → v % m ≡ 0 → c % m ≡ 0 → c < u + m → u ≤ v → c ≤ v
multiple_ge m u c v h z y b l = grind (arith, div-add-mod' c m, div-add-mod' v m)

floor_mod : (u m : ℕ) → u / m * m % m ≡ 0
floor_mod u m = (dvd_iff_mod-eq-zero m).0 (dvd-mul_left m (u / m))

exact_of_mod : (n : ℕ) → n % 10_000 ≡ 0 → n ≡ 10_000 * (n / 10_000)
exact_of_mod n h = omega arith

small_product : (p c : ℕ) → p ≤ 99 → c < 2 ^ 51 → p * c < 2 ^ 63
small_product p c h b = grind arith

-- The two sizes and maker amounts that the code computes are these points.
pub points :
    (p u : ℕ)
    → 0 < p
    → p ≤ 99
    → u < 2 ^ 50
    → (q : Points p u) × (floor_to_multiple (pos u) (buy_size_multiple_taker_units (pos p))
        ≡ pos q.floor_size)
      × (ceil_to_multiple (pos u) (buy_size_multiple_taker_units (pos p)) ≡ pos q.ceil_size)
      × (maker_cents_for (pos p) (pos q.floor_size) ≡ some (pos q.floor_cents))
      × (maker_cents_for (pos p) (pos q.ceil_size) ≡ some (pos q.ceil_cents))
points p u h h' b =
    let (m, em, m_pos, m_le, lattice) = buy_size_multiple_exact p h in
    let (c, ec, c_mod, c_ge, c_lt) = ceil_to_multiple_pos u m m_pos (omega arith) in
    let f : ℕ = u / m * m in
    let f_le : f ≤ u = omega (arith, div-add-mod' u m) in
    let f_mod : p * f % 10_000 ≡ 0 = (lattice f).1 (floor_mod u m) in
    let c_exact : p * c % 10_000 ≡ 0 = (lattice c).1 c_mod in
    (
      record {
        floor_size = f;
        floor_cents = p * f / 10_000;
        ceil_size = c;
        ceil_cents = p * c / 10_000;
        floor_exact = exact_of_mod (p * f) f_mod;
        ceil_exact = exact_of_mod (p * c) c_exact;
        floor_below = f_le;
        ceil_above = c_ge;
        floor_greatest = λ v z l. multiple_le m u v m_pos ((lattice v).0 z) l;
        ceil_least = λ v z l. multiple_ge m u c v m_pos ((lattice v).0 z) c_mod c_lt l;
      },
      rw em (floor_to_multiple_pos u m m_pos (omega arith)),
      rw em ec,
      maker_cents_for_pos p f (small_product p f h' (omega arith)) f_mod,
      maker_cents_for_pos p c (small_product p c h' (omega arith)) c_exact,
    )

-- The choice in terms of the points.
abbrev pub decide :
    BuyCanonicalInput → (p u : ℕ) → Points p u → Run (Result BuyCanonicalError BuyCanonicalTarget)
decide inp p u q =
    if ltb_ℤ (pos u) inp.min_size_taker_units
    then done (err (raw_size_below_min inp.price (pos u) inp.min_size_taker_units))
    else choose inp (max_allowed_for inp) (pos q.floor_size) (some (pos q.floor_cents))
        (pos q.ceil_size) (some (pos q.ceil_cents))

snap-decide :
    (inp : BuyCanonicalInput) (p u : ℕ)
    → inp.price ≡ pos p
    → 0 < p
    → p ≤ 99
    → u < 2 ^ 50
    → (q : Points p u) × (snap inp (pos u) ≡ decide inp p u q)
unfolding snap
snap-decide inp p u e h h' b =
    let (q, ef, ec, mf, mc) = points p u h h' b in (q, rw (e, ef, ec, mf, mc))

checked_mul_pos : (a b : ℕ) → a * b < 2 ^ 63 → checked_mul (pos a) (pos b) ≡ some (pos (a * b))
unfolding ◌*ℤ◌
checked_mul_pos a b h = ground arith

canonical_buy-snap :
    (inp : BuyCanonicalInput) (p t r : ℕ)
    → inp.price ≡ pos p
    → inp.target_maker_cents ≡ pos t
    → 0 < p
    → p ≤ 99
    → checked_mul (pos t) (pos 100) ≡ some (pos (t * 100))
    → raw_in_0_01 (pos (t * 100)) (pos p) ≡ pos r
    → checked_mul (pos r) (pos 100) ≡ some (pos (r * 100))
    → canonical_buy_target_for_notional inp ≡ snap inp (pos (r * 100))
unfolding canonical_buy_target_for_notional
canonical_buy-snap inp p t r ep et h h' c1 e c2 = grind arith

-- The call in terms of a raw size u, the least one of whole hundredths of a share that covers the
-- target, and the lattice points around it.
pub canonical_buy-decide :
    (inp : BuyCanonicalInput) (p t : ℕ)
    → inp.price ≡ pos p
    → inp.target_maker_cents ≡ pos t
    → 0 < p
    → p ≤ 99
    → t < 10 ^ 10
    → (u : ℕ) × (q : Points p u) × (canonical_buy_target_for_notional inp ≡ decide inp p u q)
      × ((u % 100 ≡ 0) × (10_000 * t ≤ p * u) × (p * u < 10_000 * t + 100 * p))
canonical_buy-decide inp p t ep et h h' b =
    let (r, er, lo, hi, small) = raw_lem p (t * 100) h (omega arith) in
    let (q, e) = snap-decide inp p (r * 100) ep h h' (omega arith) in
    (
      r * 100,
      q,
      canonical_buy-snap inp p t r ep et h h' (checked_mul_pos t 100 (omega arith)) er
            (checked_mul_pos r 100 (omega arith))
          ∙ e,
      (omega arith, omega (arith, lo), omega (arith, hi)),
    )
