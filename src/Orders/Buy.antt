-- ===== src/Orders/Buy.antt =====
-- What `canonical_buy_target_for_notional` of orders.rs promises, for a price within [1, 99] ticks
-- and a target below 10^10 cents.
use polyrust.Prelude.{ℕ, ◌+◌, ◌*◌, ◌%◌, ◌^◌, ◌≤◌, ◌<◌, ◌≡◌, ◌≢◌, ◌⊎◌, inl, inr, sym, ◌∙◌, arith}
use polyrust.Prelude.Int.{pos, ◌≤ℤ◌, ◌<ℤ◌}
use polyrust.Prelude.Result.{done, panic, ok, err}
use polyrust.Orders.{
  BuyCanonicalInput, BuyCanonicalTarget, BuyCanonicalError, choose, max_allowed_for,
  canonical_buy_target_for_notional,
}
use polyrust.Orders.Choice.{Points, decide, canonical_buy-decide}

-- u is the least multiple of 100 taker units whose cost covers t cents.
abbrev pub IsRaw : (p t u : ℕ) → Type 0
IsRaw p t u = (u % 100 ≡ 0) × (10_000 * t ≤ p * u) × (p * u < 10_000 * t + 100 * p)

-- The nearest sizes with a whole maker amount.
abbrev pub LeastAbove : (p u s : ℕ) → Type 0
LeastAbove p u s = (u ≤ s) × (p * s % 10_000 ≡ 0) × ((v : ℕ) → p * v % 10_000 ≡ 0 → u ≤ v → s ≤ v)

abbrev pub GreatestBelow : (p u s : ℕ) → Type 0
GreatestBelow p u s =
    (s ≤ u) × (p * s % 10_000 ≡ 0) × ((v : ℕ) → p * v % 10_000 ≡ 0 → v ≤ u → v ≤ s)

ceil_LeastAbove : {p : ℕ} (u : ℕ) (q : Points p u) → LeastAbove p u q.ceil_size
ceil_LeastAbove u q = (q.ceil_above, omega (arith, q.ceil_exact), q.ceil_least)

floor_GreatestBelow : {p : ℕ} (u : ℕ) (q : Points p u) → GreatestBelow p u q.floor_size
floor_GreatestBelow u q = (q.floor_below, omega (arith, q.floor_exact), q.floor_greatest)

scaled_le : (p f c m n : ℕ) → f ≤ c → p * f ≡ 10_000 * m → p * c ≡ 10_000 * n → m ≤ n
scaled_le p f c m n h e e' = grind arith

cents_le : {p : ℕ} (u : ℕ) (q : Points p u) → q.floor_cents ≤ q.ceil_cents
cents_le {p} u q =
    scaled_le p q.floor_size q.ceil_size _ _ (omega (arith, q.floor_below, q.ceil_above))
      q.floor_exact q.ceil_exact

module _ (inp : BuyCanonicalInput) (p t : ℕ) (price : inp.price ≡ pos p)
    (target : inp.target_maker_cents ≡ pos t) (tradeable : 0 < p) (capped : p ≤ 99)
    (small : t < 10 ^ 10) where
  decide_ok :
      (u : ℕ) (q : Points p u) (r : BuyCanonicalTarget)
      → decide inp p u q ≡ done (ok r)
      → ((r.size ≡ pos q.floor_size) × (r.maker_amount ≡ pos q.floor_cents)
          ⊎ (r.size ≡ pos q.ceil_size) × (r.maker_amount ≡ pos q.ceil_cents))
        × (inp.min_size_taker_units ≤ℤ r.size)
        × (inp.min_maker_cents ≤ℤ r.maker_amount)
  unfolding choose
  decide_ok u q r e = ground arith

  exact_of_Points :
      (u : ℕ) (q : Points p u) (r : BuyCanonicalTarget)
      → ((r.size ≡ pos q.floor_size) × (r.maker_amount ≡ pos q.floor_cents)
          ⊎ (r.size ≡ pos q.ceil_size) × (r.maker_amount ≡ pos q.ceil_cents))
        × (inp.min_size_taker_units ≤ℤ r.size)
        × (inp.min_maker_cents ≤ℤ r.maker_amount)
      → (s m : ℕ) × (r.size ≡ pos s)
        × (r.maker_amount ≡ pos m)
        × (p * s ≡ 10_000 * m)
        × (inp.min_size_taker_units ≤ℤ pos s)
        × (inp.min_maker_cents ≤ℤ pos m)
  exact_of_Points u q r (inl (es, em), hs, hm) =
      (q.floor_size, q.floor_cents, es, em, q.floor_exact, rw es at hs, rw em at hm)
  exact_of_Points u q r (inr (es, em), hs, hm) =
      (q.ceil_size, q.ceil_cents, es, em, q.ceil_exact, rw es at hs, rw em at hm)

  decide_near :
      (u : ℕ) (q : Points p u) (r : BuyCanonicalTarget)
      → q.floor_cents ≤ q.ceil_cents
      → decide inp p u q ≡ done (ok r)
      → (r.size ≡ pos q.ceil_size)
        ⊎ ((r.size ≡ pos q.floor_size)
            × (r.maker_amount ≡ pos q.floor_cents)
            × (pos q.floor_cents ≤ℤ max_allowed_for inp)
            × (max_allowed_for inp <ℤ pos q.ceil_cents))
  unfolding choose
  decide_near u q r le e = ground (arith, q.floor_below, q.ceil_above)

  decide_refuses :
      (u : ℕ) (q : Points p u) (x : BuyCanonicalError)
      → q.floor_cents ≤ q.ceil_cents
      → decide inp p u q ≡ done (err x)
      → (pos u <ℤ inp.min_size_taker_units) ⊎ (pos q.ceil_cents <ℤ inp.min_maker_cents)
  unfolding choose
  decide_refuses u q x le e = ground (arith, q.floor_below, q.ceil_above)

  decide_runs : (u : ℕ) (q : Points p u) → decide inp p u q ≢ panic
  unfolding choose
  decide_runs u q e = ground arith

  -- An accepted BUY target costs a whole number of cents exactly, and meets both minima, for a
  -- price of 1 to 99 ticks and a target below 10^10 cents.
  pub canonical_buy_exact :
      (r : BuyCanonicalTarget)
      → canonical_buy_target_for_notional inp ≡ done (ok r)
      → (s m : ℕ) × (r.size ≡ pos s)
        × (r.maker_amount ≡ pos m)
        × (p * s ≡ 10_000 * m)
        × (inp.min_size_taker_units ≤ℤ pos s)
        × (inp.min_maker_cents ≤ℤ pos m)
  canonical_buy_exact r e =
      let (u, q, d, _) = canonical_buy-decide inp p t price target tradeable capped small in
      exact_of_Points u q r (decide_ok u q r (sym d ∙ e))

  -- No overflow check of the BUY parameters fails and no missing maker amount is unwrapped, for a
  -- price of 1 to 99 ticks and a target below 10^10 cents.
  pub canonical_buy_never_panics : canonical_buy_target_for_notional inp ≢ panic
  canonical_buy_never_panics e =
      let (u, q, d, _) = canonical_buy-decide inp p t price target tradeable capped small in
      decide_runs u q (sym d ∙ e)

  -- An accepted BUY size is the least lattice size from the raw size up, where the raw size is the
  -- least whole number of hundredths of a share that covers the target; or the greatest one up to
  -- it, within the allowed overrun, where the least one from it up is above the overrun. The price
  -- is 1 to 99 ticks and the target below 10^10 cents.
  pub canonical_buy_nearest :
      (r : BuyCanonicalTarget)
      → canonical_buy_target_for_notional inp ≡ done (ok r)
      → (u s : ℕ) × IsRaw p t u
        × (r.size ≡ pos s)
        × (LeastAbove p u s
            ⊎ (GreatestBelow p u s
                × (r.maker_amount ≤ℤ max_allowed_for inp)
                × ((c m : ℕ) × LeastAbove p u c
                    × (p * c ≡ 10_000 * m)
                    × (max_allowed_for inp <ℤ pos m))))
  canonical_buy_nearest r e =
      let (u, q, d, raw) = canonical_buy-decide inp p t price target tradeable capped small in
      elim (decide_near u q r (cents_le u q) (sym d ∙ e)) [
        | inl es ↦ (u, q.ceil_size, raw, es, inl (ceil_LeastAbove u q))
        | inr (es, em, within, above) ↦ (
          u,
          q.floor_size,
          raw,
          es,
          inr (
            floor_GreatestBelow u q,
            rw em within,
            (q.ceil_size, q.ceil_cents, ceil_LeastAbove u q, q.ceil_exact, above),
          ),
        )
      ]

  -- A BUY is refused only if its raw size, the least whole number of hundredths of a share that
  -- covers the target, is below the least size, or if the least lattice size from the raw size up
  -- costs less than the least maker amount: a size above the allowed overrun is no reason. The
  -- price is 1 to 99 ticks and the target below 10^10 cents.
  pub canonical_buy_refuses :
      (x : BuyCanonicalError)
      → canonical_buy_target_for_notional inp ≡ done (err x)
      → (u : ℕ) × IsRaw p t u
        × ((pos u <ℤ inp.min_size_taker_units)
            ⊎ ((s m : ℕ) × LeastAbove p u s
                × (p * s ≡ 10_000 * m)
                × (pos m <ℤ inp.min_maker_cents)))
  canonical_buy_refuses x e =
      let (u, q, d, raw) = canonical_buy-decide inp p t price target tradeable capped small in
      elim (decide_refuses u q x (cents_le u q) (sym d ∙ e)) [
        | inl low ↦ (u, raw, inl low)
        | inr low ↦
            (u, raw, inr (q.ceil_size, q.ceil_cents, ceil_LeastAbove u q, q.ceil_exact, low))
      ]
