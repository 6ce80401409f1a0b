-- ===== src/Orders/Tests.antt =====
-- A run of orders.rs: a dollar and a cent at 36 cents a share.
use polyrust.Prelude.{
  ℕ, ◌*◌, ◌≤◌, ◌<◌, ◌≡◌, ◌≢◌, ◌⊎◌, refl, sym, ◌∙◌, inl, inr, Option, none, some, arith,
}
use polyrust.Prelude.Int.{ℤ, pos, ◌≤ℤ◌, ◌<ℤ◌, ◌*ℤ◌, ◌+ℤ◌, ◌-ℤ◌, ediv, emod, tdiv}
use polyrust.Prelude.Words.{clamp64, wrap64}
use polyrust.Prelude.Result.{ok, err, done}
use polyrust.Types.Lattice.{
  gcd, abs64, buy_size_multiple_taker_units, floor_to_multiple, ceil_to_multiple, maker_cents_for,
}
use polyrust.Orders.{
  BuyCanonicalInput, BuyCanonicalTarget, BuyCanonicalError, canonical_buy_target_for_notional,
  choose, snap, raw_in_0_01, max_allowed_for,
}
use polyrust.Orders.Buy.{
  IsRaw, LeastAbove, GreatestBelow, canonical_buy_exact, canonical_buy_nearest,
  canonical_buy_refuses,
}

abbrev input_with : ℤ → BuyCanonicalInput
input_with min_size = record {
  price = pos 36;
  target_maker_cents = pos 101;
  min_size_taker_units = min_size;
  min_maker_cents = pos 100;
  max_overrun_cents = pos 1;
  max_overrun_bps = pos 0;
}

abbrev small_target : BuyCanonicalTarget
small_target = record { size = pos 30_000; maker_amount = pos 108 }

small_buy : canonical_buy_target_for_notional (input_with (pos 100)) ≡ done (ok small_target)
unfolding canonical_buy_target_for_notional choose snap raw_in_0_01 max_allowed_for
    buy_size_multiple_taker_units gcd polyrust.Types.Lattice.gcd_from abs64 floor_to_multiple
    ceil_to_multiple maker_cents_for ◌*ℤ◌ ◌+ℤ◌ ◌-ℤ◌ ediv emod tdiv polyrust.Prelude.Int.tmod clamp64
    wrap64
small_buy = refl

canonical_buy_exact_example :
    (s m : ℕ) × (small_target.size ≡ pos s)
    × (small_target.maker_amount ≡ pos m)
    × (36 * s ≡ 10_000 * m)
    × (pos 100 ≤ℤ pos s)
    × (pos 100 ≤ℤ pos m)
canonical_buy_exact_example =
    canonical_buy_exact (input_with (pos 100)) 36 101 refl refl (omega arith) (omega arith)
      (omega arith) small_target small_buy

canonical_buy_nearest_example :
    (u s : ℕ) × IsRaw 36 101 u
    × (small_target.size ≡ pos s)
    × (LeastAbove 36 u s
        ⊎ (GreatestBelow 36 u s
            × (small_target.maker_amount ≤ℤ max_allowed_for (input_with (pos 100)))
            × ((c m : ℕ) × LeastAbove 36 u c
                × (36 * c ≡ 10_000 * m)
                × (max_allowed_for (input_with (pos 100)) <ℤ pos m))))
canonical_buy_nearest_example =
    canonical_buy_nearest (input_with (pos 100)) 36 101 refl refl (omega arith) (omega arith)
      (omega arith) small_target small_buy

-- More shares are asked for than the target buys.
abbrev too_small : BuyCanonicalError
too_small = BuyCanonicalError.raw_size_below_min (pos 36) (pos 28_100) (pos 50_000)

refused_buy : canonical_buy_target_for_notional (input_with (pos 50_000)) ≡ done (err too_small)
unfolding canonical_buy_target_for_notional choose snap raw_in_0_01 max_allowed_for
    buy_size_multiple_taker_units gcd polyrust.Types.Lattice.gcd_from abs64 floor_to_multiple
    ceil_to_multiple maker_cents_for ◌*ℤ◌ ◌+ℤ◌ ◌-ℤ◌ ediv emod tdiv polyrust.Prelude.Int.tmod clamp64
    wrap64
refused_buy = refl

canonical_buy_refuses_example :
    (u : ℕ) × IsRaw 36 101 u
    × ((pos u <ℤ pos 50_000)
        ⊎ ((s m : ℕ) × LeastAbove 36 u s × (36 * s ≡ 10_000 * m) × (pos m <ℤ pos 100)))
canonical_buy_refuses_example =
    canonical_buy_refuses (input_with (pos 50_000)) 36 101 refl refl (omega arith) (omega arith)
      (omega arith) too_small refused_buy
