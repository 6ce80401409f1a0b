-- ===== src/Orders.antt =====
-- orders.rs: the choice of the size and the maker amount of a BUY, and of the price and size of a
-- SELL. The `expect` calls on overflow are panics.
pub mod Choice
pub mod Buy
mod Tests
use polyrust.Prelude.{Bool, ◌&&◌, Option, none, some, is_some_and, ltb, if◌then◌else◌}
use polyrust.Prelude.Int.{ℤ, pos, magnitude, ltb_ℤ, leb_ℤ, max_ℤ, tdiv, ediv, emod}
use polyrust.Prelude.Words.{add64, saturating_mul, checked_mul}
use polyrust.Prelude.Result.{Result, ok, err, Run, done, panic}
use polyrust.Types.{PriceTick, Shares4, Shares2, UsdcCents, min_price_tick, max_price_tick}
use polyrust.Types.Lattice.{
  buy_size_multiple_taker_units, floor_to_multiple, ceil_to_multiple, maker_cents_for,
}

pub record BuyCanonicalTarget : Type 0 where
  pub size : Shares4
  pub maker_amount : UsdcCents

pub data BuyCanonicalError : Type 0 where
  price_out_of_range : ℤ → BuyCanonicalError
  -- price, raw size and least size
  raw_size_below_min : ℤ → ℤ → ℤ → BuyCanonicalError
  -- price, target, most and least maker amount, and the two candidates
  no_valid_size_within_notional_bounds :
      ℤ → ℤ → ℤ → ℤ → Option (ℤ × ℤ) → Option (ℤ × ℤ) → BuyCanonicalError

pub record BuyCanonicalInput : Type 0 where
  pub price : PriceTick
  pub target_maker_cents : ℤ
  pub min_size_taker_units : ℤ
  pub min_maker_cents : ℤ
  pub max_overrun_cents : ℤ
  pub max_overrun_bps : ℤ

abbrev with_size : ℤ → Option UsdcCents → Option (ℤ × ℤ)
with_size size none = none
with_size size (some m) = some (size, m)

-- `[min_maker, max_allowed]`
abbrev pub in_band : BuyCanonicalInput → ℤ → UsdcCents → Bool
in_band inp max_allowed maker = leb_ℤ inp.min_maker_cents maker && leb_ℤ maker max_allowed

abbrev pub target_of : ℤ → Option UsdcCents → Run (Result BuyCanonicalError BuyCanonicalTarget)
target_of size none = panic
target_of size (some m) = done (ok (record { size = size; maker_amount = m }))

-- The largest maker amount that counts as in band.
unfoldable pub max_allowed_for : BuyCanonicalInput → ℤ
max_allowed_for inp =
    let bps = tdiv (saturating_mul inp.target_maker_cents inp.max_overrun_bps) (pos 10_000) in
    add64 inp.target_maker_cents (max_ℤ inp.max_overrun_cents bps)

-- The choice between the two lattice points around the raw size: the upper one in band, else the
-- lower one in band, else the upper one if it meets the minima.
unfoldable pub choose :
    BuyCanonicalInput
    → ℤ
    → ℤ
    → Option UsdcCents
    → ℤ
    → Option UsdcCents
    → Run (Result BuyCanonicalError BuyCanonicalTarget)
choose inp max_allowed floor_size floor_maker ceil_size ceil_maker =
    let ceil_ok =
      is_some_and ceil_maker (λ m. leb_ℤ inp.min_maker_cents m)
      && leb_ℤ inp.min_size_taker_units ceil_size in
    let ceil_in_band = ceil_ok && is_some_and ceil_maker (in_band inp max_allowed) in
    let floor_in_band =
      is_some_and floor_maker (in_band inp max_allowed)
      && leb_ℤ inp.min_size_taker_units floor_size in
    if ceil_in_band
    then target_of ceil_size ceil_maker
    else if floor_in_band
    then target_of floor_size floor_maker
    else if ceil_ok
    then target_of ceil_size ceil_maker
    else done (
        err (
          no_valid_size_within_notional_bounds inp.price inp.target_maker_cents max_allowed
            inp.min_maker_cents (with_size floor_size floor_maker)
            (with_size ceil_size ceil_maker)))

-- From the raw size in taker units on.
unfoldable pub snap : BuyCanonicalInput → ℤ → Run (Result BuyCanonicalError BuyCanonicalTarget)
snap inp raw =
    let mult = buy_size_multiple_taker_units inp.price in
    let floor_size = floor_to_multiple raw mult in
    let ceil_size = ceil_to_multiple raw mult in
    if ltb_ℤ raw inp.min_size_taker_units
    then done (err (raw_size_below_min inp.price raw inp.min_size_taker_units))
    else choose inp (max_allowed_for inp) floor_size (maker_cents_for inp.price floor_size)
        ceil_size (maker_cents_for inp.price ceil_size)

-- ceil(target * 100 / price), in units of 0.01 share.
unfoldable pub raw_in_0_01 : ℤ → PriceTick → ℤ
raw_in_0_01 numer price =
    let n = magnitude price in add64 (ediv numer n) (if ltb 0 (emod numer n) then pos 1 else pos 0)

unfoldable pub canonical_buy_target_for_notional :
    BuyCanonicalInput → Run (Result BuyCanonicalError BuyCanonicalTarget)
canonical_buy_target_for_notional inp =
    if leb_ℤ min_price_tick inp.price && leb_ℤ inp.price max_price_tick
    then elim (checked_mul inp.target_maker_cents (pos 100)) [
      | none ↦ panic
      | some numer ↦ elim (checked_mul (raw_in_0_01 numer inp.price) (pos 100)) [
        | none ↦ panic
        | some raw ↦ snap inp raw
      ]
    ]
    else done (err (price_out_of_range inp.price))

-- `Shares2::floor_from_shares4`, and the SELL parameters.
unfoldable pub floor_from_shares4 : Shares4 → Shares2
floor_from_shares4 shares4 = ediv shares4 100

unfoldable pub canonical_sell_params : PriceTick → ℤ → PriceTick × Shares2
unfolding floor_from_shares4
canonical_sell_params price raw_size_taker_units = (price, floor_from_shares4 raw_size_taker_units)
