-- ===== src/Types/Tests.antt =====
-- Runs of the lattice of types.rs.
use polyrust.Prelude.{some, ◌^◌, ℕ, ◌*◌, ◌%◌, ◌≤◌, ◌<◌, ◌≡◌, ◌⊎◌, ◌↔◌, arith, refl}
use polyrust.Prelude.Int.{pos, ◌≤ℤ◌, ◌*ℤ◌, ◌+ℤ◌}
use polyrust.Prelude.Result.{done, ok}
use polyrust.Prelude.Text.{codes, trim, read_from}
use polyrust.Prelude.Words.{wrap64}
use polyrust.Types.{checked}
use polyrust.Types.Decimal.{
  parse_price, show_price, parse_decimal_scaled, scaled_value, split_point, parse_i64,
  decimal_scale_digits, scale_loop, cut_fraction,
}
use polyrust.Types.Decimal.Rounds.{parse_price-show_price}
use polyrust.Types.Lattice.{buy_size_multiple_taker_units}
use polyrust.Types.Lattice.Steps.{buy_size_multiple_exact}
use polyrust.Types.Decimal.Scales.{decimal_scale_digits_iff}

buy_size_multiple_exact_example :
    (m : ℕ) × (buy_size_multiple_taker_units (pos 36) ≡ pos m)
    × (0 < m)
    × (m ≤ 10_000)
    × ((u : ℕ) → (36 * u % 10_000 ≡ 0) ↔ (u % m ≡ 0))
buy_size_multiple_exact_example = buy_size_multiple_exact 36 (omega arith)

parse_price-show_price_example : parse_price (show_price 7) ≡ done (ok (pos 7))
parse_price-show_price_example = parse_price-show_price 7 (omega arith) (omega arith)

abbrev two : ℕ
two = 2

decimal_scale_digits_iff_example :
    (decimal_scale_digits (pos 100) ≡ some 2)
    ↔ (((pos 100 ≤ℤ pos 1) × (two ≡ 0)) ⊎ (pos 100 ≡ pos (10 ^ two)))
decimal_scale_digits_iff_example = decimal_scale_digits_iff (pos 100) 2

-- A sign inside the fraction is read.
sign_in_fraction : parse_price (codes "0.+5") ≡ done (ok (pos 5))
unfolding parse_price parse_decimal_scaled trim scaled_value split_point parse_i64 read_from
    decimal_scale_digits scale_loop cut_fraction ◌*ℤ◌ wrap64 ◌+ℤ◌ checked
sign_in_fraction = refl
