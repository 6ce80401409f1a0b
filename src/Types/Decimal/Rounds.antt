-- ===== src/Types/Decimal/Rounds.antt =====
-- Prices written and read back, and what the readers of types.rs accept.
use polyrust.Prelude.{ℕ, zero, suc, ◌<◌, ◌≤◌, ◌==◌, ◌≡◌, refl, Bool, true, false, ◌&&◌, arith}
use polyrust.Prelude.Int.{pos, negsuc, ◌*ℤ◌, ◌+ℤ◌}
use polyrust.Prelude.Words.{wrap64}
use polyrust.Prelude.Result.{Run, Result, done, panic, ok, err}
use polyrust.Prelude.Text.{show_ℕ, trim, read_from}
use polyrust.Types.{PriceTick, TypeError, checked}
use polyrust.Types.Decimal.{
  parse_price, show_price, parse_decimal_scaled, scaled_value, split_point, parse_i64,
  decimal_scale_digits, scale_loop, cut_fraction,
}

abbrev is_tick : ℕ → Run (Result TypeError PriceTick) → Bool
is_tick p (done (ok (pos q))) = p == q
is_tick p _ = false

is_tick→eq :
    (p : ℕ) (r : Run (Result TypeError PriceTick)) → is_tick p r ≡ true → r ≡ done (ok (pos p))
is_tick→eq p (done (ok (pos q))) h = ground arith
is_tick→eq p (done (ok (negsuc q))) h = cc
is_tick→eq p (done (err x)) h = cc
is_tick→eq p panic h = cc

up_to : ℕ → Bool
up_to zero = true
up_to (suc n) = is_tick (suc n) (parse_price (show_price (suc n))) && up_to n

up_to_le :
    (n p : ℕ) → up_to n ≡ true → 0 < p → p ≤ n → is_tick p (parse_price (show_price p)) ≡ true
unfolding up_to
up_to_le zero p h a b = absurd (omega arith)
up_to_le (suc n) p h a b = ground (arith, up_to_le n p)

all_read_back : up_to 99 ≡ true
unfolding up_to parse_price parse_decimal_scaled trim scaled_value split_point parse_i64 read_from
    decimal_scale_digits scale_loop cut_fraction ◌*ℤ◌ wrap64 ◌+ℤ◌ checked show_price show_ℕ
all_read_back = refl

-- Every price of 1 to 99 ticks is read back from its text as itself.
pub parse_price-show_price :
    (p : ℕ) → 0 < p → p ≤ 99 → parse_price (show_price p) ≡ done (ok (pos p))
parse_price-show_price p a b =
    is_tick→eq p (parse_price (show_price p)) (up_to_le 99 p all_read_back a b)
