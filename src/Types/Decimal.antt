-- ===== src/Types/Decimal.antt =====
-- The decimal texts of types.rs: what `parse_decimal_scaled` reads, and the `Display` of prices and
-- amounts. A slice of a text that is not on a character boundary panics.
pub mod Rounds
pub mod Scales
use polyrust.Prelude.{
  ℕ, zero, suc, ◌+◌, ◌-◌, ◌/◌, ◌%◌, Bool, true, false, ◌&&◌, Option, none, some, [], ◌∷◌, ◌++◌, all,
  leb, ◌==◌, replicate, if◌then◌else◌, and_then,
}
use polyrust.Prelude.Int.{ℤ, pos, negsuc, ltb_ℤ, leb_ℤ, ◌-ℤ◌}
use polyrust.Prelude.Words.{in_i64, in_i32, add64, mul64, checked_mul}
use polyrust.Prelude.Text.{Text, trim, byte_len, utf8_len, show_ℕ, read_from}
use polyrust.Prelude.Result.{Result, ok, err, Run, done, panic, Fallible, lift, map_run, ◌>>=◌}
use polyrust.Types.{
  PriceTick, SharesAtoms, TypeError, checked, price_ticks_per_dollar, atoms_per_dollar,
}

-- `&s[..n]` and `&s[n..]`, n in bytes.
unfoldable pub split_at : ℕ → Text → Run (Text × Text)
split_at n [] = if n == 0 then done ([], []) else panic
split_at n (c ∷ s) =
    let rest = split_at (n - utf8_len c) s in
    if n == 0
    then done ([], c ∷ s)
    else if leb (utf8_len c) n
    then map_run (λ r. (c ∷ r.0, r.1)) rest
    else panic

abbrev pub is_digit : ℕ → Bool
is_digit c = leb b'0' c && leb c b'9'

abbrev nonempty_digits : Text → Option ℕ
nonempty_digits [] = none
nonempty_digits (c ∷ s) = if all is_digit (c ∷ s) then some (read_from 0 (c ∷ s)) else none

abbrev in_range : ℤ → Option ℤ
in_range a = if in_i64 a then some a else none

abbrev signed : Bool → ℕ → Option ℤ
signed true n = in_range (pos 0 -ℤ pos n)
signed false n = in_range (pos n)

-- `str::parse::<i64>().ok()`: one sign at most, then digits, in range.
unfoldable pub parse_i64 : Text → Option ℤ
parse_i64 [] = none
parse_i64 (c ∷ s) =
    if c == b'-'
    then and_then (nonempty_digits s) (signed true)
    else if c == b'+'
    then and_then (nonempty_digits s) (signed false)
    else and_then (nonempty_digits (c ∷ s)) (signed false)

-- The loop of `decimal_scale_digits`; n turns are enough for n.
unfoldable pub scale_loop : ℕ → ℕ → ℕ → Option ℕ
scale_loop zero n digits = some digits
scale_loop (suc f) n digits =
    let rest = scale_loop f (n / 10) (digits + 1) in
    if leb n 1 then some digits else if n % 10 == 0 then rest else none

unfoldable pub decimal_scale_digits : ℤ → Option ℕ
decimal_scale_digits (pos n) = scale_loop n n 0
decimal_scale_digits (negsuc n) = some 0

-- `match body.find('.')`.
unfoldable pub split_point : Text → Text × Text
split_point [] = ([], [])
split_point (c ∷ s) =
    let rest = split_point s in if c == b'.' then ([], s) else (c ∷ rest.0, rest.1)

abbrev or_zero : Text → Option ℤ
or_zero [] = some (pos 0)
or_zero (c ∷ s) = parse_i64 (c ∷ s)

-- The fraction cut to the scale; digits beyond it have to be zeros.
unfoldable pub cut_fraction : Text → ℕ → Fallible Text
cut_fraction frac digits =
    if leb (byte_len frac) digits
    then done (some (frac ++ replicate (digits - byte_len frac) b'0'))
    else map_run (λ r. if all (λ c. c == b'0') r.1 then some r.0 else none) (split_at digits frac)

unfoldable pub scaled_value : ℤ → Text → ℤ → Fallible ℤ
scaled_value sign body scale = do
  let (whole_str, frac_str) = split_point body
  whole ← lift (or_zero whole_str)
  digits ← lift (decimal_scale_digits scale)
  frac_padded ← cut_fraction frac_str digits
  frac ← lift (or_zero frac_padded)
  units ← lift (checked_mul whole scale)
  lift (some (mul64 sign (add64 units frac)))

abbrev signed_value : Text → ℤ → Fallible ℤ
signed_value [] scale = done none
signed_value (c ∷ s) scale =
    if c == b'-'
    then scaled_value (negsuc 0) s scale
    else if c == b'+'
    then scaled_value (pos 1) s scale
    else scaled_value (pos 1) (c ∷ s) scale

unfoldable pub parse_decimal_scaled : Text → ℤ → Fallible ℤ
parse_decimal_scaled raw scale =
    if leb_ℤ scale (pos 0) then done none else signed_value (trim raw) scale

abbrev pub to_tick : Option ℤ → Result TypeError PriceTick
to_tick none = err TypeError.invalid_decimal
to_tick (some t) = if in_i32 t then checked t else err (TypeError.price_out_of_range (negsuc 0))

-- `PriceTick::parse_decimal` and `SharesAtoms::parse_decimal`.
unfoldable pub parse_price : Text → Run (Result TypeError PriceTick)
parse_price raw = map_run to_tick (parse_decimal_scaled raw price_ticks_per_dollar)

abbrev pub to_atoms : Option ℤ → Result TypeError SharesAtoms
to_atoms none = err TypeError.invalid_decimal
to_atoms (some a) = if ltb_ℤ a (pos 0) then err TypeError.negative_amount else ok a

unfoldable pub parse_shares : Text → Run (Result TypeError SharesAtoms)
parse_shares raw = map_run to_atoms (parse_decimal_scaled raw atoms_per_dollar)

-- `{:02}` of a number below 100, and the `Display` of a price that is not negative.
abbrev two_digits : ℕ → Text
two_digits n = (b'0' + n / 10 % 10) ∷ (b'0' + n % 10) ∷ []

unfoldable pub show_price : ℕ → Text
show_price cents = show_ℕ (cents / 100) ++ b'.' ∷ two_digits (cents % 100)
