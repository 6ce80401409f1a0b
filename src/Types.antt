-- ===== src/Types.antt =====
-- types.rs: the fixed-point newtypes of venue-facing values, each an integer in its native step. A
-- newtype of the source is its field here, under the newtype's name; an identifier is its text.
-- Types/Lattice is the arithmetic of venue sizes, Types/Decimal the parser of venue decimals.
pub mod Lattice
pub mod Decimal
mod Tests
use polyrust.Prelude.{Bool, ◌&&◌, ℕ, if◌then◌else◌}
use polyrust.Prelude.Int.{ℤ, pos, leb_ℤ}
use polyrust.Prelude.Text.{Text, codes}
use polyrust.Prelude.Result.{Result, ok, err}

abbrev pub price_ticks_per_dollar : ℤ
price_ticks_per_dollar = pos 100

abbrev pub atoms_per_dollar : ℤ
atoms_per_dollar = pos 1_000_000

abbrev pub min_price_tick : ℤ
min_price_tick = pos 1

abbrev pub max_price_tick : ℤ
max_price_tick = pos 99

-- i32: ticks of $0.01.
abbrev pub PriceTick : Type 0
PriceTick = ℤ

-- i64: units of 0.0001 share, units of 0.01 share, cents, and units of 1e-6 share.
abbrev pub Shares4 : Type 0
Shares4 = ℤ

abbrev pub Shares2 : Type 0
Shares2 = ℤ

abbrev pub UsdcCents : Type 0
UsdcCents = ℤ

abbrev pub SharesAtoms : Type 0
SharesAtoms = ℤ

-- i64: microseconds.
abbrev pub TsUs : Type 0
TsUs = ℤ

abbrev pub TokenId : Type 0
TokenId = Text

abbrev pub ConditionId : Type 0
ConditionId = Text

abbrev pub OrderId : Type 0
OrderId = Text

abbrev pub TradeId : Type 0
TradeId = Text

pub data OrderSide : Type 0 where
  buy sell : OrderSide

abbrev pub order_side_eq : OrderSide → OrderSide → Bool
order_side_eq OrderSide.buy OrderSide.buy = Bool.true
order_side_eq OrderSide.sell OrderSide.sell = Bool.true
order_side_eq _ _ = Bool.false

-- `OrderSide::as_u8` and `OrderSide::as_str`.
abbrev pub side_code : OrderSide → ℕ
side_code OrderSide.buy = 0
side_code OrderSide.sell = 1

abbrev pub side_text : OrderSide → Text
side_text OrderSide.buy = codes "BUY"
side_text OrderSide.sell = codes "SELL"

pub data OutcomeSide : Type 0 where
  yes_side no_side : OutcomeSide

pub data TypeError : Type 0 where
  price_out_of_range : ℤ → TypeError
  invalid_decimal negative_amount : TypeError

-- `PriceTick::checked`.
unfoldable pub checked : ℤ → Result TypeError PriceTick
checked ticks =
    if leb_ℤ min_price_tick ticks && leb_ℤ ticks max_price_tick
    then ok ticks
    else err (price_out_of_range ticks)
