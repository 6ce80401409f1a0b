-- ===== src/Binance.antt =====
-- binance.rs: the frames of the Binance stream, binary (SBE) or JSON, and the sample that a frame
-- gives to the signal engine. A frame is its bytes, with the JSON value that serde_json makes of them,
-- or its error.
pub mod Frames
pub mod Tickers
mod Tests
use polyrust.Prelude.{
  ℕ, zero, suc, ◌+◌, ◌-◌, ◌*◌, Bool, true, false, not, ◌&&◌, ◌||◌, Option, none, some, List, [],
  ◌∷◌, length, any, ltb, ◌==◌, get_elem?, if◌then◌else◌, and_then, unwrap_or,
}
use polyrust.Prelude.Int.{ℤ, pos, negsuc, leb_ℤ, ltb_ℤ}
use polyrust.Prelude.Words.{wrap64, checked_mul}
use polyrust.Prelude.Text.{Text, codes, eq_ignore_ascii_case}
use polyrust.Prelude.Json.{Value, get, get_str, is_object, contains_key}
use polyrust.Prelude.Result.{Result, ok, err}
use polyrust.Prelude.Float.{F64, zero_f}
use polyrust.Types.{TsUs}
use polyrust.Types.Decimal.{parse_i64}
use polyrust.Signal.{BinanceSample}

pub record BinanceBookTicker (Num : Type 0) : Type 0 where
  pub event_time : TsUs
  pub update_id : ℤ
  pub bid : Num
  pub ask : Num
  pub bid_qty : Num
  pub ask_qty : Num

pub data BinanceParseError : Type 0 where
  invalid_json missing_field invalid_number : Text → BinanceParseError
  sbe_too_short : BinanceParseError
  sbe_bad_template : ℕ → BinanceParseError

abbrev pub Parsed : Type 0 → Type 0
Parsed A = Result BinanceParseError A

infixl 5 ◌>>=◌
unfoldable pub ◌>>=◌ {ℓ κ} :
    {A : Type ℓ} {B : Type κ}
    → Result BinanceParseError A
    → (A → Result BinanceParseError B)
    → Result BinanceParseError B
ok a >>= f = f a
err e >>= f = err e

-- `raw[a..a + n]`, `from_le_bytes` and `as i8`.
abbrev pub skip : ℕ → List ℕ → List ℕ
skip zero s = s
skip (suc n) [] = []
skip (suc n) (x ∷ s) = skip n s

abbrev pub take : ℕ → List ℕ → List ℕ
take zero s = []
take (suc n) [] = []
take (suc n) (x ∷ s) = x ∷ take n s

abbrev pub bytes_at : List ℕ → ℕ → ℕ → List ℕ
bytes_at raw a n = take n (skip a raw)

unfoldable pub from_le_bytes : List ℕ → ℕ
from_le_bytes [] = 0
from_le_bytes (b ∷ s) = b + 256 * from_le_bytes s

abbrev pub byte_at : List ℕ → ℕ → ℕ
byte_at raw a = unwrap_or (get_elem? raw a) 0

abbrev pub i64_at : List ℕ → ℕ → ℤ
i64_at raw a = wrap64 (pos (from_le_bytes (bytes_at raw a 8)))

abbrev pub i8_at : List ℕ → ℕ → ℤ
i8_at raw a = if ltb (byte_at raw a) 128 then pos (byte_at raw a) else negsuc (255 - byte_at raw a)

-- `normalize_epoch_to_us`.
unfoldable pub normalize_epoch_to_us : ℤ → Parsed ℤ
normalize_epoch_to_us ts =
    let bad = BinanceParseError.invalid_number (codes "E") in
    if leb_ℤ ts (pos 0)
    then err bad
    else if ltb_ℤ ts (pos 100_000_000_000_000)
    then elim (checked_mul ts (pos 1_000)) [ none ↦ err bad | some us ↦ ok us ]
    else ok ts

positive_i64 : Text → Option ℤ → Parsed ℤ
positive_i64 key none = err (BinanceParseError.invalid_number key)
positive_i64 key (some n) =
    if ltb_ℤ (pos 0) n then ok n else err (BinanceParseError.invalid_number key)

i64_of : Value → Option ℤ
i64_of (Value.number text n) = n
i64_of (Value.string s) = parse_i64 s
i64_of _ = none

unfoldable pub parse_positive_i64_json : Value → Text → Parsed ℤ
unfolding positive_i64 i64_of
parse_positive_i64_json value key = elim (get value key) [
  | none ↦ err (BinanceParseError.missing_field key)
  | some raw ↦ positive_i64 key (i64_of raw)
]

-- A missing time is 0, for the caller to replace.
abbrev pub event_time_of : Parsed ℤ → Parsed ℤ
event_time_of (ok et) = normalize_epoch_to_us et
event_time_of (err (BinanceParseError.missing_field k)) = ok (pos 0)
event_time_of (err (BinanceParseError.invalid_json k)) = err (BinanceParseError.invalid_json k)
event_time_of (err (BinanceParseError.invalid_number k)) = err (BinanceParseError.invalid_number k)
event_time_of (err BinanceParseError.sbe_too_short) = err BinanceParseError.sbe_too_short
event_time_of (err (BinanceParseError.sbe_bad_template n)) =
    err (BinanceParseError.sbe_bad_template n)

abbrev pub other_event : Value → Bool
other_event value = elim (get_str value (codes "e")) [
  | none ↦ false
  | some t ↦ not (eq_ignore_ascii_case t (codes "bookTicker"))
]

abbrev pub has_ticker_shape : Value → Bool
has_ticker_shape value =
    any (contains_key value) (codes "u" ∷ codes "b" ∷ codes "B" ∷ codes "a" ∷ codes "A" ∷ [])

abbrev pub is_sbe : List ℕ → Bool
is_sbe (a ∷ b ∷ c ∷ d ∷ r) = a == 0x32 && b == 0 && c == 0x11 && d == 0x27
is_sbe _ = false

module _ (f : F64) where
  -- Prices and sizes that no ticker may have.
  abbrev pub bad_quote : BinanceBookTicker f.Num → Bool
  bad_quote t =
      f.le t.bid (zero_f f)
      || f.le t.ask (zero_f f)
      || f.le t.bid_qty (zero_f f)
      || f.le t.ask_qty (zero_f f)
      || f.lt t.ask t.bid

  unfoldable pub mantissa_to_f64 : ℤ → ℤ → f.Num
  mantissa_to_f64 mantissa exponent =
      f.mul (f.of_int mantissa) (f.powi (f.literal (pos 10) 0) exponent)

  -- The fields after the header of 8 bytes.
  abbrev pub sbe_ticker : List ℕ → BinanceBookTicker f.Num
  sbe_ticker raw =
      let price_exp = i8_at raw 24 in
      let qty_exp = i8_at raw 25 in
      record {
        event_time = i64_at raw 8;
        update_id = i64_at raw 16;
        bid = mantissa_to_f64 (i64_at raw 26) price_exp;
        ask = mantissa_to_f64 (i64_at raw 42) price_exp;
        bid_qty = mantissa_to_f64 (i64_at raw 34) qty_exp;
        ask_qty = mantissa_to_f64 (i64_at raw 50) qty_exp;
      }

  unfoldable pub checked_ticker :
      BinanceBookTicker f.Num → Parsed (Option (BinanceBookTicker f.Num))
  checked_ticker t =
      if leb_ℤ t.event_time (pos 0) || leb_ℤ t.update_id (pos 0)
      then err (BinanceParseError.invalid_number (codes "eventTime"))
      else if bad_quote t
      then err (BinanceParseError.invalid_number (codes "bid/ask"))
      else ok (some t)

  unfoldable pub parse_sbe_best_bid_ask : List ℕ → Parsed (Option (BinanceBookTicker f.Num))
  parse_sbe_best_bid_ask raw =
      let block_length = from_le_bytes (bytes_at raw 0 2) in
      let template_id = from_le_bytes (bytes_at raw 2 2) in
      if ltb (length raw) 59
      then err BinanceParseError.sbe_too_short
      else if not (block_length == 50)
      then ok none
      else if not (template_id == 10001)
      then err (BinanceParseError.sbe_bad_template template_id)
      else checked_ticker (sbe_ticker raw)

  positive_f64 : Text → Option f.Num → Parsed f.Num
  positive_f64 key none = err (BinanceParseError.invalid_number key)
  positive_f64 key (some n) =
      if f.is_finite n && f.lt (zero_f f) n
      then ok n
      else err (BinanceParseError.invalid_number key)

  -- `as_f64` of a number is the f64 nearest to its text.
  f64_of : Value → Option f.Num
  f64_of (Value.number text n) = f.parse_f64 text
  f64_of (Value.string s) = f.parse_f64 s
  f64_of _ = none

  unfoldable pub parse_positive_f64_json : Value → Text → Parsed f.Num
  unfolding positive_f64 f64_of
  parse_positive_f64_json value key = elim (get value key) [
    | none ↦ err (BinanceParseError.missing_field key)
    | some raw ↦ positive_f64 key (f64_of raw)
  ]

  unfoldable pub json_ticker : Value → Parsed (Option (BinanceBookTicker f.Num))
  json_ticker value = event_time_of (parse_positive_i64_json value (codes "E")) >>= (λ event_time.
      parse_positive_i64_json value (codes "u") >>= (λ update_id.
        parse_positive_f64_json value (codes "b") >>= (λ bid.
          parse_positive_f64_json value (codes "B") >>= (λ bid_qty.
            parse_positive_f64_json value (codes "a") >>= (λ ask.
              parse_positive_f64_json value (codes "A") >>= (λ ask_qty.
                if f.lt ask bid
                then err (BinanceParseError.invalid_number (codes "b"))
                else ok (
                    some (record {
                      event_time = event_time;
                      update_id = update_id;
                      bid = bid;
                      ask = ask;
                      bid_qty = bid_qty;
                      ask_qty = ask_qty;
                    }))))))))

  unfoldable pub parse_book_ticker_json :
      Result Text Value → Parsed (Option (BinanceBookTicker f.Num))
  parse_book_ticker_json (err e) = err (BinanceParseError.invalid_json e)
  parse_book_ticker_json (ok root) =
      let value = unwrap_or (get root (codes "data")) root in
      if not (is_object value)
      then ok none
      else if other_event value || not (has_ticker_shape value)
      then ok none
      else json_ticker value

  unfoldable pub parse_book_ticker :
      List ℕ → Result Text Value → Parsed (Option (BinanceBookTicker f.Num))
  parse_book_ticker raw json =
      if is_sbe raw then parse_sbe_best_bid_ask raw else parse_book_ticker_json json

  unfoldable pub microprice : BinanceBookTicker f.Num → Option f.Num
  microprice t =
      let denom = f.add t.bid_qty t.ask_qty in
      let px = f.div (f.add (f.mul t.bid t.ask_qty) (f.mul t.ask t.bid_qty)) denom in
      if not (f.is_finite denom) || f.le denom (zero_f f)
      then none
      else if f.is_finite px && f.lt (zero_f f) px
      then some px
      else none

  unfoldable pub sample : BinanceBookTicker f.Num → Option (BinanceSample f.Num)
  sample t = and_then (microprice t) (λ px. some (record {
    ts_us = t.event_time;
    update_id = t.update_id;
    bid = t.bid;
    ask = t.ask;
    bid_qty = t.bid_qty;
    ask_qty = t.ask_qty;
    microprice = px;
  }))
