-- ===== src/Binance/Frames.antt =====
-- The binary frames of binance.rs: what `parse_book_ticker` reads of the layout that the source gives.
use polyrust.Prelude.{
  ℕ, zero, suc, ◌/◌, ◌%◌, ◌^◌, ◌<◌, ◌≡◌, refl, false, some, List, [], ◌∷◌, ◌++◌, length, ltb, ◌||◌,
  arith,
}
use polyrust.Prelude.Int.{ℤ, pos, leb_ℤ}
use polyrust.Prelude.Words.{wrap64, wrap64_self}
use polyrust.Prelude.Text.{Text}
use polyrust.Prelude.Json.{Value}
use polyrust.Prelude.Result.{Result, ok}
use polyrust.Prelude.Float.{F64}
use polyrust.Binance.{
  BinanceBookTicker, bad_quote, mantissa_to_f64, from_le_bytes, i8_at, sbe_ticker, checked_ticker,
  parse_sbe_best_bid_ask, parse_book_ticker,
}

-- The n low bytes of a number, the lowest first: `to_le_bytes`.
abbrev pub to_le_bytes : ℕ → ℕ → List ℕ
to_le_bytes zero v = []
to_le_bytes (suc n) v = v % 256 ∷ to_le_bytes n (v / 256)

pub from_le_bytes-to_le_bytes : (n v : ℕ) → v < 256 ^ n → from_le_bytes (to_le_bytes n v) ≡ v
unfolding from_le_bytes
from_le_bytes-to_le_bytes zero v h = omega arith
from_le_bytes-to_le_bytes (suc n) v h =
    omega (arith, from_le_bytes-to_le_bytes n (v / 256) (below n v h))
  where
    below : (n v : ℕ) → v < 256 ^ suc n → v / 256 < 256 ^ n
    below n v h = omega arith

-- A frame with the fields of BestBidAskStreamEvent: the mantissas are the bits of an i64, the
-- exponents those of an i8, and the rest is the symbol.
pub record Frame : Type 0 where
  pub event_time : ℕ
  pub update_id : ℕ
  pub price_exp : ℕ
  pub qty_exp : ℕ
  pub bid : ℕ
  pub bid_qty : ℕ
  pub ask : ℕ
  pub ask_qty : ℕ
  pub symbol_len : ℕ
  pub symbol : List ℕ

abbrev pub encode : Frame → List ℕ
encode t =
    to_le_bytes 2 50
    ++ to_le_bytes 2 10_001
    ++ to_le_bytes 2 1
    ++ to_le_bytes 2 0
    ++ to_le_bytes 8 t.event_time
    ++ to_le_bytes 8 t.update_id
    ++ t.price_exp ∷ t.qty_exp ∷ to_le_bytes 8 t.bid
    ++ to_le_bytes 8 t.bid_qty
    ++ to_le_bytes 8 t.ask
    ++ to_le_bytes 8 t.ask_qty
    ++ t.symbol_len ∷ t.symbol

abbrev pub signed8 : ℕ → ℤ
signed8 b = i8_at (b ∷ []) 0

-- The fields are in the range of their types, and a positive time and id.
abbrev pub IsFrame : Frame → Type 0
IsFrame t =
    (0 < t.event_time)
    × (t.event_time < 2 ^ 63)
    × (0 < t.update_id)
    × (t.update_id < 2 ^ 63)
    × (t.bid < 2 ^ 64)
    × (t.bid_qty < 2 ^ 64)
    × (t.ask < 2 ^ 64)
    × (t.ask_qty < 2 ^ 64)

module _ (f : F64) where
  abbrev pub ticker_of : Frame → BinanceBookTicker f.Num
  ticker_of t = record {
    event_time = pos t.event_time;
    update_id = pos t.update_id;
    bid = mantissa_to_f64 f (wrap64 (pos t.bid)) (signed8 t.price_exp);
    ask = mantissa_to_f64 f (wrap64 (pos t.ask)) (signed8 t.price_exp);
    bid_qty = mantissa_to_f64 f (wrap64 (pos t.bid_qty)) (signed8 t.qty_exp);
    ask_qty = mantissa_to_f64 f (wrap64 (pos t.ask_qty)) (signed8 t.qty_exp);
  }

  sbe_ticker-encode : (t : Frame) → IsFrame t → sbe_ticker f (encode t) ≡ ticker_of t
  sbe_ticker-encode t (_, time, _, id, bid, bid_qty, ask, ask_qty) =
      rw
        (
          from_le_bytes-to_le_bytes 8 t.event_time (omega arith),
          from_le_bytes-to_le_bytes 8 t.update_id (omega arith),
          from_le_bytes-to_le_bytes 8 t.bid (omega arith),
          from_le_bytes-to_le_bytes 8 t.bid_qty (omega arith),
          from_le_bytes-to_le_bytes 8 t.ask (omega arith),
          from_le_bytes-to_le_bytes 8 t.ask_qty (omega arith),
          wrap64_self (pos t.event_time) (omega arith, omega arith),
          wrap64_self (pos t.update_id) (omega arith, omega arith),
        )
        refl

  checked_ticker_good :
      (t : BinanceBookTicker f.Num)
      → leb_ℤ t.event_time (pos 0) || leb_ℤ t.update_id (pos 0) ≡ false
      → bad_quote f t ≡ false
      → checked_ticker f t ≡ ok (some t)
  unfolding checked_ticker
  checked_ticker_good t timed good = rw (timed, good) refl

  -- A binary frame in the layout of the source, with fields in the range of their types, a positive
  -- time and id and a quote that is not bad, is read back as its fields.
  pub parse_book_ticker-encode :
      (t : Frame) (json : Result Text Value)
      → IsFrame t
      → bad_quote f (ticker_of t) ≡ false
      → parse_book_ticker f (encode t) json ≡ ok (some (ticker_of t))
  unfolding parse_book_ticker parse_sbe_best_bid_ask from_le_bytes
  parse_book_ticker-encode t json frame good =
      let sized : ltb (length (encode t)) 59 ≡ false = ground arith in
      rw (sized, sbe_ticker-encode t frame) (checked_ticker_good (ticker_of t) timed good)
    where
      timed : leb_ℤ (pos t.event_time) (pos 0) || leb_ℤ (pos t.update_id) (pos 0) ≡ false
      timed = ground arith
