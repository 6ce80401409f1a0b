-- ===== src/Binance/Tickers.antt =====
-- The tickers of binance.rs that a frame of either form gives.
use mathlib.Core.Path.{subst}
use polyrust.Prelude.{◌≡◌, inl, inr, refl, false, ◌||◌, Bool-cases, some, List, ℕ, arith, unwrap_or}
use polyrust.Prelude.Int.{ℤ, pos, negsuc, leb_ℤ, ◌*ℤ◌, ◌≤ℤ◌, ◌<ℤ◌}
use polyrust.Prelude.Text.{Text, codes}
use polyrust.Prelude.Json.{Value, get}
use polyrust.Prelude.Result.{Result, ok, err}
use polyrust.Prelude.Float.{F64, IsF64, zero_f}
use polyrust.Binance.{
  Parsed, BinanceBookTicker, BinanceParseError, parse_book_ticker, parse_sbe_best_bid_ask,
  checked_ticker, sbe_ticker, parse_book_ticker_json, json_ticker, parse_positive_i64_json,
  parse_positive_f64_json, normalize_epoch_to_us, event_time_of, is_sbe, ◌>>=◌, bad_quote,
}

parsed_ok :
    {A B : Type 0} (m : Parsed A) (k : A → Parsed B) (b : B)
    → (m >>= k) ≡ ok b
    → (a : A) × (m ≡ ok a) × (k a ≡ ok b)
unfolding ◌>>=◌
parsed_ok (ok a) k b e = (a, refl, e)
parsed_ok (err x) k b e = cc

positive_i64 : (v : Value) (key : Text) (n : ℤ) → parse_positive_i64_json v key ≡ ok n → pos 0 <ℤ n
unfolding parse_positive_i64_json
positive_i64 v key n e = ground (arith, e)

normalize_positive : (ts us : ℤ) → normalize_epoch_to_us ts ≡ ok us → pos 0 ≤ℤ us
unfolding normalize_epoch_to_us ◌*ℤ◌
normalize_positive (pos n) us e = ground arith
normalize_positive (negsuc n) us e = ground arith

event_time_nonneg : (m : Parsed ℤ) (t : ℤ) → event_time_of m ≡ ok t → pos 0 ≤ℤ t
event_time_nonneg (ok et) t e = normalize_positive et t e
event_time_nonneg (err (BinanceParseError.missing_field k)) t e = ground arith
event_time_nonneg (err (BinanceParseError.invalid_json k)) t e = absurd cc
event_time_nonneg (err (BinanceParseError.invalid_number k)) t e = absurd cc
event_time_nonneg (err BinanceParseError.sbe_too_short) t e = absurd cc
event_time_nonneg (err (BinanceParseError.sbe_bad_template n)) t e = absurd cc

module _ (f : F64) where
  -- Not at most zero, nor is the bid above the ask.
  abbrev pub IsQuoted : BinanceBookTicker f.Num → Type 0
  IsQuoted t =
      (pos 0 ≤ℤ t.event_time)
      × (pos 0 <ℤ t.update_id)
      × (f.le t.bid (zero_f f) ≡ false)
      × (f.le t.ask (zero_f f) ≡ false)
      × (f.le t.bid_qty (zero_f f) ≡ false)
      × (f.le t.ask_qty (zero_f f) ≡ false)
      × (f.lt t.ask t.bid ≡ false)

  checked_ticker-some :
      (t u : BinanceBookTicker f.Num)
      → checked_ticker f t ≡ ok (some u)
      → (t ≡ u)
        × (leb_ℤ t.event_time (pos 0) || leb_ℤ t.update_id (pos 0) ≡ false)
        × (bad_quote f t ≡ false)
  unfolding checked_ticker
  checked_ticker-some t u e =
      elim (Bool-cases (leb_ℤ t.event_time (pos 0) || leb_ℤ t.update_id (pos 0))) [
        | inl untimed ↦ absurd (ground arith)
        | inr timed ↦ elim (Bool-cases (bad_quote f t)) [
          | inl bad ↦ absurd (ground arith)
          | inr good ↦ (ground arith, timed, good)
        ]
      ]

  checked_ticker-IsQuoted :
      (t u : BinanceBookTicker f.Num) → checked_ticker f t ≡ ok (some u) → IsQuoted u
  checked_ticker-IsQuoted t u e =
      let (same, timed, good) = checked_ticker-some t u e in
      subst IsQuoted same (
        ground arith,
        ground arith,
        ground arith,
        ground arith,
        ground arith,
        ground arith,
        ground arith,
      )

  positive_f64 :
      IsF64 f
      → (v : Value) (key : Text) (n : f.Num) → parse_positive_f64_json f v key ≡ ok n
      → f.le n (zero_f f) ≡ false
  unfolding parse_positive_f64_json
  positive_f64 laws v key n e = ground (arith, e, laws.le_not_lt n (zero_f f))

  json_ticker-IsQuoted :
      IsF64 f
      → (v : Value) (u : BinanceBookTicker f.Num) → json_ticker f v ≡ ok (some u)
      → IsQuoted u
  unfolding json_ticker
  json_ticker-IsQuoted laws v u e =
      let (time, e_time, e1) = parsed_ok _ _ _ e in
      let (id, e_id, e2) = parsed_ok _ _ _ e1 in
      let (bid, e_bid, e3) = parsed_ok _ _ _ e2 in
      let (bid_qty, e_bid_qty, e4) = parsed_ok _ _ _ e3 in
      let (ask, e_ask, e5) = parsed_ok _ _ _ e4 in
      let (ask_qty, e_ask_qty, e6) = parsed_ok _ _ _ e5 in
      let t : BinanceBookTicker f.Num = record {
        event_time = time;
        update_id = id;
        bid = bid;
        ask = ask;
        bid_qty = bid_qty;
        ask_qty = ask_qty;
      } in
      elim (Bool-cases (f.lt ask bid)) [
        | inl crossed ↦ absurd (ground arith)
        | inr ordered ↦
            let same : t ≡ u = ground arith in
            subst IsQuoted same (
              event_time_nonneg (parse_positive_i64_json v (codes "E")) time e_time,
              positive_i64 v _ id e_id,
              positive_f64 laws v _ bid e_bid,
              positive_f64 laws v _ ask e_ask,
              positive_f64 laws v _ bid_qty e_bid_qty,
              positive_f64 laws v _ ask_qty e_ask_qty,
              ordered,
            )
      ]

  sbe-IsQuoted :
      (raw : List ℕ) (u : BinanceBookTicker f.Num)
      → parse_sbe_best_bid_ask f raw ≡ ok (some u)
      → IsQuoted u
  unfolding parse_sbe_best_bid_ask
  sbe-IsQuoted raw u e = checked_ticker-IsQuoted (sbe_ticker f raw) u (ground arith)

  json-IsQuoted :
      IsF64 f
      → (json : Result Text Value) (u : BinanceBookTicker f.Num)
      → parse_book_ticker_json f json ≡ ok (some u)
      → IsQuoted u
  unfolding parse_book_ticker_json
  json-IsQuoted laws (err x) u e = absurd cc
  json-IsQuoted laws (ok root) u e =
      json_ticker-IsQuoted laws (unwrap_or (get root (codes "data")) root) u (ground arith)

  -- A ticker of either form of frame has a positive id, a time from zero up, prices and sizes that
  -- are not at most zero, and no bid above the ask, for an f64 whose comparisons are those of IEEE
  -- 754.
  pub parsed_ticker-IsQuoted :
      IsF64 f
      → (raw : List ℕ) (json : Result Text Value) (u : BinanceBookTicker f.Num)
      → parse_book_ticker f raw json ≡ ok (some u)
      → IsQuoted u
  unfolding parse_book_ticker
  parsed_ticker-IsQuoted laws raw json u e = elim (Bool-cases (is_sbe raw)) [
    | inl binary ↦ sbe-IsQuoted raw u (rw binary at e)
    | inr text ↦ json-IsQuoted laws json u (rw text at e)
  ]
