-- ===== src/Binance/Tests.antt =====
-- A binary frame and a JSON frame of binance.rs.
use polyrust.Prelude.{◌≡◌, refl, some, [], ◌∷◌, arith}
use polyrust.Prelude.Int.{ℤ, pos, ◌*ℤ◌, tdiv}
use polyrust.Prelude.Words.{wrap64}
use polyrust.Prelude.Text.{Text, codes, text_eq, read_from}
use polyrust.Prelude.Json.{Value, Fields, get_field}
use polyrust.Prelude.Result.{ok, err}
use polyrust.Prelude.Float.Decimals.{decimals, decimals-IsF64}
use polyrust.Types.Decimal.{parse_i64}
use polyrust.Binance.{
  BinanceBookTicker, parse_book_ticker, parse_book_ticker_json, json_ticker,
  parse_positive_i64_json, parse_positive_f64_json, ◌>>=◌, mantissa_to_f64,
}
use polyrust.Binance.Frames.{Frame, encode, ticker_of, parse_book_ticker-encode}
use polyrust.Binance.Tickers.{IsQuoted, parsed_ticker-IsQuoted}

-- 100.50 and 100.52, with exponents of -2.
abbrev frame : Frame
frame = record {
  event_time = 1_777_000_000_123_456;
  update_id = 400_900_217;
  price_exp = 254;
  qty_exp = 254;
  bid = 10_050;
  bid_qty = 300;
  ask = 10_052;
  ask_qty = 400;
  symbol_len = 1;
  symbol = b'B' ∷ [];
}

parse_book_ticker-encode_example :
    parse_book_ticker decimals (encode frame) (err []) ≡ ok (some (ticker_of decimals frame))
unfolding mantissa_to_f64 wrap64 ◌*ℤ◌ tdiv
parse_book_ticker-encode_example =
    parse_book_ticker-encode decimals frame (err [])
      (
        omega arith,
        omega arith,
        omega arith,
        omega arith,
        omega arith,
        omega arith,
        omega arith,
        omega arith,
      )
      refl

abbrev number : Text → Value
number s = Value.string s

abbrev json : Value
json = Value.object (
    Fields.field (codes "u") (number (codes "7")) (
      Fields.field (codes "b") (number (codes "100")) (
        Fields.field (codes "B") (number (codes "3")) (
          Fields.field (codes "a") (number (codes "101"))
            (Fields.field (codes "A") (number (codes "4")) Fields.no_fields)))))

abbrev ticker : BinanceBookTicker ℤ
ticker = record {
  event_time = pos 0;
  update_id = pos 7;
  bid = pos 100_000_000;
  ask = pos 101_000_000;
  bid_qty = pos 3_000_000;
  ask_qty = pos 4_000_000;
}

parsed : parse_book_ticker decimals (b'{' ∷ []) (ok json) ≡ ok (some ticker)
unfolding parse_book_ticker parse_book_ticker_json json_ticker parse_positive_i64_json
    parse_positive_f64_json get_field text_eq parse_i64 read_from ◌>>=◌ ◌*ℤ◌ tdiv
parsed = refl

parsed_ticker-IsQuoted_example : IsQuoted decimals ticker
parsed_ticker-IsQuoted_example =
    parsed_ticker-IsQuoted decimals decimals-IsF64 (b'{' ∷ []) (ok json) ticker parsed
