-- ===== src/Gamma/Tests.antt =====
-- An event of gamma.rs with one closed and one open market, and a date.
use polyrust.Prelude.{◌≡◌, ◌*◌, ◌≤◌, ◌<◌, ◌+◌, ℕ, refl, true, false, none, some, arith}
use polyrust.Prelude.Int.{pos, ◌+ℤ◌, ◌-ℤ◌, ◌*ℤ◌, tdiv}
use polyrust.Prelude.Words.{wrap64}
use polyrust.Prelude.Text.{Text, codes, text_eq, trim, contains, read_from}
use polyrust.Prelude.Json.{Value, Values, Fields, get_field}
use polyrust.Prelude.Result.{done}
use polyrust.Types.Decimal.{parse_i64}
use polyrust.State.{MarketContext}
use polyrust.Gamma.{
  JsonReader, slug_ts, discover_event, first_market, market_context, parse_clob_tokens,
  string_array, pair_tokens, filter_map, select_yes_no, flag, token_object,
}
use polyrust.Gamma.Dates.{
  parse_gamma_iso8601, seconds_of, split_parts, before_point, strip_suffix, epoch_seconds,
  epoch_days,
}
use polyrust.Gamma.Slugs.{slug_ts_window}
use polyrust.Gamma.Markets.{IsOpen, discovered_market-IsOpen}

abbrev noon : Text
noon = codes "2026-05-10T12:00:00Z"

noon_read : parse_gamma_iso8601 noon ≡ some (pos 1_778_414_400)
unfolding parse_gamma_iso8601 seconds_of split_parts before_point strip_suffix epoch_seconds
    epoch_days trim text_eq parse_i64 read_from wrap64 ◌+ℤ◌ ◌-ℤ◌ ◌*ℤ◌ tdiv
noon_read = refl

slug_ts_window_example :
    (q : ℕ) × (slug_ts (pos 300) (pos 1_777_000_230) ≡ done (pos (300 * q)))
    × (300 * q ≤ 1_777_000_230)
    × (1_777_000_230 < 300 * q + 300)
slug_ts_window_example = slug_ts_window 300 1_777_000_230 (omega arith) (omega arith)

-- A reader of no texts: the lists stand in the event themselves.
abbrev no_texts : JsonReader
no_texts = record { read_values = λ _. none; read_strings = λ _. none }

abbrev pair_of : Text → Text → Value
pair_of a b =
    Value.array (Values.value (Value.string a) (Values.value (Value.string b) Values.no_values))

abbrev market_with : Value → Value
market_with open_orders = Value.object (
    Fields.field (codes "active") (Value.boolean true) (
      Fields.field (codes "acceptingOrders") open_orders (
        Fields.field (codes "conditionId") (Value.string (codes "c")) (
          Fields.field (codes "clobTokenIds") (pair_of (codes "1") (codes "2")) (
            Fields.field (codes "outcomes") (pair_of (codes "Up") (codes "Down"))
              Fields.no_fields)))))

abbrev event : Value
event = Value.object (
    Fields.field (codes "active") (Value.boolean true) (
      Fields.field (codes "markets")
        (Value.array (
          Values.value (market_with (Value.boolean false))
            (Values.value (market_with (Value.boolean true)) Values.no_values)))
        Fields.no_fields))

abbrev found : MarketContext
found = record {
  slug = codes "s";
  condition_id = codes "c";
  yes_token = codes "1";
  no_token = codes "2";
  end_ts = pos 1_200;
  slug_ts = pos 900;
}

discovered : discover_event no_texts (codes "s") (pos 900) (pos 300) (pos 1_000) event ≡ some found
unfolding discover_event first_market market_context parse_clob_tokens string_array pair_tokens
    filter_map select_yes_no token_object get_field text_eq contains parse_gamma_iso8601 seconds_of
    split_parts before_point strip_suffix trim parse_i64 wrap64 ◌+ℤ◌
discovered = refl

discovered_market-IsOpen_example :
    (flag event (codes "active") ≡ true)
    × (flag event (codes "closed") ≡ false)
    × IsOpen (codes "s") (pos 900) (pos 1_000) found
discovered_market-IsOpen_example =
    discovered_market-IsOpen no_texts (codes "s") (pos 900) (pos 300) (pos 1_000) event found
      discovered
