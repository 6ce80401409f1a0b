-- ===== src/User/Tests.antt =====
-- A run of user.rs: one trade event.
use polyrust.Prelude.{◌≡◌, refl, some, none, Option, [], ◌∷◌, All}
use polyrust.Prelude.Int.{pos, ◌*ℤ◌, ◌+ℤ◌}
use polyrust.Prelude.Words.{wrap64}
use polyrust.Prelude.Text.{Text, codes, text_eq, trim, read_from}
use polyrust.Prelude.Json.{Value, Fields, get_field}
use polyrust.Prelude.Result.{done, ok}
use polyrust.Prelude.Attempt.{◌>>=◌}
use polyrust.Types.{checked}
use polyrust.Types.OrderSide.{buy}
use polyrust.Types.Decimal.{
  parse_price, parse_shares, parse_decimal_scaled, scaled_value, split_point, parse_i64,
  decimal_scale_digits, scale_loop, cut_fraction,
}
use polyrust.Inventory.{UserTrade, from_venue}
use polyrust.Inventory.TradeStatus.{matched}
use polyrust.User.{
  UserMessage, parse_user_message, parse_trades, parse_trade_value, parse_trade, is_trade_event,
  auth_message, optional_str, optional_i64, parse_side,
}
use polyrust.User.Trades.{IsSound, parsed_trades-IsSound}

abbrev text_field : Text → Text → Fields → Fields
text_field k s rest = Fields.field k (Value.string s) rest

abbrev pub trade_event : Option Value
trade_event = some (
    Value.object (
      text_field (codes "type") (codes "trade") (
        text_field (codes "id") (codes "t1") (
          text_field (codes "asset_id") (codes "y") (
            text_field (codes "side") (codes "BUY") (
              text_field (codes "size") (codes "2.5")
                (text_field (codes "price") (codes "0.42") Fields.no_fields)))))))

abbrev pub one_trade : UserTrade
one_trade = record {
  trade_id = codes "t1";
  token = codes "y";
  taker_order_id = none;
  side = buy;
  size_atoms = pos 2_500_000;
  price = pos 42;
  status = matched;
  ts_us = pos 7;
}

pub trade_event_parsed :
    parse_user_message trade_event (pos 7) ≡ done (ok (UserMessage.trades (one_trade ∷ [])))
unfolding parse_user_message parse_trades parse_trade_value parse_trade is_trade_event auth_message
    optional_str optional_i64 parse_side get_field text_eq trim read_from parse_price parse_shares
    parse_decimal_scaled scaled_value split_point parse_i64 decimal_scale_digits scale_loop
    cut_fraction ◌*ℤ◌ ◌+ℤ◌ wrap64 checked from_venue ◌>>=◌
trade_event_parsed = refl

parsed_trades-IsSound_example : All IsSound (one_trade ∷ [])
parsed_trades-IsSound_example =
    parsed_trades-IsSound trade_event (pos 7) (one_trade ∷ []) trade_event_parsed
