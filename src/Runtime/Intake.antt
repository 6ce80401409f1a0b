-- ===== src/Runtime/Intake.antt =====
-- runtime.rs, `apply_market_raw` and `apply_user_raw_with_states`: what a message of a channel does to
-- the core.
pub mod Keeps
use polyrust.Prelude.{ℕ, Option, List, [], ◌∷◌}
use polyrust.Prelude.Int.{ℤ}
use polyrust.Prelude.Json.{Value}
use polyrust.Prelude.Attempt.{Attempt, ◌>>=◌, pure}
use polyrust.Inventory.{UserTrade, TradeState}
use polyrust.Inventory.Trades.{apply_user_trade}
use polyrust.Types.{TsUs}
use polyrust.Market.{MarketParseError, parse_market_events, apply_market_events}
use polyrust.User.{UserMessage, UserParseError, parse_user_message}
use polyrust.Runtime.{RuntimeCore}
use polyrust.Runtime.Exits.{track_user_trade_for_exit}

unfoldable pub apply_market_raw :
    RuntimeCore → Option Value → TsUs → Attempt MarketParseError (RuntimeCore × ℕ)
apply_market_raw c raw ts_us = do
  events ← parse_market_events raw
  let applied = apply_market_events c.state events ts_us
  pure (record c { state = applied.0 }, applied.1)

-- One turn of the loop: the trade is applied, then tracked for the exit.
unfoldable pub take_trade : RuntimeCore → UserTrade → RuntimeCore × TradeState
take_trade c t =
    let (inv, st) = apply_user_trade c.inventory t in
    (track_user_trade_for_exit (record c { inventory = inv }) t st, st)

unfoldable pub take_trades : RuntimeCore → List UserTrade → RuntimeCore × List TradeState
take_trades c [] = (c, [])
take_trades c (t ∷ ts) =
    let (c', st) = take_trade c t in let (c'', sts) = take_trades c' ts in (c'', st ∷ sts)

abbrev pub take_message : RuntimeCore → UserMessage → RuntimeCore × List TradeState
take_message c (UserMessage.trades ts) = take_trades c ts
take_message c UserMessage.auth_success = (c, [])
take_message c (UserMessage.auth_error _) = (c, [])
take_message c UserMessage.other_message = (c, [])

unfoldable pub apply_user_raw_with_states :
    RuntimeCore
    → Option Value
    → ℤ
    → Attempt UserParseError (RuntimeCore × (UserMessage × List TradeState))
apply_user_raw_with_states c raw ts_us = do
  msg ← parse_user_message raw ts_us
  pure ((take_message c msg).0, (msg, (take_message c msg).1))
