-- ===== src/Runtime/Intake/Keeps.antt =====
-- A message of the user channel keeps the inventory valid, one of the market channel the quotes.
use mathlib.Core.Path.{subst}
use polyrust.Prelude.{ℕ, ◌≡◌, refl, sym, ap, Option, List, [], ◌∷◌, All, arith}
use polyrust.Prelude.Int.{ℤ}
use polyrust.Prelude.Json.{Value}
use polyrust.Prelude.Result.{done, ok}
use polyrust.Prelude.Attempt.{bind_ok, pure_ok}
use polyrust.Inventory.{UserTrade, TradeState}
use polyrust.Inventory.Trades.{apply_user_trade}
use polyrust.Inventory.Valid.{IsValid, apply_user_trade-IsValid}
use polyrust.Types.{TsUs}
use polyrust.State.Quotes.{IsTidy}
use polyrust.Market.Effects.{apply_market_events-IsTidy}
use polyrust.User.{UserMessage, parse_user_message}
use polyrust.User.Trades.{IsSound, parsed_trades-IsSound}
use polyrust.Runtime.{RuntimeCore}
use polyrust.Runtime.Exits.{track_user_trade_for_exit}
use polyrust.Runtime.Intake.{
  take_trade, take_trades, take_message, apply_market_raw, apply_user_raw_with_states,
}

-- Tracking changes no inventory.
track-inventory :
    (c : RuntimeCore) (t : UserTrade) (st : TradeState)
    → (track_user_trade_for_exit c t st).inventory ≡ c.inventory
unfolding track_user_trade_for_exit
track-inventory c t st = ground arith

take_trade-IsValid :
    (c : RuntimeCore) (t : UserTrade)
    → IsSound t
    → IsValid c.inventory
    → IsValid (take_trade c t).0.inventory
unfolding take_trade
take_trade-IsValid c t s v =
    let (inv, st) = apply_user_trade c.inventory t in
    subst IsValid (sym (track-inventory (record c { inventory = inv }) t st))
      (apply_user_trade-IsValid c.inventory t s.0 v)

take_trades-IsValid :
    (c : RuntimeCore) (ts : List UserTrade)
    → All IsSound ts
    → IsValid c.inventory
    → IsValid (take_trades c ts).0.inventory
unfolding take_trades
take_trades-IsValid c [] s v = v
take_trades-IsValid c (t ∷ ts) s v =
    take_trades-IsValid (take_trade c t).0 ts s.1 (take_trade-IsValid c t s.0 v)

take_message-IsValid :
    (c : RuntimeCore) (raw : Option Value) (ts_us : ℤ) (m : UserMessage)
    → parse_user_message raw ts_us ≡ done (ok m)
    → IsValid c.inventory
    → IsValid (take_message c m).0.inventory
take_message-IsValid c raw ts_us (UserMessage.trades ts) e v =
    take_trades-IsValid c ts (parsed_trades-IsSound raw ts_us ts e) v
take_message-IsValid c raw ts_us UserMessage.auth_success e v = v
take_message-IsValid c raw ts_us (UserMessage.auth_error x) e v = v
take_message-IsValid c raw ts_us UserMessage.other_message e v = v

-- Whatever message the user channel sends, a call that returns without an error leaves a valid
-- inventory valid.
pub user_message_keeps :
    (c c' : RuntimeCore) (raw : Option Value) (ts_us : ℤ) (r : UserMessage × List TradeState)
    → apply_user_raw_with_states c raw ts_us ≡ done (ok (c', r))
    → IsValid c.inventory
    → IsValid c'.inventory
unfolding apply_user_raw_with_states
user_message_keeps c c' raw ts_us r e v =
    let (m, em, e1) = bind_ok _ _ (c', r) e in
    let same =
      ap (λ (x : RuntimeCore × (UserMessage × List TradeState)). x.0.inventory)
        (pure_ok _ (c', r) e1) in
    subst IsValid same (take_message-IsValid c raw ts_us m em v)

-- Whatever message the market channel sends, a call that returns without an error changes nothing
-- of the core but its market state, and keeps it so that quotes are held only while trading is
-- active, and only of the two tokens of the market.
pub market_message_keeps :
    (c c' : RuntimeCore) (raw : Option Value) (ts_us : TsUs) (n : ℕ)
    → apply_market_raw c raw ts_us ≡ done (ok (c', n))
    → IsTidy c.state
    → IsTidy c'.state × (c' ≡ record c { state = c'.state })
unfolding apply_market_raw
market_message_keeps c c' raw ts_us n e v =
    let (events, _, e1) = bind_ok _ _ (c', n) e in
    let same = ap (λ (x : RuntimeCore × ℕ). x.0) (pure_ok _ (c', n) e1) in
    subst (λ (k : RuntimeCore). IsTidy k.state × (k ≡ record c { state = k.state })) same
      (apply_market_events-IsTidy c.state events ts_us v, refl)
