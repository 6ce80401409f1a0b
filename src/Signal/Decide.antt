-- ===== src/Signal/Decide.antt =====
-- The decisions of signal.rs: the BUY intent of the latest sample, and what the exits ask of the
-- engine. Log lines of refused intents are left out.
use polyrust.Prelude.{Bool, not, ◌&&◌, ◌||◌, Option, none, some, and_then, if◌then◌else◌}
use polyrust.Prelude.Int.{ℤ, pos, ◌+ℤ◌, ltb_ℤ, max_ℤ, tdiv}
use polyrust.Prelude.Words.{sub64, add32, clamp32, in_i32}
use polyrust.Prelude.Int.{◌-ℤ◌}
use polyrust.Prelude.Result.{done, Fallible, lift, require, ok_value}
use polyrust.Prelude.Fallible.{◌>>=◌, ◌>>◌, and_run}
use polyrust.Prelude.Float.{F64, zero_f, one_f}
use polyrust.Types.{OutcomeSide, TsUs, PriceTick, checked}
use polyrust.Types.OutcomeSide.{yes_side, no_side}
use polyrust.State.{MarketContext, Quote, token_of, buy_cutoff_for_cents}
use polyrust.Signal.{
  BuyIntent, BinanceSample, SignalPoint, SignalEngine, push_received, latest_window, ofi_sum_since,
}
use polyrust.Signal.Model.{prob_yes, implied_p_yes_for}

-- `PriceTick::checked(price.ticks().checked_add(ticks)?).ok()?`.
unfoldable pub offset_price : PriceTick → ℤ → Option PriceTick
offset_price price ticks =
    if in_i32 (price +ℤ ticks) then ok_value (checked (price +ℤ ticks)) else none

abbrev pub quote_of : OutcomeSide → Quote → Quote → Quote
quote_of yes_side yes_quote no_quote = yes_quote
quote_of no_side yes_quote no_quote = no_quote

-- The spread that an entry has to earn, 0 without a bid.
unfoldable pub live_spread_ticks : Option PriceTick → PriceTick → ℤ
live_spread_ticks none edge_price = pos 0
live_spread_ticks (some bid) edge_price = max_ℤ (clamp32 (edge_price -ℤ bid)) (pos 0)

module _ (f : F64) where
  abbrev pub side_of_move : f.Num → OutcomeSide
  side_of_move move_usd = if f.lt (zero_f f) move_usd then yes_side else no_side

  -- The order flow and the imbalance agree with the move.
  unfoldable pub confirms : SignalEngine f.Num → OutcomeSide → f.Num → f.Num → Bool
  confirms e yes_side ofi_sum imbalance =
      not (f.lt ofi_sum e.cfg.min_abs_ofi || f.lt imbalance e.cfg.min_imbalance)
  confirms e no_side ofi_sum imbalance =
      not (f.lt (f.neg e.cfg.min_abs_ofi) ofi_sum || f.lt (f.neg e.cfg.min_imbalance) imbalance)

  -- The side of an entry and the latest sample.
  unfoldable pub entry_side : SignalEngine f.Num → Fallible (OutcomeSide × SignalPoint f.Num)
  entry_side e = do
    window ← lift (latest_window f e)
    let latest = window.0
    let move_usd = f.sub latest.microprice window.1.microprice
    require (not (f.lt (f.abs move_usd) e.cfg.min_move_usd))
    let side = side_of_move move_usd
    let ofi_sum = ofi_sum_since f e (sub64 latest.ts_us e.cfg.max_window_us)
    require (confirms e side ofi_sum latest.imbalance)
    done (some (side, latest))

  unfoldable pub fresh_quote : SignalEngine f.Num → Quote → TsUs → Bool
  fresh_quote e quote now =
      let quote_age = sub64 now quote.ts_us in
      not (ltb_ℤ quote_age (pos 0) || ltb_ℤ e.cfg.max_quote_age_us quote_age)

  unfoldable pub limit_in_band : SignalEngine f.Num → PriceTick → Bool
  limit_in_band e limit = not (ltb_ℤ limit e.cfg.min_buy_limit || ltb_ℤ e.cfg.max_buy_limit limit)

  -- The limit and the price that the edge is measured from.
  unfoldable pub entry_prices : SignalEngine f.Num → Quote → TsUs → Fallible (PriceTick × PriceTick)
  entry_prices e quote now = do
    entry_ask ← lift (buy_cutoff_for_cents quote e.cfg.entry_notional_cents)
    require (fresh_quote e quote now)
    limit ← lift (offset_price entry_ask e.cfg.entry_slippage_ticks)
    require (limit_in_band e limit)
    edge_price ←
        lift (offset_price entry_ask (tdiv (add32 e.cfg.entry_slippage_ticks (pos 1)) (pos 2)))
    done (some (limit, edge_price))

  unfoldable pub side_percent : OutcomeSide → f.Num → f.Num
  side_percent yes_side p_yes = f.mul p_yes (f.literal (pos 100) 0)
  side_percent no_side p_yes = f.mul (f.sub (one_f f) p_yes) (f.literal (pos 100) 0)

  unfoldable pub edge_of : OutcomeSide → f.Num → PriceTick → ℤ
  edge_of side p_yes edge_price =
      f.as_i32 (f.floor (f.sub (side_percent side p_yes) (f.of_int edge_price)))

  unfoldable pub hint_of : SignalEngine f.Num → Quote → Quote → Fallible f.Num
  hint_of e yes_quote no_quote =
      if e.cfg.use_implied_sigma then implied_p_yes_for f yes_quote no_quote else done none

  unfoldable pub decide_latest :
      SignalEngine f.Num → MarketContext → Quote → Quote → TsUs → ℤ → Fallible BuyIntent
  decide_latest e market yes_quote no_quote now tte_us = do
    require (not (f.le e.strike (zero_f f) || ltb_ℤ tte_us e.cfg.min_tte_us))
    chosen ← entry_side e
    let side = chosen.0
    let quote = quote_of side yes_quote no_quote
    prices ← entry_prices e quote now
    let edge_price = prices.1
    and_run (hint_of e yes_quote no_quote) (λ hint. do
      p_yes ← prob_yes f e chosen.1.microprice chosen.1.ts_us tte_us hint
      let edge_ticks = edge_of side p_yes edge_price
      require (
          not (
            ltb_ℤ edge_ticks (max_ℤ e.cfg.min_edge_ticks (live_spread_ticks quote.bid edge_price))))
      done (
          some (record {
            side = side;
            token = token_of market side;
            limit = prices.0;
            edge_price = edge_price;
            edge_ticks = edge_ticks;
          })))

  abbrev too_late : SignalEngine f.Num → ℤ → Bool
  too_late e lag_us = ltb_ℤ (pos 0) e.cfg.max_lag_us && ltb_ℤ e.cfg.max_lag_us lag_us

  unfoldable pub on_sample :
      SignalEngine f.Num
      → BinanceSample f.Num
      → MarketContext
      → Quote
      → Quote
      → TsUs
      → ℤ
      → SignalEngine f.Num × Fallible BuyIntent
  on_sample e sample market yes_quote no_quote now tte_us =
      let lag_us = sub64 now sample.ts_us in
      let (e', pushed) = push_received f e sample now in
      if not pushed
      then (e', done none)
      else if too_late e' lag_us
      then (e', done none)
      else (e', decide_latest e' market yes_quote no_quote now tte_us)

  -- The latest window, unless its last sample came too long ago.
  unfoldable pub live_window :
      SignalEngine f.Num → TsUs → Option (SignalPoint f.Num × SignalPoint f.Num)
  live_window e now = and_then (latest_window f e) (λ w.
      let lag_us = sub64 now w.0.recv_ts_us in
      if ltb_ℤ lag_us (pos 0) || too_late e lag_us then none else some w)

  unfoldable pub fair_ticks_for_side :
      SignalEngine f.Num → OutcomeSide → TsUs → ℤ → Option f.Num → Fallible ℤ
  fair_ticks_for_side e side now tte_us implied_p_yes_hint = do
    window ← lift (live_window e now)
    let latest = window.0
    let hint = if e.cfg.use_implied_sigma then implied_p_yes_hint else none
    p_yes ← prob_yes f e latest.microprice latest.ts_us tte_us hint
    done (some (f.as_i32 (f.floor (side_percent side p_yes))))

  abbrev side_sign : OutcomeSide → f.Num
  side_sign yes_side = one_f f
  side_sign no_side = f.neg (one_f f)

  unfoldable pub opposes_side : SignalEngine f.Num → OutcomeSide → TsUs → Option Bool
  opposes_side e side now = and_then (live_window e now) (λ w.
      let latest = w.0 in
      let sign = side_sign side in
      let signed_move = f.mul sign (f.sub latest.microprice w.1.microprice) in
      let signed_ofi = f.mul sign (ofi_sum_since f e (sub64 latest.ts_us e.cfg.max_window_us)) in
      let signed_imbalance = f.mul sign latest.imbalance in
      some (
        f.le signed_move (f.neg e.cfg.min_move_usd)
        && f.le signed_ofi (f.neg e.cfg.min_abs_ofi)
        && f.le signed_imbalance (f.neg e.cfg.min_imbalance)))
