-- ===== src/Config/Core.antt =====
-- What runtime.rs makes of a configuration of config.rs: `signal_config`, `buy_submit_policy` and
-- `RuntimeCore::new`.
use polyrust.Prelude.{[], ◌++◌}
use polyrust.Prelude.Int.{pos}
use polyrust.Prelude.Text.{Text, codes}
use polyrust.Prelude.Result.{ok, err}
use polyrust.Prelude.Attempt.{Attempt, ◌>>=◌, pure, throw}
use polyrust.Prelude.Float.{F64}
use polyrust.Types.{PriceTick, TypeError, checked}
use polyrust.State
use polyrust.Inventory
use polyrust.Signal
use polyrust.Signal.{SignalConfig, SignalEngine}
use polyrust.Runtime.{BuySubmitPolicy, RuntimeCore}
use polyrust.Config.{ConfigError, show_ℤ}
use polyrust.Config.Load.{Config}

-- `Display` of a `TypeError`.
abbrev show_type_error : TypeError → Text
show_type_error (TypeError.price_out_of_range t) = codes "price_out_of_range ticks=" ++ show_ℤ t
show_type_error TypeError.invalid_decimal = codes "invalid_decimal"
show_type_error TypeError.negative_amount = codes "negative_amount"

unfoldable pub to_price : Text → PriceTick → Attempt ConfigError PriceTick
to_price name cents = elim (checked cents) [
  | ok p ↦ pure p
  | err e ↦ throw (ConfigError.invalid name (show_type_error e))
]

module _ {Num : Type 0} where
  unfoldable pub signal_config : Config Num → Attempt ConfigError (SignalConfig Num)
  signal_config c = do
    lo ← to_price (codes "MINIMAL_MIN_BUY_LIMIT") c.band.min_buy_limit_cents
    hi ← to_price (codes "MINIMAL_MAX_BUY_LIMIT") c.band.max_buy_limit_cents
    pure (record {
      max_lag_us = c.signal_max_lag_us;
      min_window_us = c.signal_min_window_us;
      max_window_us = c.signal_max_window_us;
      max_spread_usd = c.signal_max_spread_usd;
      min_move_usd = c.signal_min_abs_move_usd;
      min_abs_ofi = c.signal_min_abs_ofi;
      min_imbalance = c.signal_min_imbalance;
      min_total_qty = c.signal_min_total_qty;
      min_edge_ticks = c.edges.decision_min_edge_cents;
      entry_slippage_ticks = c.edges.entry_slippage_cents;
      entry_notional_cents = c.trade.usdc_per_trade_cents;
      max_quote_age_us = c.signal_quote_age_us;
      min_tte_us = c.min_decision_tte_us;
      min_buy_limit = lo;
      max_buy_limit = hi;
      prob_sigma_floor_usd = c.prob_sigma_floor_usd;
      prob_sigma_scale = c.prob_sigma_scale;
      prob_floor = c.prob_floor;
      prob_ceil = c.prob_ceil;
      max_samples = c.signal_ring_size;
      use_implied_sigma = c.use_implied_sigma;
    })

  abbrev pub buy_submit_policy : Config Num → BuySubmitPolicy
  buy_submit_policy c = record {
    target_maker_cents = c.trade.usdc_per_trade_cents;
    min_size_taker_units = pos 100;
    min_maker_cents = pos 100;
    max_overrun_cents = c.trade.max_notional_overrun_cents;
    max_overrun_bps = c.trade.max_notional_overrun_bps;
  }

  -- The core but for its engine.
  abbrev pub core_of : Config Num → RuntimeCore
  core_of c = record {
    state = State.new;
    inventory = Inventory.new;
    buy_policy = buy_submit_policy c;
    sell_slippage_ticks = c.edges.sell_slippage_cents;
    exit_drop_ticks = c.exits.exit_drop_ticks;
    exit_arm_ticks = c.exits.exit_arm_ticks;
    exit_stop_ticks = c.exits.exit_stop_ticks;
    exit_edge_ticks = c.exits.exit_edge_ticks;
    exit_hold_us = c.exits.exit_hold_us;
    exit_trackers = [];
    entry_gates = c.gates;
    rtt_ewma_us = pos 0;
  }

-- `RuntimeCore::new`.
unfoldable pub new_core :
    (f : F64) → Config f.Num → Attempt ConfigError (SignalEngine f.Num × RuntimeCore)
new_core f c = do sc ← signal_config c; pure (Signal.new f sc, core_of c)
