-- ===== src/Config/Load.antt =====
-- config.rs, `Config` and its `from_lookup`: the settings that are read together are one record each.
use polyrust.Prelude.{Bool, true, false, ℕ, ◌++◌, unwrap_or, if◌then◌else◌}
use polyrust.Prelude.Int.{ℤ, pos, ltb_ℤ, leb_ℤ, max_ℤ, pos_part}
use polyrust.Prelude.Text.{Text, codes}
use polyrust.Prelude.Result.{done}
use polyrust.Prelude.Attempt.{Attempt, ◌>>=◌, pure, throw}
use polyrust.Prelude.Float.{F64}
use polyrust.Runtime.{EntryGateConfig}
use polyrust.Config.{
  Env, ConfigError, invalid, band_incoherent, show_ℤ, env_dec_cents, env_i64, env_bool, env_f64,
  or_default, or_missing, to_i32, to_positive, to_nonneg,
}

pub record TradeSettings : Type 0 where
  pub usdc_per_trade_cents : ℤ
  pub max_notional_overrun_cents : ℤ
  pub max_notional_overrun_bps : ℤ

pub record BandSettings : Type 0 where
  pub min_buy_limit_cents : ℤ
  pub max_buy_limit_cents : ℤ

pub record EdgeSettings : Type 0 where
  pub decision_min_edge_cents : ℤ
  pub entry_slippage_cents : ℤ
  pub sell_slippage_cents : ℤ

pub record ExitSettings : Type 0 where
  pub exit_drop_ticks : ℤ
  pub exit_arm_ticks : ℤ
  pub exit_stop_ticks : ℤ
  pub exit_edge_ticks : ℤ
  pub exit_hold_us : ℤ

-- The fields of the source, those that are read together in one record.
pub record Config (Num : Type 0) : Type 0 where
  pub allow_live_orders : Bool
  pub trade : TradeSettings
  pub band : BandSettings
  pub min_decision_tte_us : ℤ
  pub edges : EdgeSettings
  pub exits : ExitSettings
  pub signal_quote_age_us : ℤ
  pub gates : EntryGateConfig
  pub use_implied_sigma : Bool
  pub signal_max_lag_us : ℤ
  pub signal_min_window_us : ℤ
  pub signal_max_window_us : ℤ
  pub signal_max_spread_usd : Num
  pub signal_min_abs_move_usd : Num
  pub signal_min_abs_ofi : Num
  pub signal_min_imbalance : Num
  pub signal_min_total_qty : Num
  pub prob_sigma_scale : Num
  pub prob_sigma_floor_usd : Num
  pub prob_floor : Num
  pub prob_ceil : Num
  pub signal_ring_size : ℕ

abbrev i64_or : Env → Text → ℤ → ℤ
i64_or env name d = unwrap_or (env_i64 env name) d

unfoldable pub venue_floor : ℤ → Attempt ConfigError ℤ
venue_floor cents =
    if ltb_ℤ cents (pos 100)
    then throw (
        invalid (codes "MINIMAL_USDC_PER_TRADE")
          (codes "below_venue_floor cents=" ++ show_ℤ cents ++ codes " min=100"))
    else pure cents

unfoldable pub read_trade : Env → Attempt ConfigError TradeSettings
read_trade env = do
  let name = codes "MINIMAL_USDC_PER_TRADE"
  raw ← or_missing (env_dec_cents env name) name
  usdc ← venue_floor raw
  overrun ← or_default (env_dec_cents env (codes "MINIMAL_MAX_NOTIONAL_OVERRUN")) (pos 1)
  pure (record {
    usdc_per_trade_cents = usdc;
    max_notional_overrun_cents = overrun;
    max_notional_overrun_bps = i64_or env (codes "MINIMAL_MAX_NOTIONAL_OVERRUN_BPS") (pos 0);
  })

unfoldable pub coherent : ℤ → ℤ → Attempt ConfigError BandSettings
coherent lo hi =
    if leb_ℤ hi lo
    then throw (band_incoherent lo hi)
    else pure (record { min_buy_limit_cents = lo; max_buy_limit_cents = hi })

unfoldable pub read_band : Env → Attempt ConfigError BandSettings
read_band env = do
  let min_name = codes "MINIMAL_MIN_BUY_LIMIT"
  raw_lo ← or_missing (env_dec_cents env min_name) min_name
  lo ← to_i32 min_name raw_lo
  let max_name = codes "MINIMAL_MAX_BUY_LIMIT"
  raw_hi ← or_default (env_dec_cents env max_name) (pos 60)
  hi ← to_i32 max_name raw_hi
  coherent lo hi

unfoldable pub read_tte : Env → Attempt ConfigError ℤ
read_tte env = do
  let name = codes "MINIMAL_DECISION_MIN_TTE_US"
  raw ← or_missing (done (env_i64 env name)) name
  to_positive name raw

-- A number of cents that fits an i32.
cents_i32 : Env → Text → ℤ → Attempt ConfigError ℤ
cents_i32 env name d = do raw ← or_default (env_dec_cents env name) d; to_i32 name raw

unfoldable pub read_edges : Env → Attempt ConfigError EdgeSettings
unfolding cents_i32
read_edges env = do
  edge ← cents_i32 env (codes "MINIMAL_DECISION_MIN_EDGE") (pos 5)
  entry ← cents_i32 env (codes "MINIMAL_ENTRY_SLIPPAGE") (pos 0)
  sell ← cents_i32 env (codes "MINIMAL_SELL_SLIPPAGE") (pos 0)
  pure (record {
    decision_min_edge_cents = edge;
    entry_slippage_cents = entry;
    sell_slippage_cents = sell;
  })

-- A number of ticks that fits an i32, without a check, above 0, and from 0 up.
unfoldable pub ticks : Env → Text → ℤ → Attempt ConfigError ℤ
ticks env name d = to_i32 name (i64_or env name d)

unfoldable pub positive_ticks : Env → Text → ℤ → Attempt ConfigError ℤ
positive_ticks env name d = do v ← ticks env name d; to_positive name v

unfoldable pub nonneg_ticks : Env → Text → ℤ → Attempt ConfigError ℤ
nonneg_ticks env name d = do v ← ticks env name d; to_nonneg name v

unfoldable pub read_exits : Env → Attempt ConfigError ExitSettings
read_exits env = do
  drop ← positive_ticks env (codes "EXIT_DROP_TICKS") (pos 2)
  arm ← nonneg_ticks env (codes "EXIT_ARM_TICKS") (pos 2)
  stop ← positive_ticks env (codes "EXIT_STOP_TICKS") (pos 3)
  edge ← ticks env (codes "EXIT_EDGE_TICKS") (pos 0)
  let hold_name = codes "EXIT_HOLD_US"
  hold ← to_positive hold_name (i64_or env hold_name (pos 30_000_000))
  pure (record {
    exit_drop_ticks = drop;
    exit_arm_ticks = arm;
    exit_stop_ticks = stop;
    exit_edge_ticks = edge;
    exit_hold_us = hold;
  })

unfoldable pub read_quote_age : Env → Attempt ConfigError ℤ
read_quote_age env =
    let name = codes "MINIMAL_SIGNAL_QUOTE_AGE_US" in
    to_positive name (i64_or env name (pos 50_000))

unfoldable pub read_gates : Env → Attempt ConfigError EntryGateConfig
read_gates env = do
  let rtt_name = codes "MINIMAL_RTT_CEILING_US"
  rtt ← to_nonneg rtt_name (i64_or env rtt_name (pos 1_500_000))
  let window_name = codes "MINIMAL_POLY_DRIFT_WINDOW_US"
  window ← to_nonneg window_name (i64_or env window_name (pos 1_000_000))
  up ← nonneg_ticks env (codes "MINIMAL_POLY_DRIFT_BLOCK_UP_TICKS") (pos 4)
  down ← nonneg_ticks env (codes "MINIMAL_POLY_DRIFT_BLOCK_DOWN_TICKS") (pos 4)
  safety ← nonneg_ticks env (codes "MINIMAL_POLY_DRIFT_SAFETY_BPS") (pos 12_000)
  clean ← nonneg_ticks env (codes "MINIMAL_POLY_DRIFT_MIN_CLEAN_EDGE_TICKS") (pos 3)
  pure (record {
    rtt_ceiling_us = rtt;
    poly_drift_window_us = window;
    poly_drift_block_up_ticks = up;
    poly_drift_block_down_ticks = down;
    poly_drift_safety_bps = safety;
    poly_drift_min_clean_edge_ticks = clean;
  })

module _ (f : F64) where
  abbrev f64_or : Env → Text → f.Num → f.Num
  f64_or env name d = unwrap_or (env_f64 f env name) d

  unfoldable pub from_lookup : Env → Attempt ConfigError (Config f.Num)
  from_lookup env = do
    trade ← read_trade env
    band ← read_band env
    tte ← read_tte env
    edges ← read_edges env
    exits ← read_exits env
    quote_age ← read_quote_age env
    gates ← read_gates env
    pure (record {
      allow_live_orders = unwrap_or (env_bool env (codes "POLY_ALLOW_LIVE_ORDERS")) false;
      trade = trade;
      band = band;
      min_decision_tte_us = tte;
      edges = edges;
      exits = exits;
      signal_quote_age_us = quote_age;
      gates = gates;
      use_implied_sigma = unwrap_or (env_bool env (codes "MINIMAL_USE_IMPLIED_SIGMA")) true;
      signal_max_lag_us = i64_or env (codes "MINIMAL_SIGNAL_MAX_LAG_US") (pos 250_000);
      signal_min_window_us = i64_or env (codes "MINIMAL_SIGNAL_MIN_WINDOW_US") (pos 250_000);
      signal_max_window_us = i64_or env (codes "MINIMAL_SIGNAL_MAX_WINDOW_US") (pos 2_000_000);
      signal_max_spread_usd = f64_or env (codes "MINIMAL_SIGNAL_MAX_SPREAD") (f.literal (pos 2) 0);
      signal_min_abs_move_usd =
          f64_or env (codes "MINIMAL_SIGNAL_MIN_ABS_MOVE") (f.literal (pos 5) 1);
      signal_min_abs_ofi = f64_or env (codes "MINIMAL_SIGNAL_MIN_ABS_OFI") (f.literal (pos 1) 0);
      signal_min_imbalance =
          f64_or env (codes "MINIMAL_SIGNAL_MIN_IMBALANCE") (f.literal (pos 12) 2);
      signal_min_total_qty =
          f64_or env (codes "MINIMAL_SIGNAL_MIN_TOTAL_QTY") (f.literal (pos 1) 6);
      prob_sigma_scale = f64_or env (codes "MINIMAL_PROB_SIGMA_SCALE") (f.literal (pos 15) 1);
      prob_sigma_floor_usd =
          f64_or env (codes "MINIMAL_PROB_SIGMA_FLOOR_USD") (f.literal (pos 2) 0);
      prob_floor = f64_or env (codes "MINIMAL_PROB_FLOOR") (f.literal (pos 2) 2);
      prob_ceil = f64_or env (codes "MINIMAL_PROB_CEIL") (f.literal (pos 98) 2);
      signal_ring_size =
          pos_part (max_ℤ (i64_or env (codes "MINIMAL_SIGNAL_RING_SIZE") (pos 128)) (pos 8));
    })
