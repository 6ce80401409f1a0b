-- ===== src/Config/Tests.antt =====
-- A configuration that config.rs accepts, and the core that it starts.
use polyrust.Prelude.{some, ◌+◌, length, ◌≡◌, refl, true, false, none, [], ◌∷◌}
use polyrust.Prelude.Int.{ℤ, pos, ◌*ℤ◌, ◌+ℤ◌, ◌-ℤ◌, tdiv}
use polyrust.Prelude.Words.{wrap64}
use polyrust.Prelude.Text.{Text, codes, text_eq, trim, read_from}
use polyrust.Prelude.Map.{Map, lookup, insert}
use polyrust.Prelude.Result.{ok, done}
use polyrust.Prelude.Fallible
use polyrust.Prelude.Fallible.{Returns, and_run}
use polyrust.Prelude.Attempt.{◌>>=◌}
use polyrust.Prelude.Float.Decimals.{decimals, decimals-IsF64}
use polyrust.Types.{checked}
use polyrust.State.{MarketContext, Quote}
use polyrust.State.Depth.{empty_depth}
use polyrust.Types.Decimal.{parse_i64, split_at, split_point}
use polyrust.Signal
use polyrust.Signal.Samples.{Reach}
use polyrust.Signal.Decide.{decide_latest}
use polyrust.Signal.{SignalConfig, SignalEngine}
use polyrust.Config.{
  Env, env_dec_cents, env_i64, env_bool, env_f64, parse_dec_cents, signed_cents, fraction_cents,
  to_i32, to_positive, to_nonneg,
}
use polyrust.Config.Load.{
  Config, from_lookup, read_trade, read_band, read_tte, read_edges, read_exits, read_quote_age,
  read_gates, venue_floor, coherent, ticks, positive_ticks, nonneg_ticks,
}
use polyrust.Config.Core.{new_core, core_of, signal_config, to_price}
use polyrust.Config.Valid.{IsLoaded, from_lookup-IsLoaded}
use polyrust.Config.Launch.{load_env_text, load_lines, load_line, set_entry, split_once, lines}
use polyrust.Config.Files.{load_env_text-Extends}
use polyrust.Config.Ready.{started_engine-Returns}

abbrev variables : Map Text
variables =
    (codes "MINIMAL_USDC_PER_TRADE", codes " 1.5")
    ∷ (codes "MINIMAL_MIN_BUY_LIMIT", codes "0.10")
    ∷ (codes "MINIMAL_DECISION_MIN_TTE_US", codes "5000000")
    ∷ (codes "MINIMAL_PROB_CEIL", codes "1")
    ∷ []

abbrev env : Env
env name = lookup name variables

abbrev loaded : Config ℤ
loaded = record {
  allow_live_orders = false;
  trade = record {
    usdc_per_trade_cents = pos 150;
    max_notional_overrun_cents = pos 1;
    max_notional_overrun_bps = pos 0;
  };
  band = record { min_buy_limit_cents = pos 10; max_buy_limit_cents = pos 60 };
  min_decision_tte_us = pos 5_000_000;
  edges = record {
    decision_min_edge_cents = pos 5;
    entry_slippage_cents = pos 0;
    sell_slippage_cents = pos 0;
  };
  exits = record {
    exit_drop_ticks = pos 2;
    exit_arm_ticks = pos 2;
    exit_stop_ticks = pos 3;
    exit_edge_ticks = pos 0;
    exit_hold_us = pos 30_000_000;
  };
  signal_quote_age_us = pos 50_000;
  gates = record {
    rtt_ceiling_us = pos 1_500_000;
    poly_drift_window_us = pos 1_000_000;
    poly_drift_block_up_ticks = pos 4;
    poly_drift_block_down_ticks = pos 4;
    poly_drift_safety_bps = pos 12_000;
    poly_drift_min_clean_edge_ticks = pos 3;
  };
  use_implied_sigma = true;
  signal_max_lag_us = pos 250_000;
  signal_min_window_us = pos 250_000;
  signal_max_window_us = pos 2_000_000;
  signal_max_spread_usd = pos 2_000_000;
  signal_min_abs_move_usd = pos 500_000;
  signal_min_abs_ofi = pos 1_000_000;
  signal_min_imbalance = pos 120_000;
  signal_min_total_qty = pos 1;
  prob_sigma_scale = pos 1_500_000;
  prob_sigma_floor_usd = pos 2_000_000;
  prob_floor = pos 20_000;
  prob_ceil = pos 1_000_000;
  signal_ring_size = 128;
}

traded : read_trade env ≡ done (ok loaded.trade)
unfolding lookup text_eq trim read_from parse_i64 split_at split_point env_dec_cents env_i64
    parse_dec_cents signed_cents fraction_cents to_i32 to_positive to_nonneg and_run ◌>>=◌
    Fallible.◌>>=◌ wrap64 tdiv ◌*ℤ◌ ◌+ℤ◌ ◌-ℤ◌ read_trade venue_floor
traded = refl

banded : read_band env ≡ done (ok loaded.band)
unfolding lookup text_eq trim read_from parse_i64 split_at split_point env_dec_cents env_i64
    parse_dec_cents signed_cents fraction_cents to_i32 to_positive to_nonneg and_run ◌>>=◌
    Fallible.◌>>=◌ wrap64 tdiv ◌*ℤ◌ ◌+ℤ◌ ◌-ℤ◌ read_band coherent
banded = refl

timed : read_tte env ≡ done (ok (pos 5_000_000))
unfolding lookup text_eq trim read_from parse_i64 split_at split_point env_dec_cents env_i64
    parse_dec_cents signed_cents fraction_cents to_i32 to_positive to_nonneg and_run ◌>>=◌
    Fallible.◌>>=◌ wrap64 tdiv ◌*ℤ◌ ◌+ℤ◌ ◌-ℤ◌ read_tte
timed = refl

edged : read_edges env ≡ done (ok loaded.edges)
unfolding lookup text_eq trim read_from parse_i64 split_at split_point env_dec_cents env_i64
    parse_dec_cents signed_cents fraction_cents to_i32 to_positive to_nonneg and_run ◌>>=◌
    Fallible.◌>>=◌ wrap64 tdiv ◌*ℤ◌ ◌+ℤ◌ ◌-ℤ◌ read_edges
edged = refl

exited : read_exits env ≡ done (ok loaded.exits)
unfolding lookup text_eq trim read_from parse_i64 split_at split_point env_dec_cents env_i64
    parse_dec_cents signed_cents fraction_cents to_i32 to_positive to_nonneg and_run ◌>>=◌
    Fallible.◌>>=◌ wrap64 tdiv ◌*ℤ◌ ◌+ℤ◌ ◌-ℤ◌ read_exits ticks positive_ticks nonneg_ticks
exited = refl

aged : read_quote_age env ≡ done (ok (pos 50_000))
unfolding lookup text_eq trim read_from parse_i64 split_at split_point env_dec_cents env_i64
    parse_dec_cents signed_cents fraction_cents to_i32 to_positive to_nonneg and_run ◌>>=◌
    Fallible.◌>>=◌ wrap64 tdiv ◌*ℤ◌ ◌+ℤ◌ ◌-ℤ◌ read_quote_age
aged = refl

gated : read_gates env ≡ done (ok loaded.gates)
unfolding lookup text_eq trim read_from parse_i64 split_at split_point env_dec_cents env_i64
    parse_dec_cents signed_cents fraction_cents to_i32 to_positive to_nonneg and_run ◌>>=◌
    Fallible.◌>>=◌ wrap64 tdiv ◌*ℤ◌ ◌+ℤ◌ ◌-ℤ◌ read_gates ticks positive_ticks nonneg_ticks
gated = refl

all_read : from_lookup decimals env ≡ done (ok loaded)
unfolding lookup text_eq trim read_from parse_i64 split_at split_point env_dec_cents env_i64
    parse_dec_cents signed_cents fraction_cents to_i32 to_positive to_nonneg and_run ◌>>=◌
    Fallible.◌>>=◌ wrap64 tdiv ◌*ℤ◌ ◌+ℤ◌ ◌-ℤ◌ from_lookup env_bool env_f64
all_read = rw (traded, banded, timed, edged, exited, aged, gated) refl

abbrev settings : SignalConfig ℤ
settings = record {
  max_lag_us = pos 250_000;
  min_window_us = pos 250_000;
  max_window_us = pos 2_000_000;
  max_spread_usd = pos 2_000_000;
  min_move_usd = pos 500_000;
  min_abs_ofi = pos 1_000_000;
  min_imbalance = pos 120_000;
  min_total_qty = pos 1;
  min_edge_ticks = pos 5;
  entry_slippage_ticks = pos 0;
  entry_notional_cents = pos 150;
  max_quote_age_us = pos 50_000;
  min_tte_us = pos 5_000_000;
  min_buy_limit = pos 10;
  max_buy_limit = pos 60;
  prob_sigma_floor_usd = pos 2_000_000;
  prob_sigma_scale = pos 1_500_000;
  prob_floor = pos 20_000;
  prob_ceil = pos 1_000_000;
  max_samples = 128;
  use_implied_sigma = true;
}

abbrev engine : SignalEngine ℤ
engine = Signal.new decimals settings

started : new_core decimals loaded ≡ done (ok (engine, core_of loaded))
unfolding new_core signal_config to_price checked ◌>>=◌
started = refl

from_lookup-IsLoaded_example : IsLoaded decimals loaded
from_lookup-IsLoaded_example = from_lookup-IsLoaded decimals env loaded (refl, refl) all_read

abbrev empty_quote : Quote
empty_quote = record {
  bid = none;
  ask = none;
  ask_depth = empty_depth;
  tick = pos 1;
  ts_us = pos 0;
}

abbrev some_market : MarketContext
some_market = record {
  slug = codes "m";
  condition_id = codes "c";
  yes_token = codes "y";
  no_token = codes "n";
  end_ts = pos 900;
  slug_ts = pos 0;
}

started_engine-Returns_example :
    Returns
      (decide_latest decimals engine some_market empty_quote empty_quote (pos 5) (pos 9_000_000))
started_engine-Returns_example =
    started_engine-Returns decimals env loaded engine (core_of loaded) (refl, refl) all_read started
      engine (Reach.stop engine) decimals-IsF64 some_market empty_quote empty_quote (pos 5)
      (pos 9_000_000)

-- A file with a comment, a quoted value and a variable that is already set.
abbrev file : Text
file = codes "# keys\nA = \"x y\"\n\nB=2\r\nno equals\nC='3'"

abbrev before : Map Text
before = (codes "B", codes "1") ∷ []

abbrev after : Map Text
after = (codes "B", codes "1") ∷ (codes "A", codes "x y") ∷ (codes "C", codes "3") ∷ []

file_loaded : load_env_text before file ≡ done (after, 2)
unfolding load_env_text load_lines load_line set_entry split_once lines lookup insert text_eq trim
    and_run
file_loaded = refl

load_env_text-Extends_example :
    ((k v : Text) → lookup k before ≡ some v → lookup k after ≡ some v)
    × (length after ≡ length before + 2)
load_env_text-Extends_example = load_env_text-Extends before file after 2 file_loaded
