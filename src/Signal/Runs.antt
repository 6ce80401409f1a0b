-- ===== src/Signal/Runs.antt =====
-- A run of the engine of signal.rs: two samples, and the BUY that the second one calls for.
use polyrust.Prelude.{◌≡◌, refl, true, false, none, some, [], ◌∷◌}
use polyrust.Prelude.Int.{ℤ, pos, ◌+ℤ◌, ◌-ℤ◌, ◌*ℤ◌, tdiv, ediv}
use polyrust.Prelude.Words.{wrap64, wrap32, clamp32}
use polyrust.Prelude.Text.{codes}
use polyrust.Prelude.Result.{done}
use polyrust.Prelude.Fallible.{and_run, ◌>>=◌, ◌>>◌}
use polyrust.Prelude.Float.{clamp, sum_from}
use polyrust.Prelude.Float.Decimals.{decimals}
use polyrust.Types.{checked}
use polyrust.Types.OutcomeSide.{yes_side}
use polyrust.State.{MarketContext, Quote, pop_to_cap, buy_cutoff_for_cents}
use polyrust.State.Depth.{empty_depth, cutoff_for_buy_cents, cutoff_from}
use polyrust.Signal.{
  BuyIntent, SignalConfig, SignalEngine, SignalPoint, BinanceSample, new, set_strike, push_received,
  latest_window, sample_since, malformed_sample, thin_sample, wide_sample, late_sample, compute_ofi,
  ofi_sum_since, refuses_sample, point_of, keep_sample,
}
use polyrust.Signal.Model.{
  prob_yes, prob_of_drift, implied_sigma, prob_with, prob_at, realized_eff, realized_sigma_since,
  cut_phi,
}
use polyrust.Signal.Normal.{phi, phi_tail}
use polyrust.Signal.Decide.{
  decide_latest, on_sample, entry_side, confirms, entry_prices, offset_price, fresh_quote,
  limit_in_band, live_spread_ticks, side_percent, edge_of, hint_of,
}
use polyrust.Signal.Samples.{Step, Reach}

abbrev pub config : SignalConfig ℤ
config = record {
  max_lag_us = pos 250_000;
  min_window_us = pos 1_000;
  max_window_us = pos 2_000_000;
  max_spread_usd = pos 2_000_000;
  min_move_usd = pos 500_000;
  min_abs_ofi = pos 1_000_000;
  min_imbalance = pos 120_000;
  min_total_qty = pos 1;
  min_edge_ticks = pos 5;
  entry_slippage_ticks = pos 1;
  entry_notional_cents = pos 100;
  max_quote_age_us = pos 50_000;
  min_tte_us = pos 1_000_000;
  min_buy_limit = pos 5;
  max_buy_limit = pos 60;
  prob_sigma_floor_usd = pos 2_000_000;
  prob_sigma_scale = pos 1_500_000;
  prob_floor = pos 20_000;
  prob_ceil = pos 980_000;
  max_samples = 8;
  use_implied_sigma = false;
}

abbrev pub sample_at : ℤ → ℤ → ℤ → ℤ → BinanceSample ℤ
sample_at ts id price bid_qty = record {
  ts_us = ts;
  update_id = id;
  bid = price -ℤ pos 100_000;
  ask = price +ℤ pos 100_000;
  bid_qty = bid_qty;
  ask_qty = pos 1_000_000;
  microprice = price;
}

abbrev pub first : BinanceSample ℤ
first = sample_at (pos 1_000_000) (pos 7) (pos 100_000_000) (pos 2_000_000)

abbrev pub second : BinanceSample ℤ
second = sample_at (pos 1_500_000) (pos 8) (pos 103_000_000) (pos 5_000_000)

abbrev pub struck : SignalEngine ℤ
struck = set_strike decimals (new decimals config) (pos 100_000_000) true

abbrev pub once : SignalEngine ℤ
once = (push_received decimals struck first (pos 1_000_100)).0

abbrev pub twice : SignalEngine ℤ
twice = (push_received decimals once second (pos 1_500_100)).0

abbrev pub some_market : MarketContext
some_market = record {
  slug = codes "m";
  condition_id = codes "c";
  yes_token = codes "y";
  no_token = codes "n";
  end_ts = pos 900;
  slug_ts = pos 0;
}

abbrev pub quote_at : ℤ → ℤ → Quote
quote_at bid ask = record {
  bid = some bid;
  ask = some ask;
  ask_depth = empty_depth;
  tick = pos 1;
  ts_us = pos 1_480_000;
}

abbrev pub first_point : SignalPoint ℤ
first_point = record {
  ts_us = pos 1_000_000;
  recv_ts_us = pos 1_000_100;
  microprice = pos 100_000_000;
  ofi = pos 0;
  imbalance = pos 333_333;
}

abbrev pub second_point : SignalPoint ℤ
second_point = record {
  ts_us = pos 1_500_000;
  recv_ts_us = pos 1_500_100;
  microprice = pos 103_000_000;
  ofi = pos 6_000_000;
  imbalance = pos 666_666;
}

abbrev pub bought : BuyIntent
bought = record {
  side = yes_side;
  token = codes "y";
  limit = pos 41;
  edge_price = pos 41;
  edge_ticks = pos 14;
}

-- The engine after each sample.
abbrev pub engine_once : SignalEngine ℤ
engine_once = record {
  cfg = config;
  strike = pos 100_000_000;
  samples = first_point ∷ [];
  last_update_id = pos 7;
  last_bid = pos 99_900_000;
  last_ask = pos 100_100_000;
  last_bid_qty = pos 2_000_000;
  last_ask_qty = pos 1_000_000;
}

abbrev pub engine_twice : SignalEngine ℤ
engine_twice = record engine_once {
  samples = first_point ∷ second_point ∷ [];
  last_update_id = pos 8;
  last_bid = pos 102_900_000;
  last_ask = pos 103_100_000;
  last_bid_qty = pos 5_000_000;
}

pub twice_reached : Reach decimals (new decimals config) twice
twice_reached =
    Reach.next (new decimals config) struck twice
      (Step.strikes (new decimals config) (pos 100_000_000) true)
      (Reach.next struck once twice (Step.pushes struck first (pos 1_000_100))
        (Reach.next once twice twice (Step.pushes once second (pos 1_500_100)) (Reach.stop twice)))

pub kept : keep_sample decimals engine_once second (pos 1_500_100) ≡ engine_twice
unfolding keep_sample pop_to_cap point_of compute_ofi ◌+ℤ◌ tdiv ◌-ℤ◌ ◌*ℤ◌
kept = refl

pub taken : refuses_sample decimals engine_once second ≡ false
unfolding refuses_sample malformed_sample thin_sample wide_sample late_sample tdiv ◌*ℤ◌ ◌-ℤ◌ ◌+ℤ◌
taken = refl

pub windowed : latest_window decimals engine_twice ≡ some (second_point, first_point)
unfolding latest_window sample_since wrap64 ◌-ℤ◌
windowed = refl

pub fair :
    prob_yes decimals engine_twice (pos 103_000_000) (pos 1_500_000) (pos 10_000_000) none
    ≡ done (some (pos 559_225))
unfolding prob_yes prob_of_drift and_run implied_sigma prob_with prob_at realized_eff
    realized_sigma_since wrap64 cut_phi clamp phi phi_tail tdiv ◌*ℤ◌ ◌-ℤ◌ ◌+ℤ◌
fair = refl

pub chosen : entry_side decimals engine_twice ≡ done (some (yes_side, second_point))
unfolding entry_side latest_window sample_since wrap64 ◌-ℤ◌ ◌+ℤ◌ ◌*ℤ◌ tdiv confirms ofi_sum_since
    sum_from ◌>>=◌ ◌>>◌
chosen = refl

pub priced :
    entry_prices decimals engine_twice (quote_at (pos 38) (pos 40)) (pos 1_500_100)
    ≡ done (some (pos 41, pos 41))
unfolding entry_prices offset_price fresh_quote limit_in_band checked buy_cutoff_for_cents
    cutoff_for_buy_cents cutoff_from wrap64 wrap32 ◌-ℤ◌ ◌+ℤ◌ ◌*ℤ◌ tdiv ◌>>=◌ ◌>>◌
priced = refl

pub decided :
    decide_latest decimals engine_twice some_market
      (quote_at (pos 38) (pos 40))
      (quote_at (pos 58) (pos 60))
      (pos 1_500_100)
      (pos 10_000_000)
    ≡ done (some bought)
unfolding decide_latest hint_of edge_of side_percent live_spread_ticks wrap32 clamp32 and_run ediv
    ◌-ℤ◌ ◌+ℤ◌ ◌*ℤ◌ tdiv ◌>>=◌ ◌>>◌
decided = rw (chosen, priced, fair) refl

pub sampled :
    (on_sample decimals engine_once second some_market
      (quote_at (pos 38) (pos 40))
      (quote_at (pos 58) (pos 60))
      (pos 1_500_100)
      (pos 10_000_000)).1
    ≡ done (some bought)
unfolding on_sample push_received wrap64 ◌-ℤ◌
sampled = rw (taken, kept, decided) refl
