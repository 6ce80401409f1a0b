-- ===== src/Signal.antt =====
-- signal.rs: the engine's configuration and state, and the intake of Binance samples. Signal/Model is
-- the fair value of a market, Signal/Decide the BUY intents and the questions of the exits. Numbers of
-- type f64 are those of an interface, and log lines are left out.
pub mod Normal
pub mod Model
pub mod Decide
pub mod Samples
pub mod Window
pub mod Intents
pub mod Fair
pub mod Total
pub mod Runs
mod Tests
use polyrust.Prelude.{
  ℕ, Bool, true, false, not, ◌&&◌, ◌||◌, Option, none, some, List, [], ◌∷◌, ◌++◌, map, filter, find,
  get_last?, length, leb, ltb, and_then, if◌then◌else◌,
}
use polyrust.Prelude.Int.{ℤ, pos, leb_ℤ, ltb_ℤ, eqb_ℤ}
use polyrust.Prelude.Words.{sub64}
use polyrust.Prelude.Float.{F64, zero_f, sum_from}
use polyrust.Types.{OutcomeSide, TokenId, PriceTick, TsUs}
use polyrust.State.{pop_to_cap}

pub record BuyIntent : Type 0 where
  pub side : OutcomeSide
  pub token : TokenId
  pub limit : PriceTick
  pub edge_price : PriceTick
  pub edge_ticks : ℤ

pub record BinanceSample (Num : Type 0) : Type 0 where
  pub ts_us : TsUs
  pub update_id : ℤ
  pub bid : Num
  pub ask : Num
  pub bid_qty : Num
  pub ask_qty : Num
  pub microprice : Num

pub record SignalConfig (Num : Type 0) : Type 0 where
  pub max_lag_us : ℤ
  pub min_window_us : ℤ
  pub max_window_us : ℤ
  pub max_spread_usd : Num
  pub min_move_usd : Num
  pub min_abs_ofi : Num
  pub min_imbalance : Num
  pub min_total_qty : Num
  pub min_edge_ticks : ℤ
  pub entry_slippage_ticks : ℤ
  pub entry_notional_cents : ℤ
  pub max_quote_age_us : ℤ
  pub min_tte_us : ℤ
  pub min_buy_limit : PriceTick
  pub max_buy_limit : PriceTick
  pub prob_sigma_floor_usd : Num
  pub prob_sigma_scale : Num
  pub prob_floor : Num
  pub prob_ceil : Num
  pub max_samples : ℕ
  pub use_implied_sigma : Bool

pub record SignalPoint (Num : Type 0) : Type 0 where
  pub ts_us : TsUs
  pub recv_ts_us : TsUs
  pub microprice : Num
  pub ofi : Num
  pub imbalance : Num

-- `samples`, oldest first.
pub record SignalEngine (Num : Type 0) : Type 0 where
  pub cfg : SignalConfig Num
  pub strike : Num
  pub samples : List (SignalPoint Num)
  pub last_update_id : ℤ
  pub last_bid : Num
  pub last_ask : Num
  pub last_bid_qty : Num
  pub last_ask_qty : Num

module _ (f : F64) where
  unfoldable pub new : SignalConfig f.Num → SignalEngine f.Num
  new cfg = record {
    cfg = record cfg { max_samples = if leb cfg.max_samples 8 then 8 else cfg.max_samples };
    strike = zero_f f;
    samples = [];
    last_update_id = pos 0;
    last_bid = zero_f f;
    last_ask = zero_f f;
    last_bid_qty = zero_f f;
    last_ask_qty = zero_f f;
  }

  unfoldable pub reset_window_of : SignalEngine f.Num → SignalEngine f.Num
  reset_window_of e = record e {
    samples = [];
    last_update_id = pos 0;
    last_bid = zero_f f;
    last_ask = zero_f f;
    last_bid_qty = zero_f f;
    last_ask_qty = zero_f f;
  }

  unfoldable pub set_strike : SignalEngine f.Num → f.Num → Bool → SignalEngine f.Num
  set_strike e strike reset_window =
      let e' = record e { strike = strike } in if reset_window then reset_window_of e' else e'

  -- The samples that `push_received` refuses, in the order of its tests.
  unfoldable pub malformed_sample : SignalEngine f.Num → BinanceSample f.Num → Bool
  malformed_sample e s =
      not (f.is_finite s.microprice)
      || f.le s.microprice (zero_f f)
      || leb_ℤ s.update_id e.last_update_id
      || f.le s.bid (zero_f f)
      || f.le s.ask (zero_f f)
      || f.lt s.ask s.bid
      || f.le s.bid_qty (zero_f f)
      || f.le s.ask_qty (zero_f f)

  unfoldable pub thin_sample : SignalEngine f.Num → BinanceSample f.Num → Bool
  thin_sample e s =
      let total_qty = f.add s.bid_qty s.ask_qty in
      not (f.is_finite total_qty) || f.lt total_qty e.cfg.min_total_qty

  unfoldable pub wide_sample : SignalEngine f.Num → BinanceSample f.Num → Bool
  wide_sample e s =
      f.lt (zero_f f) e.cfg.max_spread_usd && f.lt e.cfg.max_spread_usd (f.sub s.ask s.bid)

  unfoldable pub late_sample : SignalEngine f.Num → BinanceSample f.Num → Bool
  late_sample e s = elim (get_last? e.samples) [
    | none ↦ false
    | some last ↦ leb_ℤ s.ts_us last.ts_us
  ]

  unfoldable pub refuses_sample : SignalEngine f.Num → BinanceSample f.Num → Bool
  refuses_sample e s = malformed_sample e s || thin_sample e s || wide_sample e s || late_sample e s

  -- The order flow between the last sample and this one.
  unfoldable pub compute_ofi : SignalEngine f.Num → BinanceSample f.Num → f.Num
  compute_ofi e s =
      let zero = zero_f f in
      let bid_flow =
        f.sub (if f.le e.last_bid s.bid then s.bid_qty else zero)
          (if f.le s.bid e.last_bid then e.last_bid_qty else zero) in
      let ask_flow =
        f.sub (if f.le e.last_ask s.ask then e.last_ask_qty else zero)
          (if f.le s.ask e.last_ask then s.ask_qty else zero) in
      elim e.samples [ [] ↦ zero | _ ∷ _ ↦ f.add bid_flow ask_flow ]

  unfoldable pub point_of : SignalEngine f.Num → BinanceSample f.Num → TsUs → SignalPoint f.Num
  point_of e s recv_ts_us = record {
    ts_us = s.ts_us;
    recv_ts_us = recv_ts_us;
    microprice = s.microprice;
    ofi = compute_ofi e s;
    imbalance = f.div (f.sub s.bid_qty s.ask_qty) (f.add s.bid_qty s.ask_qty);
  }

  unfoldable pub keep_sample : SignalEngine f.Num → BinanceSample f.Num → TsUs → SignalEngine f.Num
  keep_sample e s recv_ts_us = record e {
    samples = pop_to_cap e.cfg.max_samples e.samples ++ point_of e s recv_ts_us ∷ [];
    last_update_id = s.update_id;
    last_bid = s.bid;
    last_ask = s.ask;
    last_bid_qty = s.bid_qty;
    last_ask_qty = s.ask_qty;
  }

  unfoldable pub push_received :
      SignalEngine f.Num → BinanceSample f.Num → TsUs → SignalEngine f.Num × Bool
  push_received e s recv_ts_us =
      if refuses_sample e s then (e, false) else (keep_sample e s recv_ts_us, true)

  unfoldable pub push : SignalEngine f.Num → BinanceSample f.Num → SignalEngine f.Num × Bool
  push e s = push_received e s s.ts_us

  unfoldable pub sample_since : SignalEngine f.Num → ℤ → Option (SignalPoint f.Num)
  sample_since e cutoff_us = find (λ s. leb_ℤ cutoff_us s.ts_us) e.samples

  -- The latest sample, and the oldest one that is at most `max_window_us` before it.
  unfoldable pub latest_window : SignalEngine f.Num → Option (SignalPoint f.Num × SignalPoint f.Num)
  latest_window e = and_then (get_last? e.samples) (λ latest.
      and_then (sample_since e (sub64 latest.ts_us e.cfg.max_window_us)) (λ base.
        if eqb_ℤ base.ts_us latest.ts_us
          || ltb_ℤ (sub64 latest.ts_us base.ts_us) e.cfg.min_window_us
        then none
        else some (latest, base)))

  unfoldable pub ofi_sum_since : SignalEngine f.Num → ℤ → f.Num
  ofi_sum_since e cutoff_us =
      sum_from f (zero_f f) (map (λ s. s.ofi) (filter (λ s. leb_ℤ cutoff_us s.ts_us) e.samples))
