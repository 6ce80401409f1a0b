-- ===== src/Runtime.antt =====
-- runtime.rs: the core that joins the market state, the inventory and the signal. Here are its state,
-- the moving average of the round trips and the gates before an entry; Runtime/Exits has the exits
-- and Runtime/Outcomes what a submit's outcome does to the inventory.
pub mod Gates
pub mod Engine
pub mod Entry
pub mod Exits
pub mod Intake
pub mod Outcomes
mod Tests
use polyrust.Prelude.{◌&&◌, not, Bool, Option, none, some, and_then, if◌then◌else◌}
use polyrust.Prelude.Int.{ℤ, pos, ltb_ℤ, leb_ℤ, eqb_ℤ, min_ℤ, ediv, tdiv, ◌+ℤ◌}
use polyrust.Prelude.Words.{
  wrap32, clamp32, add64, sub64, sub32, saturating_add, saturating_mul, i32_max,
}
use polyrust.Prelude.Map.{Map}
use polyrust.Types.{PriceTick}
use polyrust.Types.OutcomeSide.{yes_side, no_side}
use polyrust.Inventory.{Inventory, has_entry_exposure_or_pending}
use polyrust.State.{
  RuntimeState, Quote, MarketContext, is_none, quote_history_oldest_since, quote_for_token,
  quote_for_side,
}
use polyrust.Signal.{BuyIntent}

pub record BuySubmitPolicy : Type 0 where
  pub target_maker_cents : ℤ
  pub min_size_taker_units : ℤ
  pub min_maker_cents : ℤ
  pub max_overrun_cents : ℤ
  pub max_overrun_bps : ℤ

pub record ExitTracker : Type 0 where
  pub entry_price : PriceTick
  pub entry_bid : PriceTick
  pub peak_bid : PriceTick
  pub fill_ts_us : ℤ

pub record EntryGateConfig : Type 0 where
  pub rtt_ceiling_us : ℤ
  pub poly_drift_window_us : ℤ
  pub poly_drift_block_up_ticks : ℤ
  pub poly_drift_block_down_ticks : ℤ
  pub poly_drift_safety_bps : ℤ
  pub poly_drift_min_clean_edge_ticks : ℤ

-- `RuntimeCore`, but for its signal engine.
pub record RuntimeCore : Type 0 where
  pub state : RuntimeState
  pub inventory : Inventory
  pub buy_policy : BuySubmitPolicy
  pub sell_slippage_ticks : ℤ
  pub exit_drop_ticks : ℤ
  pub exit_arm_ticks : ℤ
  pub exit_stop_ticks : ℤ
  pub exit_edge_ticks : ℤ
  pub exit_hold_us : ℤ
  pub exit_trackers : Map ExitTracker
  pub entry_gates : EntryGateConfig
  pub rtt_ewma_us : ℤ

-- The body of `record_rtt` on the average: `>> 3` divides by eight, downwards.
unfoldable pub next_ewma : ℤ → ℤ → ℤ
next_ewma ewma rtt_us =
    if leb_ℤ rtt_us (pos 0)
    then ewma
    else if eqb_ℤ ewma (pos 0)
    then rtt_us
    else saturating_add ewma (ediv (sub64 rtt_us ewma) 8)

abbrev pub record_rtt : RuntimeCore → ℤ → RuntimeCore
record_rtt c rtt_us = record c { rtt_ewma_us = next_ewma c.rtt_ewma_us rtt_us }

-- `drift_ticks.abs()`, which wraps at i32::MIN.
abbrev pub abs32 : ℤ → ℤ
abs32 d = if ltb_ℤ d (pos 0) then sub32 (pos 0) d else d

pub data BlockReason : Type 0 where
  rtt_ewma_high poly_drift_up poly_drift_down edge_insufficient_for_drift : BlockReason

unfoldable pub rtt_gate : EntryGateConfig → ℤ → Bool
rtt_gate g ewma =
    ltb_ℤ (pos 0) g.rtt_ceiling_us && ltb_ℤ (pos 0) ewma && ltb_ℤ g.rtt_ceiling_us ewma

unfoldable pub drift_up_gate : EntryGateConfig → ℤ → Bool
drift_up_gate g drift =
    ltb_ℤ (pos 0) g.poly_drift_block_up_ticks && leb_ℤ g.poly_drift_block_up_ticks drift

unfoldable pub drift_down_gate : EntryGateConfig → ℤ → Bool
drift_down_gate g drift =
    ltb_ℤ (pos 0) g.poly_drift_block_down_ticks
    && leb_ℤ drift (sub32 (pos 0) g.poly_drift_block_down_ticks)

-- The ticks that the drift of the window moves in one round trip, rounded up.
unfoldable pub required_drift : EntryGateConfig → ℤ → ℤ → ℤ → ℤ
required_drift g ewma drift dt_us =
    let numer = saturating_mul (saturating_mul (abs32 drift) ewma) g.poly_drift_safety_bps in
    let denom = saturating_mul dt_us (pos 10_000) in
    wrap32 (min_ℤ (tdiv (sub64 (add64 numer denom) (pos 1)) denom) i32_max)

-- `denom > 0` where `dt_us > 0`.
unfoldable pub edge_gate : EntryGateConfig → ℤ → ℤ → ℤ → ℤ → Bool
edge_gate g ewma edge_ticks drift dt_us =
    ltb_ℤ (pos 0) g.poly_drift_safety_bps
    && ltb_ℤ (pos 0) ewma
    && ltb_ℤ (pos 0) dt_us
    && ltb_ℤ (pos 0) (saturating_mul dt_us (pos 10_000))
    && ltb_ℤ edge_ticks
        (clamp32 (required_drift g ewma drift dt_us +ℤ g.poly_drift_min_clean_edge_ticks))

-- The gates from the drift on.
unfoldable pub drift_gates : EntryGateConfig → ℤ → ℤ → ℤ → ℤ → Option BlockReason
drift_gates g ewma edge_ticks drift dt_us =
    if drift_up_gate g drift
    then some BlockReason.poly_drift_up
    else if drift_down_gate g drift
    then some BlockReason.poly_drift_down
    else if edge_gate g ewma edge_ticks drift dt_us
    then some BlockReason.edge_insufficient_for_drift
    else none

-- The quotes that the drift is measured between: the oldest sample of the window, and now.
abbrev pub drift_of : RuntimeCore → BuyIntent → ℤ → Option (ℤ × ℤ)
drift_of c intent now =
    let cutoff_us = sub64 now c.entry_gates.poly_drift_window_us in
    and_then (quote_history_oldest_since c.state intent.token cutoff_us) (λ past.
      and_then past.ask_ticks (λ past_ask. and_then (quote_for_token c.state intent.token) (λ quote.
        and_then quote.ask
          (λ current_ask. some (sub32 current_ask past_ask, sub64 now past.ts_us)))))

unfoldable pub entry_gate_block : RuntimeCore → BuyIntent → ℤ → Option BlockReason
entry_gate_block c intent now =
    let g = c.entry_gates in
    if rtt_gate g c.rtt_ewma_us
    then some BlockReason.rtt_ewma_high
    else if leb_ℤ g.poly_drift_window_us (pos 0)
    then none
    else and_then (drift_of c intent now)
        (λ d. drift_gates g c.rtt_ewma_us intent.edge_ticks d.0 d.1)

-- `on_binance_sample` from the market and the two quotes on. The intent that the signal engine makes
-- of the sample and them is an argument.
unfoldable pub intent_unless_exposed : Inventory → Option BuyIntent → Option BuyIntent
intent_unless_exposed inv none = none
intent_unless_exposed inv (some intent) =
    if has_entry_exposure_or_pending inv intent.token then none else some intent

unfoldable pub on_sample :
    RuntimeState → Inventory → (MarketContext → Quote → Quote → Option BuyIntent) → Option BuyIntent
on_sample s inv engine =
    if not s.trading_active
    then none
    else and_then s.market (λ market. and_then (quote_for_side s yes_side) (λ yes_quote.
      and_then (quote_for_side s no_side)
        (λ no_quote. intent_unless_exposed inv (engine market yes_quote no_quote))))

-- `RuntimeCore::on_binance_sample`.
unfoldable pub on_binance_sample :
    RuntimeCore → (MarketContext → Quote → Quote → Option BuyIntent) → ℤ → Option BuyIntent
on_binance_sample c engine now =
    and_then (on_sample c.state c.inventory engine)
      (λ intent. if is_none (entry_gate_block c intent now) then some intent else none)
