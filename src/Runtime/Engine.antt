-- ===== src/Runtime/Engine.antt =====
-- runtime.rs with the signal engine of the core: `on_binance_sample` pushes every sample, and
-- `plan_exits` asks the engine for the fair value of a held token and whether the flow opposes it.
pub mod Sampled
use polyrust.Prelude.{
  ◌≡◌, ◌≢◌, refl, true, false, not, ◌&&◌, Bool, Option, none, some, List, and_then, if◌then◌else◌,
  arith,
}
use polyrust.Prelude.Int.{ℤ, pos, leb_ℤ, ◌<ℤ◌}
use polyrust.Prelude.Words.{saturating_sub, saturating_mul}
use polyrust.Prelude.Result.{Run, done, panic, Fallible}
use polyrust.Prelude.Fallible.{◌>>=◌, and_run, bind_some}
use polyrust.Prelude.Float.{F64}
use polyrust.Types.{OutcomeSide, TokenId, TsUs}
use polyrust.Types.OutcomeSide.{yes_side, no_side}
use polyrust.Inventory.{position, has_entry_exposure_or_pending, owned_atoms}
use polyrust.State.{RuntimeState, MarketContext, Quote, quote_for_side, is_none}
use polyrust.Signal.{SignalEngine, BinanceSample, BuyIntent, push}
use polyrust.Signal.Model.{implied_p_yes_for}
use polyrust.Signal.Decide.{on_sample, fair_ticks_for_side, opposes_side}
use polyrust.Runtime.{RuntimeCore, entry_gate_block}
use polyrust.Runtime.Exits.{SignalView, ExitDecision, plan_exits, bid_of}

-- The market and its quotes, if samples are acted on.
unfoldable pub trading_view : RuntimeState → Option (MarketContext × Quote × Quote)
trading_view s =
    if not s.trading_active
    then none
    else and_then s.market (λ market. and_then (quote_for_side s yes_side) (λ yes_quote.
      and_then (quote_for_side s no_side) (λ no_quote. some (market, yes_quote, no_quote))))

-- An intent that is neither exposed nor gated.
unfoldable pub admit_intent : RuntimeCore → ℤ → BuyIntent → Fallible BuyIntent
admit_intent c now intent =
    if has_entry_exposure_or_pending c.inventory intent.token
    then done none
    else if is_none (entry_gate_block c intent now)
    then done (some intent)
    else done none

module _ (f : F64) where
  unfoldable pub feed_engine :
      SignalEngine f.Num
      → RuntimeState
      → BinanceSample f.Num
      → TsUs
      → ℤ
      → SignalEngine f.Num × Fallible BuyIntent
  feed_engine e s sample now tte_us = elim (trading_view s) [
    | none ↦ ((push f e sample).0, done none)
    | some view ↦ on_sample f e sample view.0 view.1 view.2 now tte_us
  ]

  unfoldable pub core_on_sample :
      SignalEngine f.Num
      → RuntimeCore
      → BinanceSample f.Num
      → TsUs
      → ℤ
      → SignalEngine f.Num × Fallible BuyIntent
  core_on_sample e c sample now tte_us =
      let (e', answer) = feed_engine e c.state sample now tte_us in
      (e', answer >>= admit_intent c now)

  unfoldable pub implied_hint : RuntimeState → Fallible f.Num
  implied_hint s = elim (quote_for_side s yes_side) [
    | none ↦ done none
    | some y ↦ elim (quote_for_side s no_side) [
      | none ↦ done none
      | some n ↦ implied_p_yes_for f y n
    ]
  ]

  -- The turn of the loop for a token comes to the engine.
  abbrev asks_engine : RuntimeCore → TokenId → Bool
  asks_engine c token = elim (position c.inventory token) [
    | none ↦ false
    | some p ↦ not (leb_ℤ p.sellable (pos 0)) && not (is_none (bid_of c.state token))
  ]

  unfoldable pub asked_fair :
      SignalEngine f.Num
      → RuntimeCore
      → MarketContext
      → ℤ
      → Option f.Num
      → TokenId
      → OutcomeSide
      → Fallible ℤ
  asked_fair e c market now hint token side =
      let tte_us = saturating_sub (saturating_mul market.end_ts (pos 1_000_000)) now in
      if asks_engine c token then fair_ticks_for_side f e side now tte_us hint else done none

  abbrev view_of : SignalEngine f.Num → ℤ → Option ℤ → Option ℤ → SignalView
  view_of e now fair_yes fair_no = record {
    fair_ticks_for_side = λ side _. elim side [ yes_side ↦ fair_yes | no_side ↦ fair_no ];
    opposes_side = λ side. opposes_side f e side now;
  }

  -- A panic of the engine ends the process.
  unfoldable pub core_plan_exits :
      SignalEngine f.Num → RuntimeCore → ℤ → Run (RuntimeCore × List ExitDecision)
  core_plan_exits e c now = elim c.state.market [
    | none ↦ done (plan_exits c (view_of e now none none) now)
    | some market ↦ and_run (implied_hint c.state) (λ hint.
        and_run (asked_fair e c market now hint market.yes_token yes_side) (λ fair_yes.
          and_run (asked_fair e c market now hint market.no_token no_side)
            (λ fair_no. done (plan_exits c (view_of e now fair_yes fair_no) now))))
  ]
