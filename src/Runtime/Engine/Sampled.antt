-- ===== src/Runtime/Engine/Sampled.antt =====
-- What an entry of runtime.rs has passed, from the Binance sample to the gates of the core.
use mathlib.Core.Path.{subst}
use polyrust.Prelude.{◌≡◌, true, false, inl, inr, none, some, arith, Option-cases}
use polyrust.Prelude.Int.{ℤ, pos, ◌<ℤ◌}
use polyrust.Prelude.Result.{done}
use polyrust.Prelude.Fallible.{bind_some}
use polyrust.Prelude.Float.{F64}
use polyrust.Types.{TsUs}
use polyrust.Types.OutcomeSide.{yes_side, no_side}
use polyrust.Inventory.{owned_atoms, has_entry_exposure_or_pending}
use polyrust.State.{RuntimeState, MarketContext, Quote, quote_for_side}
use polyrust.Signal.{SignalEngine, BinanceSample, BuyIntent, keep_sample, refuses_sample}
use polyrust.Signal.Decide.{on_sample}
use polyrust.Signal.Intents.{IsBacked, sampled_intent-IsBacked}
use polyrust.Runtime.{RuntimeCore, entry_gate_block}
use polyrust.Inventory.Claims.{entry_allowed_only}
use polyrust.Runtime.Engine.{trading_view, admit_intent, feed_engine, core_on_sample}

trading_view-some :
    (s : RuntimeState) (market : MarketContext) (y n : Quote)
    → trading_view s ≡ some (market, y, n)
    → (s.trading_active ≡ true)
      × (s.market ≡ some market)
      × (quote_for_side s yes_side ≡ some y)
      × (quote_for_side s no_side ≡ some n)
unfolding trading_view
trading_view-some s market y n e = (ground arith, ground arith, ground arith, ground arith)

admit_intent-some :
    (c : RuntimeCore) (now : ℤ) (answer intent : BuyIntent)
    → admit_intent c now answer ≡ done (some intent)
    → (answer ≡ intent)
      × (has_entry_exposure_or_pending c.inventory intent.token ≡ false)
      × (entry_gate_block c intent now ≡ none)
unfolding admit_intent
admit_intent-some c now answer intent e = (ground arith, ground arith, ground arith)

module _ (f : F64) where
  fed_intent :
      (e : SignalEngine f.Num) (s : RuntimeState) (sample : BinanceSample f.Num) (now : TsUs)
      (tte_us : ℤ) (intent : BuyIntent)
      → (feed_engine f e s sample now tte_us).1 ≡ done (some intent)
      → (market : MarketContext) × (y : Quote) × (n : Quote) × (trading_view s
          ≡ some (market, y, n))
        × ((on_sample f e sample market y n now tte_us).1 ≡ done (some intent))
  unfolding feed_engine
  fed_intent e s sample now tte_us intent h = elim (Option-cases (trading_view s)) [
    | inl idle ↦ absurd (ground arith)
    | inr (view, active) ↦ (view.0, view.1, view.2, active, ground (arith, h))
  ]

  -- An entry that the core returns for a sample is that of the market and quotes held: the engine
  -- takes the sample in and has a strike, the time left is enough, the token is that of its side,
  -- the quote is fresh, the limit is the covering ask plus the slippage within the band, the edge
  -- is that of the model and no less than the least edge, zero or the spread; trading is active,
  -- the user channel is trusted, less than the sell quantum is owned, and every gate is passed.
  pub core_intent-IsBacked :
      (e : SignalEngine f.Num) (c : RuntimeCore) (sample : BinanceSample f.Num) (now : TsUs)
      (tte_us : ℤ) (intent : BuyIntent)
      → (core_on_sample f e c sample now tte_us).1 ≡ done (some intent)
      → (market : MarketContext) × (y : Quote) × (n : Quote) × (c.state.market ≡ some market)
        × (quote_for_side c.state yes_side ≡ some y)
        × (quote_for_side c.state no_side ≡ some n)
        × IsBacked f (keep_sample f e sample now) market y n now tte_us intent
        × (refuses_sample f e sample ≡ false)
        × (c.state.trading_active ≡ true)
        × (c.inventory.user_wss_trusted ≡ true)
        × (owned_atoms c.inventory intent.token <ℤ pos 10_000)
        × (entry_gate_block c intent now ≡ none)
  unfolding core_on_sample
  core_intent-IsBacked e c sample now tte_us intent h =
      let (answer, fed, admitted) = bind_some _ _ _ h in
      let (same, clear, passed) = admit_intent-some c now answer intent admitted in
      let (market, y, n, active, sampled) =
        fed_intent e c.state sample now tte_us intent
          (subst (λ i. (feed_engine f e c.state sample now tte_us).1 ≡ done (some i)) same fed) in
      let (trading, has_market, has_yes, has_no) = trading_view-some c.state market y n active in
      let (taken, _, backed) =
        sampled_intent-IsBacked f e sample market y n now tte_us intent sampled in
      let (trusted, owned, _) = entry_allowed_only c.inventory intent.token clear in
      (market, y, n, has_market, has_yes, has_no, backed, taken, trading, trusted, owned, passed)
