-- ===== src/Runtime/Tests/Engine.antt =====
-- A sample that ends in an entry: the engine of Signal/Runs within a core that holds none of the token.
use polyrust.Prelude.{◌≡◌, refl, true, false, none, some, [], ◌∷◌}
use polyrust.Prelude.Int.{pos, ◌<ℤ◌, ◌-ℤ◌}
use polyrust.Prelude.Words.{wrap64}
use polyrust.Prelude.Text.{codes, text_eq}
use polyrust.Prelude.Map.{lookup, any_value}
use polyrust.Prelude.Result.{done}
use polyrust.Prelude.Fallible.{◌>>=◌}
use polyrust.Prelude.Float.Decimals.{decimals}
use polyrust.Types.OutcomeSide.{yes_side, no_side}
use polyrust.Inventory.{owned_atoms, has_entry_exposure_or_pending}
use polyrust.State.{
  MarketContext, Quote, quote_for_side, token_for_side, quote_history_oldest_since,
}
use polyrust.Signal.{keep_sample, refuses_sample}
use polyrust.Signal.Intents.{IsBacked}
use polyrust.Signal.Runs.{engine_once, second, some_market, quote_at, bought, sampled}
use polyrust.Runtime.{RuntimeCore, entry_gate_block, rtt_gate}
use polyrust.Runtime.Engine.{core_on_sample, feed_engine, trading_view, admit_intent}
use polyrust.Runtime.Engine.Sampled.{core_intent-IsBacked}
use polyrust.Runtime.Tests.{core_with}

abbrev trading : RuntimeCore
trading = record (core_with (pos 0)) {
  state = record {
    market = some some_market;
    quotes = (codes "y", quote_at (pos 38) (pos 40)) ∷ (codes "n", quote_at (pos 58) (pos 60)) ∷ [];
    quote_history = [];
    trading_active = true;
  };
}

fed :
    (feed_engine decimals engine_once trading.state second (pos 1_500_100) (pos 10_000_000)).1
    ≡ done (some bought)
unfolding feed_engine trading_view quote_for_side token_for_side lookup text_eq
fed = sampled

admitted : admit_intent trading (pos 1_500_100) bought ≡ done (some bought)
unfolding admit_intent has_entry_exposure_or_pending owned_atoms any_value lookup text_eq
    entry_gate_block rtt_gate quote_history_oldest_since wrap64 ◌-ℤ◌
admitted = refl

entered :
    (core_on_sample decimals engine_once trading second (pos 1_500_100) (pos 10_000_000)).1
    ≡ done (some bought)
unfolding core_on_sample ◌>>=◌
entered = rw (fed, admitted) refl

core_intent-IsBacked_example :
    (market : MarketContext) × (y : Quote) × (n : Quote) × (trading.state.market ≡ some market)
    × (quote_for_side trading.state yes_side ≡ some y)
    × (quote_for_side trading.state no_side ≡ some n)
    × IsBacked decimals
        (keep_sample decimals engine_once second (pos 1_500_100))
        market
        y
        n
        (pos 1_500_100)
        (pos 10_000_000)
        bought
    × (refuses_sample decimals engine_once second ≡ false)
    × (true ≡ true)
    × (true ≡ true)
    × (owned_atoms trading.inventory bought.token <ℤ pos 10_000)
    × (entry_gate_block trading bought (pos 1_500_100) ≡ none)
core_intent-IsBacked_example =
    core_intent-IsBacked decimals engine_once trading second (pos 1_500_100) (pos 10_000_000) bought
      entered
