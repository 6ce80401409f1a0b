-- ===== src/State/Tests.antt =====
-- Runs of state.rs: a book side in the wrong order, a ring, and a quote of a market.
use polyrust.Prelude.{refl, ◌≡◌, Bool, false, none, some, List, [], ◌∷◌}
use polyrust.Prelude.Int.{ℤ, pos, ◌*ℤ◌, ◌+ℤ◌}
use polyrust.Prelude.Text.{codes}
use polyrust.State.{
  RuntimeState, MarketContext, Quote, QuoteRing, QuoteHistorySample, new, set_market,
  update_quote_with_depth,
}
use polyrust.State.Depth.{
  BookLevel, BookDepth, cutoff_for_buy_cents, cutoff_from, empty_depth, from_levels,
}
use polyrust.State.Depth.Ladder.{IsLadder, from_levels-IsLadder}
use polyrust.State.Quotes.{IsTidy, Step, Reach, reached_quotes-IsTidy}

abbrev book : List BookLevel
book =
    record { price = pos 41; size_atoms = pos 5 }
    ∷ record { price = pos 40; size_atoms = pos 7 }
    ∷ record { price = pos 41; size_atoms = pos 6 }
    ∷ []

from_levels-IsLadder_example : IsLadder false (from_levels book false)
from_levels-IsLadder_example = from_levels-IsLadder book false

abbrev sample_at : ℤ → QuoteHistorySample
sample_at ts = record { ts_us = ts; bid_ticks = some (pos 40); ask_ticks = none }

abbrev short_ring : QuoteRing
short_ring = sample_at (pos 1) ∷ sample_at (pos 2) ∷ []

abbrev some_market : MarketContext
some_market = record {
  slug = codes "m";
  condition_id = codes "c";
  yes_token = codes "y";
  no_token = codes "n";
  end_ts = pos 900;
  slug_ts = pos 0;
}

abbrev yes_quote : Quote
yes_quote = record {
  bid = some (pos 40);
  ask = some (pos 42);
  ask_depth = empty_depth;
  tick = pos 1;
  ts_us = pos 7;
}

abbrev quoted : RuntimeState × Bool
quoted =
    update_quote_with_depth (set_market new some_market) (codes "y") (some (pos 40)) (some (pos 42))
      empty_depth (pos 1) (pos 7)

reached_quotes-IsTidy_example : IsTidy quoted.0
reached_quotes-IsTidy_example = reached_quotes-IsTidy quoted.0 (
    Reach.next new (set_market new some_market) quoted.0 (Step.starts new some_market) (
      Reach.next (set_market new some_market) quoted.0 quoted.0
        (Step.quotes (set_market new some_market) (codes "y") (some (pos 40)) (some (pos 42))
          empty_depth (pos 1) (pos 7))
        (Reach.stop quoted.0)))

abbrev asks : BookDepth
asks =
    some (record { price = pos 40; size_atoms = pos 1_000_000 })
    ∷ some (record { price = pos 41; size_atoms = pos 1_000_000 })
    ∷ none
    ∷ none
    ∷ []

reaches_second : cutoff_for_buy_cents asks (pos 80) ≡ some (pos 41)
unfolding cutoff_for_buy_cents cutoff_from ◌*ℤ◌ ◌+ℤ◌
reaches_second = refl

too_dear : cutoff_for_buy_cents asks (pos 82) ≡ none
unfolding cutoff_for_buy_cents cutoff_from ◌*ℤ◌ ◌+ℤ◌
too_dear = refl
