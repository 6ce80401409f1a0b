-- ===== src/Market/Tests.antt =====
-- Runs of market.rs: a side of a book, and a resolution of the active market.
use polyrust.Prelude.{◌≡◌, false, none, List, [], ◌∷◌}
use polyrust.Prelude.Int.{pos}
use polyrust.Prelude.Text.{codes}
use polyrust.State.{RuntimeState, new, set_market}
use polyrust.State.Depth.{BookLevel, best_price, from_levels}
use polyrust.Market.{best_of}
use polyrust.Market.Best.{best_price-from_levels}

abbrev asks : List BookLevel
asks =
    record { price = pos 43; size_atoms = pos 5 }
    ∷ record { price = pos 40; size_atoms = pos 0 }
    ∷ record { price = pos 41; size_atoms = pos 6 }
    ∷ []

best_price-from_levels_example : best_price (from_levels asks false) ≡ best_of false none asks
best_price-from_levels_example = best_price-from_levels asks false

abbrev active : RuntimeState
active = set_market new (record {
  slug = codes "m";
  condition_id = codes "c";
  yes_token = codes "y";
  no_token = codes "n";
  end_ts = pos 900;
  slug_ts = pos 0;
})
