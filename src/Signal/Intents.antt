-- ===== src/Signal/Intents.antt =====
-- What an intent of signal.rs has passed, `decide_latest`.
use mathlib.Core.Path.{subst}
use polyrust.Prelude.{◌≡◌, refl, Bool-cases, inl, inr, false, Option, none, some, arith}
use polyrust.Prelude.Int.{ℤ, pos, ◌+ℤ◌, ◌-ℤ◌, ◌≤ℤ◌, ◌<ℤ◌, ltb_ℤ, tdiv, max_ℤ}
use polyrust.Prelude.Words.{sub64, add32, clamp32}
use polyrust.Prelude.Result.{done}
use polyrust.Prelude.Fallible.{bind_some, require_some, and_run_done}
use polyrust.Prelude.Float.{F64, zero_f}
use polyrust.Types.{OutcomeSide, PriceTick, TsUs, checked}
use polyrust.State.{MarketContext, Quote, token_of, buy_cutoff_for_cents}
use polyrust.Signal.{
  BuyIntent, BinanceSample, SignalEngine, SignalPoint, latest_window, push_received, keep_sample,
  refuses_sample,
}
use polyrust.Signal.Model.{prob_yes}
use polyrust.Signal.Decide.{
  decide_latest, entry_side, entry_prices, edge_of, fresh_quote, limit_in_band, live_spread_ticks,
  offset_price, quote_of, on_sample,
}

offset_price_lem :
    (p t q : ℤ) → offset_price p t ≡ some q → (q ≡ p +ℤ t) × (pos 1 ≤ℤ q) × (q ≤ℤ pos 99)
unfolding offset_price checked
offset_price_lem p t q e = ground arith

-- The edge is at least the spread between the price and the bid.
abbrev pub CoversSpread : Option PriceTick → PriceTick → ℤ → Type 0
CoversSpread bid edge_price edge =
    (b : PriceTick) → bid ≡ some b → clamp32 (edge_price -ℤ b) ≤ℤ edge

live_spread-CoversSpread :
    (bid : Option PriceTick) (edge_price : PriceTick) (floor edge : ℤ)
    → ltb_ℤ edge (max_ℤ floor (live_spread_ticks bid edge_price)) ≡ false
    → (floor ≤ℤ edge) × (pos 0 ≤ℤ edge) × CoversSpread bid edge_price edge
unfolding live_spread_ticks
live_spread-CoversSpread none edge_price floor edge h =
    (ground arith, ground arith, λ b e. absurd cc)
live_spread-CoversSpread (some bid) edge_price floor edge h =
    (ground arith, ground arith, λ b e. ground arith)

some_injective : (a b : BuyIntent) → done (some a) ≡ done (some b) → a ≡ b
some_injective a b e = cc

module _ (f : F64) (e : SignalEngine f.Num) where
  -- Prices of an entry at a quote: both lie a fixed way above the price that covers the notional.
  abbrev pub PricedAt : Quote → TsUs → PriceTick → PriceTick → Type 0
  PricedAt quote now limit edge_price =
      (ask : PriceTick) × (buy_cutoff_for_cents quote e.cfg.entry_notional_cents ≡ some ask)
      × (limit ≡ ask +ℤ e.cfg.entry_slippage_ticks)
      × (edge_price ≡ ask +ℤ tdiv (add32 e.cfg.entry_slippage_ticks (pos 1)) (pos 2))
      × (pos 0 ≤ℤ sub64 now quote.ts_us)
      × (sub64 now quote.ts_us ≤ℤ e.cfg.max_quote_age_us)
      × (e.cfg.min_buy_limit ≤ℤ limit)
      × (limit ≤ℤ e.cfg.max_buy_limit)

  entry_prices-PricedAt :
      (quote : Quote) (now : TsUs) (limit edge_price : PriceTick)
      → entry_prices f e quote now ≡ done (some (limit, edge_price))
      → PricedAt quote now limit edge_price
  unfolding entry_prices fresh_quote limit_in_band
  entry_prices-PricedAt quote now limit edge_price h =
      let (ask, found, h1) = bind_some _ _ _ h in
      let (fresh, h2) = require_some _ _ _ h1 in
      let (l, l_at, h3) = bind_some _ _ _ h2 in
      let (band, h4) = require_some _ _ _ h3 in
      let (p, p_at, h5) = bind_some _ _ _ h4 in
      let (l_is, _, _) = offset_price_lem ask e.cfg.entry_slippage_ticks l (ground arith) in
      let (p_is, _, _) =
        offset_price_lem ask (tdiv (add32 e.cfg.entry_slippage_ticks (pos 1)) (pos 2)) p
          (ground arith) in
      (
        ask,
        ground arith,
        ground arith,
        ground arith,
        ground arith,
        ground arith,
        ground arith,
        ground arith,
      )

  -- The edge is that of a probability of the model, at the latest sample of a window.
  abbrev pub EdgeOfModel : OutcomeSide → PriceTick → ℤ → ℤ → Type 0
  EdgeOfModel side edge_price edge tte_us =
      (latest : SignalPoint f.Num) × (base : SignalPoint f.Num) × (hint : Option f.Num)
      × (p_yes : f.Num) × (latest_window f e ≡ some (latest, base))
      × (prob_yes f e latest.microprice latest.ts_us tte_us hint ≡ done (some p_yes))
      × (edge ≡ edge_of f side p_yes edge_price)

  entry_side-window :
      (side : OutcomeSide) (latest : SignalPoint f.Num)
      → entry_side f e ≡ done (some (side, latest))
      → (base : SignalPoint f.Num) × (latest_window f e ≡ some (latest, base))
  unfolding entry_side
  entry_side-window side latest h =
      let ((l, b), w, h1) = bind_some _ _ _ h in
      let (_, h2) = require_some _ _ _ h1 in
      let (_, h3) = require_some _ _ _ h2 in (b, ground arith)

  -- What an intent has to show.
  abbrev pub IsBacked : MarketContext → Quote → Quote → TsUs → ℤ → BuyIntent → Type 0
  IsBacked market yes_quote no_quote now tte_us intent =
      (f.le e.strike (zero_f f) ≡ false)
      × (e.cfg.min_tte_us ≤ℤ tte_us)
      × (intent.token ≡ token_of market intent.side)
      × PricedAt (quote_of intent.side yes_quote no_quote) now intent.limit intent.edge_price
      × (e.cfg.min_edge_ticks ≤ℤ intent.edge_ticks)
      × (pos 0 ≤ℤ intent.edge_ticks)
      × CoversSpread (quote_of intent.side yes_quote no_quote).bid intent.edge_price
          intent.edge_ticks
      × EdgeOfModel intent.side intent.edge_price intent.edge_ticks tte_us

  -- decided
  pub decided_intent-IsBacked :
      (market : MarketContext) (yes_quote no_quote : Quote) (now : TsUs) (tte_us : ℤ)
      (intent : BuyIntent)
      → decide_latest f e market yes_quote no_quote now tte_us ≡ done (some intent)
      → IsBacked market yes_quote no_quote now tte_us intent
  unfolding decide_latest
  decided_intent-IsBacked market yes_quote no_quote now tte_us intent h =
      let (open_now, h1) = require_some _ _ _ h in
      let ((side, latest), chosen, h2) = bind_some _ _ _ h1 in
      let ((limit, edge_price), priced, h3) = bind_some _ _ _ h2 in
      let (hint, _, h4) = and_run_done _ _ _ h3 in
      let (p_yes, model, h5) = bind_some _ _ _ h4 in
      let (covered, h6) = require_some _ _ _ h5 in
      let (base, window) = entry_side-window side latest chosen in
      let quote = quote_of side yes_quote no_quote in
      let edge = edge_of f side p_yes edge_price in
      let (enough, nonneg, spread) =
        live_spread-CoversSpread quote.bid edge_price e.cfg.min_edge_ticks edge (ground arith) in
      let made : BuyIntent = record {
        side = side;
        token = token_of market side;
        limit = limit;
        edge_price = edge_price;
        edge_ticks = edge;
      } in
      let prices = entry_prices-PricedAt quote now limit edge_price priced in
      subst (IsBacked market yes_quote no_quote now tte_us) (some_injective made intent h6) (
        ground arith,
        ground arith,
        refl,
        prices,
        enough,
        nonneg,
        spread,
        (latest, base, hint, p_yes, window, model, refl),
      )

module _ (f : F64) where
  -- sampled
  pub sampled_intent-IsBacked :
      (e : SignalEngine f.Num) (sample : BinanceSample f.Num) (market : MarketContext)
      (yes_quote no_quote : Quote) (now : TsUs) (tte_us : ℤ) (intent : BuyIntent)
      → (on_sample f e sample market yes_quote no_quote now tte_us).1 ≡ done (some intent)
      → (refuses_sample f e sample ≡ false)
        × ((pos 0 <ℤ e.cfg.max_lag_us) → sub64 now sample.ts_us ≤ℤ e.cfg.max_lag_us)
        × IsBacked f (keep_sample f e sample now) market yes_quote no_quote now tte_us intent
  unfolding on_sample push_received keep_sample
  sampled_intent-IsBacked e sample market yes_quote no_quote now tte_us intent h =
      elim (Bool-cases (refuses_sample f e sample)) [
        | inl refused ↦ absurd (ground arith)
        | inr taken ↦ (
          taken,
          λ k. ground arith,
          decided_intent-IsBacked f (keep_sample f e sample now) market yes_quote no_quote now
              tte_us intent (ground arith),
        )
      ]
