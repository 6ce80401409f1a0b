-- ===== src/Signal/Total.antt =====
-- The engine of signal.rs answers: with finite bounds it does not panic.
use polyrust.Prelude.{Option, none, some, Bool-cases, inl, inr, refl, ap, ◌&&◌}
use polyrust.Prelude.Int.{ℤ, pos}
use polyrust.Prelude.Result.{map_run}
use polyrust.Prelude.Fallible.{Returns, bind-Returns, require-Returns, and_run-Returns}
use polyrust.Prelude.Float.{F64, IsF64}
use polyrust.Types.{OutcomeSide, TsUs}
use polyrust.State.{MarketContext, Quote}
use polyrust.Signal.{SignalEngine}
use polyrust.Signal.Model.{implied_p_yes_for, implied_of_mids, mid, clamp_open}
use polyrust.Signal.Fair.{HasBounds, clamp_done, prob_yes-Returns}
use polyrust.Signal.Decide.{decide_latest, entry_side, entry_prices, hint_of, fair_ticks_for_side}

module _ (f : F64) (laws : IsF64 f) where
  clamp_open-Returns : (p : f.Num) → Returns (map_run some (clamp_open f p))
  unfolding clamp_open
  clamp_open-Returns p =
      let (q, at_q) = clamp_done f laws p _ _ laws.margin_ordered in
      (some q, ap (map_run some) at_q)

  implied_of_mids-Returns :
      (yes_mid no_mid : Option f.Num) → Returns (implied_of_mids f yes_mid no_mid)
  unfolding implied_of_mids
  implied_of_mids-Returns (some y) (some n) =
      let total = f.add y n in
      let (r, at_r) = clamp_open-Returns (f.div y total) in
      elim (Bool-cases (f.lt (f.literal (pos 1) 9) total && f.is_finite total)) [
        | inl used ↦ (r, rw used at_r)
        | inr unused ↦ (none, rw unused refl)
      ]
  implied_of_mids-Returns (some y) none = clamp_open-Returns y
  implied_of_mids-Returns none (some n) = clamp_open-Returns _
  implied_of_mids-Returns none none = (none, refl)

  hint_of-Returns :
      (e : SignalEngine f.Num) (yes_quote no_quote : Quote)
      → Returns (hint_of f e yes_quote no_quote)
  unfolding hint_of implied_p_yes_for
  hint_of-Returns e yes_quote no_quote = elim (Bool-cases e.cfg.use_implied_sigma) [
    | inl used ↦ rw used (implied_of_mids-Returns (mid f yes_quote) (mid f no_quote))
    | inr unused ↦ rw unused (none, refl)
  ]

  entry_side-Returns : (e : SignalEngine f.Num) → Returns (entry_side f e)
  unfolding entry_side
  entry_side-Returns e =
      bind-Returns _ _ (_, refl) (λ w. require-Returns _ _ (require-Returns _ _ (_, refl)))

  entry_prices-Returns :
      (e : SignalEngine f.Num) (quote : Quote) (now : TsUs) → Returns (entry_prices f e quote now)
  unfolding entry_prices
  entry_prices-Returns e quote now =
      bind-Returns _ _ (_, refl)
        (λ ask. require-Returns _ _ (
          bind-Returns _ _ (_, refl)
            (λ limit. require-Returns _ _ (bind-Returns _ _ (_, refl) (λ edge. (_, refl))))))

  -- decide
  pub decide_latest-Returns :
      (e : SignalEngine f.Num) (market : MarketContext) (yes_quote no_quote : Quote) (now : TsUs)
      (tte_us : ℤ)
      → HasBounds f e
      → Returns (decide_latest f e market yes_quote no_quote now tte_us)
  unfolding decide_latest
  decide_latest-Returns e market yes_quote no_quote now tte_us bounds = require-Returns _ _ (
      bind-Returns _ _ (entry_side-Returns e) (λ chosen.
        bind-Returns _ _ (entry_prices-Returns e _ now) (λ prices.
          and_run-Returns _ _ (hint_of-Returns e yes_quote no_quote) (λ hint.
            bind-Returns _ _
              (prob_yes-Returns f laws e chosen.1.microprice chosen.1.ts_us tte_us hint bounds)
              (λ p. require-Returns _ _ (_, refl))))))

  pub fair_ticks-Returns :
      (e : SignalEngine f.Num) (side : OutcomeSide) (now : TsUs) (tte_us : ℤ) (hint : Option f.Num)
      → HasBounds f e
      → Returns (fair_ticks_for_side f e side now tte_us hint)
  unfolding fair_ticks_for_side
  fair_ticks-Returns e side now tte_us hint bounds =
      bind-Returns _ _ (_, refl)
        (λ w.
          bind-Returns _ _ (prob_yes-Returns f laws e w.0.microprice w.0.ts_us tte_us _ bounds)
            (λ p. (_, refl)))
