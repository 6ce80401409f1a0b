-- ===== src/Config/Ready.antt =====
-- The core that runtime.rs starts with, from a configuration that config.rs accepts.
use mathlib.Core.Path.{subst}
use polyrust.Prelude.{◌≡◌, refl, arith, sym, ◌∙◌}
use polyrust.Prelude.Int.{ℤ, pos, ◌≤ℤ◌, ◌<ℤ◌}
use polyrust.Prelude.Text.{Text}
use polyrust.Prelude.Result.{ok, done}
use polyrust.Prelude.Fallible.{Returns}
use polyrust.Prelude.Attempt.{bind_ok, pure_ok}
use polyrust.Prelude.Float.{F64, IsF64}
use polyrust.Types.{PriceTick, TsUs, checked}
use polyrust.State.{MarketContext, Quote}
use polyrust.Runtime.{RuntimeCore}
use polyrust.Signal
use polyrust.Signal.{
  SignalConfig, SignalEngine, BinanceSample, set_strike, push_received, reset_window_of,
  keep_sample,
}
use polyrust.Signal.Samples.{Step, Reach}
use polyrust.Signal.Fair.{HasBounds}
use polyrust.Signal.Decide.{decide_latest}
use polyrust.Signal.Total.{decide_latest-Returns}
use polyrust.Config.{Env}
use polyrust.Config.Load.{Config, from_lookup}
use polyrust.Config.Core.{to_price, signal_config, core_of, new_core}
use polyrust.Config.Valid.{DefaultsFinite, IsLoaded, IsGate, IsCoherent, from_lookup-IsLoaded}

to_price_ok :
    (name : Text) (cents : ℤ) (p : PriceTick)
    → to_price name cents ≡ done (ok p)
    → (p ≡ cents) × (pos 1 ≤ℤ p) × (p ≤ℤ pos 99)
unfolding to_price checked
to_price_ok name cents p e = ground arith

module _ (f : F64) where
  -- The band of the engine is a part of 1 to 99 ticks with more than one price.
  abbrev pub HasBand : SignalConfig f.Num → Type 0
  HasBand sc =
      (pos 1 ≤ℤ sc.min_buy_limit)
      × (sc.min_buy_limit <ℤ sc.max_buy_limit)
      × (sc.max_buy_limit ≤ℤ pos 99)

  -- What a configuration gives its engine.
  abbrev pub Fits : Config f.Num → SignalConfig f.Num → Type 0
  Fits c sc =
      HasBand sc
      × (sc.prob_floor ≡ c.prob_floor)
      × (sc.prob_ceil ≡ c.prob_ceil)
      × (sc.entry_notional_cents ≡ c.trade.usdc_per_trade_cents)
      × (sc.min_tte_us ≡ c.min_decision_tte_us)
      × (sc.max_quote_age_us ≡ c.signal_quote_age_us)

  signal_config-Fits :
      (c : Config f.Num) (sc : SignalConfig f.Num)
      → IsCoherent c.band
      → signal_config c ≡ done (ok sc)
      → Fits c sc
  unfolding signal_config
  signal_config-Fits c sc band e =
      let (lo, e_lo, e1) = bind_ok _ _ _ e in
      let (hi, e_hi, e2) = bind_ok _ _ _ e1 in
      let (lo_is, lo_min, _) = to_price_ok _ _ lo e_lo in
      let (hi_is, _, hi_max) = to_price_ok _ _ hi e_hi in
      let apart : lo <ℤ hi = ground arith in
      subst (Fits c) (pure_ok _ sc e2) ((lo_min, apart, hi_max), refl, refl, refl, refl, refl)

  Step-cfg : (a b : SignalEngine f.Num) → Step f a b → b.cfg ≡ a.cfg
  unfolding set_strike reset_window_of push_received keep_sample
  Step-cfg a b (Step.strikes _ strike reset) = ground arith
  Step-cfg a b (Step.pushes _ s recv) = ground arith

  Reach-cfg : (a b : SignalEngine f.Num) → Reach f a b → b.cfg ≡ a.cfg
  Reach-cfg a b (Reach.stop _) = refl
  Reach-cfg a c (Reach.next _ b _ k r) = Reach-cfg b c r ∙ Step-cfg a b k

  -- What the engine and the gates of a running core are set to.
  abbrev pub IsReady : SignalEngine f.Num → RuntimeCore → Type 0
  IsReady e k =
      HasBand e.cfg
      × (pos 100 ≤ℤ e.cfg.entry_notional_cents)
      × (pos 0 <ℤ e.cfg.min_tte_us)
      × (pos 0 <ℤ e.cfg.max_quote_age_us)
      × HasBounds f e
      × IsGate k.entry_gates

  Ready-new :
      (c : Config f.Num) (sc : SignalConfig f.Num)
      → IsLoaded f c
      → Fits c sc
      → IsReady (Signal.new f sc) (core_of c)
  unfolding Signal.new
  Ready-new c sc (floor, _, tte, _, age, gates, _, finite_floor, finite_ceil)
        (band, same_floor, same_ceil, cents, same_tte, same_age) =
      (band, ground arith, ground arith, ground arith, (ground arith, ground arith), gates)

  new_core-IsReady :
      (c : Config f.Num) (e : SignalEngine f.Num) (k : RuntimeCore)
      → IsLoaded f c
      → new_core f c ≡ done (ok (e, k))
      → IsReady e k
  unfolding new_core
  new_core-IsReady c e k loaded made =
      let (sc, e_sc, e1) = bind_ok _ _ _ made in
      let fits = signal_config-Fits c sc loaded.1 e_sc in
      subst (λ (p : SignalEngine f.Num × RuntimeCore). IsReady p.0 p.1) (pure_ok _ (e, k) e1)
        (Ready-new c sc loaded fits)

  module _ (env : Env) (c : Config f.Num) (e : SignalEngine f.Num) (k : RuntimeCore)
      (defaults : DefaultsFinite f) (loaded : from_lookup f env ≡ done (ok c))
      (made : new_core f c ≡ done (ok (e, k))) (e' : SignalEngine f.Num) (run : Reach f e e') where
    -- Whatever samples and strikes come after an accepted configuration has started the core, its
    -- engine keeps a band within 1 to 99 ticks, a notional of at least a dollar, positive limits of
    -- time and quote age and finite bounds of the probability, where the default bounds are finite,
    -- and its gates are not negative.
    started_core-IsReady : IsReady e' k
    started_core-IsReady =
        let ready = new_core-IsReady c e k (from_lookup-IsLoaded f env c defaults loaded) made in
        let same = Reach-cfg e e' run in
        subst (λ (cfg : SignalConfig f.Num). IsReady (record e' { cfg = cfg }) k) (sym same) ready

    -- The engine that an accepted configuration starts comes to a decision without a panic, after
    -- any samples and strikes, for an f64 that keeps the named laws and has finite default bounds.
    pub started_engine-Returns :
        IsF64 f
        → (market : MarketContext) (yes_quote no_quote : Quote) (now : TsUs) (tte_us : ℤ)
        → Returns (decide_latest f e' market yes_quote no_quote now tte_us)
    started_engine-Returns laws market yes_quote no_quote now tte_us =
        decide_latest-Returns f laws e' market yes_quote no_quote now tte_us started_core-IsReady.4
