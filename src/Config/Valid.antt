-- ===== src/Config/Valid.antt =====
-- What a configuration that config.rs accepts has, and what the core that is made of it can rely on.
use polyrust.Prelude.{◌≤◌, ◌≡◌, true, false, Bool-cases, inl, inr, unwrap_or, arith}
use mathlib.Core.Path.{subst}
use polyrust.Prelude.Int.{ℤ, pos, leb_ℤ, ◌≤ℤ◌, ◌<ℤ◌}
use polyrust.Prelude.Words.{InI32}
use polyrust.Prelude.Text.{Text}
use polyrust.Prelude.Result.{ok, done}
use polyrust.Prelude.Attempt.{bind_ok, pure_ok}
use polyrust.Prelude.Float.{F64}
use polyrust.Runtime.{EntryGateConfig}
use polyrust.Config.{Env, env_f64, to_i32, to_positive, to_nonneg}
use polyrust.Config.Load.{
  Config, TradeSettings, BandSettings, ExitSettings, from_lookup, read_trade, read_band, read_tte,
  read_exits, read_quote_age, read_gates, coherent, venue_floor, positive_ticks, nonneg_ticks,
}

to_i32-InI32 : (name : Text) (v w : ℤ) → to_i32 name v ≡ done (ok w) → InI32 w
unfolding to_i32
to_i32-InI32 name v w e = ground (arith, e)

to_positive-pos : (name : Text) (v w : ℤ) → to_positive name v ≡ done (ok w) → pos 0 <ℤ w
unfolding to_positive
to_positive-pos name v w e = ground (arith, e)

to_nonneg_ok : (name : Text) (v w : ℤ) → to_nonneg name v ≡ done (ok w) → pos 0 ≤ℤ w
unfolding to_nonneg
to_nonneg_ok name v w e = ground (arith, e)

positive_ticks_ok :
    (env : Env) (name : Text) (d w : ℤ) → positive_ticks env name d ≡ done (ok w) → pos 0 <ℤ w
unfolding positive_ticks
positive_ticks_ok env name d w e = let (v, _, k) = bind_ok _ _ _ e in to_positive-pos name v w k

nonneg_ticks_ok :
    (env : Env) (name : Text) (d w : ℤ) → nonneg_ticks env name d ≡ done (ok w) → pos 0 ≤ℤ w
unfolding nonneg_ticks
nonneg_ticks_ok env name d w e = let (v, _, k) = bind_ok _ _ _ e in to_nonneg_ok name v w k

-- At least the venue's dollar.
abbrev pub MeetsFloor : TradeSettings → Type 0
MeetsFloor t = pos 100 ≤ℤ t.usdc_per_trade_cents

venue_floor_ok : (v w : ℤ) → venue_floor v ≡ done (ok w) → pos 100 ≤ℤ w
unfolding venue_floor
venue_floor_ok v w e = ground (arith, e)

read_trade-MeetsFloor :
    (env : Env) (t : TradeSettings) → read_trade env ≡ done (ok t) → MeetsFloor t
unfolding read_trade
read_trade-MeetsFloor env t e =
    let (raw, _, e1) = bind_ok _ _ _ e in
    let (usdc, floor, e2) = bind_ok _ _ _ e1 in
    let (overrun, _, e3) = bind_ok _ _ _ e2 in
    subst MeetsFloor (pure_ok _ t e3) (venue_floor_ok raw usdc floor)

abbrev pub IsCoherent : BandSettings → Type 0
IsCoherent b =
    InI32 b.min_buy_limit_cents
    × InI32 b.max_buy_limit_cents
    × (b.min_buy_limit_cents <ℤ b.max_buy_limit_cents)

coherent_ok :
    (lo hi : ℤ) (b : BandSettings)
    → InI32 lo
    → InI32 hi
    → coherent lo hi ≡ done (ok b)
    → IsCoherent b
unfolding coherent
coherent_ok lo hi b in_lo in_hi e = elim (Bool-cases (leb_ℤ hi lo)) [
  | inl crossed ↦ absurd (ground arith)
  | inr apart ↦ subst IsCoherent (same apart) (in_lo, in_hi, ground arith)
]
  where
    same : leb_ℤ hi lo ≡ false → record { min_buy_limit_cents = lo; max_buy_limit_cents = hi } ≡ b
    same apart = ground arith

read_band-IsCoherent : (env : Env) (b : BandSettings) → read_band env ≡ done (ok b) → IsCoherent b
unfolding read_band
read_band-IsCoherent env b e =
    let (raw_lo, _, e1) = bind_ok _ _ _ e in
    let (lo, e_lo, e2) = bind_ok _ _ _ e1 in
    let (raw_hi, _, e3) = bind_ok _ _ _ e2 in
    let (hi, e_hi, e4) = bind_ok _ _ _ e3 in
    coherent_ok lo hi b (to_i32-InI32 _ raw_lo lo e_lo) (to_i32-InI32 _ raw_hi hi e_hi) e4

read_tte-positive : (env : Env) (v : ℤ) → read_tte env ≡ done (ok v) → pos 0 <ℤ v
unfolding read_tte
read_tte-positive env v e = let (raw, _, e1) = bind_ok _ _ _ e in to_positive-pos _ raw v e1

read_quote_age-positive : (env : Env) (v : ℤ) → read_quote_age env ≡ done (ok v) → pos 0 <ℤ v
unfolding read_quote_age
read_quote_age-positive env v e = to_positive-pos _ _ v e

-- Exits at a positive drop, stop and holding time.
abbrev pub IsExit : ExitSettings → Type 0
IsExit x =
    (pos 0 <ℤ x.exit_drop_ticks)
    × (pos 0 ≤ℤ x.exit_arm_ticks)
    × (pos 0 <ℤ x.exit_stop_ticks)
    × (pos 0 <ℤ x.exit_hold_us)

read_exits-IsExit : (env : Env) (x : ExitSettings) → read_exits env ≡ done (ok x) → IsExit x
unfolding read_exits
read_exits-IsExit env x e =
    let (drop, e_drop, e1) = bind_ok _ _ _ e in
    let (arm, e_arm, e2) = bind_ok _ _ _ e1 in
    let (stop, e_stop, e3) = bind_ok _ _ _ e2 in
    let (edge, _, e4) = bind_ok _ _ _ e3 in
    let (hold, e_hold, e5) = bind_ok _ _ _ e4 in
    subst IsExit (pure_ok _ x e5) (
      positive_ticks_ok env _ _ drop e_drop,
      nonneg_ticks_ok env _ _ arm e_arm,
      positive_ticks_ok env _ _ stop e_stop,
      to_positive-pos _ _ hold e_hold,
    )

abbrev pub IsGate : EntryGateConfig → Type 0
IsGate g =
    (pos 0 ≤ℤ g.rtt_ceiling_us)
    × (pos 0 ≤ℤ g.poly_drift_window_us)
    × (pos 0 ≤ℤ g.poly_drift_block_up_ticks)
    × (pos 0 ≤ℤ g.poly_drift_block_down_ticks)
    × (pos 0 ≤ℤ g.poly_drift_safety_bps)
    × (pos 0 ≤ℤ g.poly_drift_min_clean_edge_ticks)

read_gates-IsGate : (env : Env) (g : EntryGateConfig) → read_gates env ≡ done (ok g) → IsGate g
unfolding read_gates
read_gates-IsGate env g e =
    let (rtt, e_rtt, e1) = bind_ok _ _ _ e in
    let (window, e_window, e2) = bind_ok _ _ _ e1 in
    let (up, e_up, e3) = bind_ok _ _ _ e2 in
    let (down, e_down, e4) = bind_ok _ _ _ e3 in
    let (safety, e_safety, e5) = bind_ok _ _ _ e4 in
    let (clean, e_clean, e6) = bind_ok _ _ _ e5 in
    subst IsGate (pure_ok _ g e6) (
      to_nonneg_ok _ _ rtt e_rtt,
      to_nonneg_ok _ _ window e_window,
      nonneg_ticks_ok env _ _ up e_up,
      nonneg_ticks_ok env _ _ down e_down,
      nonneg_ticks_ok env _ _ safety e_safety,
      nonneg_ticks_ok env _ _ clean e_clean,
    )

module _ (f : F64) where
  -- The default bounds of the probability are finite.
  abbrev pub DefaultsFinite : Type 0
  DefaultsFinite =
      (f.is_finite (f.literal (pos 2) 2) ≡ true) × (f.is_finite (f.literal (pos 98) 2) ≡ true)

  env_f64-finite :
      (env : Env) (name : Text) (d : f.Num)
      → f.is_finite d ≡ true
      → f.is_finite (unwrap_or (env_f64 f env name) d) ≡ true
  unfolding env_f64
  env_f64-finite env name d h = ground arith

  abbrev pub IsLoaded : Config f.Num → Type 0
  IsLoaded c =
      MeetsFloor c.trade
      × IsCoherent c.band
      × (pos 0 <ℤ c.min_decision_tte_us)
      × IsExit c.exits
      × (pos 0 <ℤ c.signal_quote_age_us)
      × IsGate c.gates
      × (8 ≤ c.signal_ring_size)
      × (f.is_finite c.prob_floor ≡ true)
      × (f.is_finite c.prob_ceil ≡ true)

  -- A configuration that is accepted has a trade of at least a dollar, a band of two different
  -- prices in the range of i32, positive times and stops, gates that are not negative, a ring of at
  -- least eight samples and finite bounds of the probability, where the default bounds are finite.
  pub from_lookup-IsLoaded :
      (env : Env) (c : Config f.Num) → DefaultsFinite → from_lookup f env ≡ done (ok c) → IsLoaded c
  unfolding from_lookup
  from_lookup-IsLoaded env c (finite_floor, finite_ceil) e =
      let (trade, e_trade, e1) = bind_ok _ _ _ e in
      let (band, e_band, e2) = bind_ok _ _ _ e1 in
      let (tte, e_tte, e3) = bind_ok _ _ _ e2 in
      let (edges, _, e4) = bind_ok _ _ _ e3 in
      let (exits, e_exits, e5) = bind_ok _ _ _ e4 in
      let (age, e_age, e6) = bind_ok _ _ _ e5 in
      let (gates, e_gates, e7) = bind_ok _ _ _ e6 in
      subst IsLoaded (pure_ok _ c e7) (
        read_trade-MeetsFloor env trade e_trade,
        read_band-IsCoherent env band e_band,
        read_tte-positive env tte e_tte,
        read_exits-IsExit env exits e_exits,
        read_quote_age-positive env age e_age,
        read_gates-IsGate env gates e_gates,
        ground arith,
        env_f64-finite env _ _ finite_floor,
        env_f64-finite env _ _ finite_ceil,
      )
