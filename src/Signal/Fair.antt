-- ===== src/Signal/Fair.antt =====
-- The range of the fair value of signal.rs, `prob_yes`, and that it is found without a panic.
use polyrust.Prelude.{
  ◌≡◌, ap, refl, true, false, not, ◌||◌, Bool-cases, inl, inr, Option, none, some, arith,
  if◌then◌else◌,
}
use polyrust.Prelude.Int.{ℤ, pos, leb_ℤ, ◌<ℤ◌}
use polyrust.Prelude.Result.{Run, done, panic, map_run}
use polyrust.Prelude.Fallible.{Returns, and_run-done, and_run_done}
use polyrust.Prelude.Float.{F64, IsF64, clamp, zero_f, one_f}
use polyrust.Types.{TsUs}
use polyrust.Signal.{SignalEngine}
use polyrust.Signal.Model.{
  prob_yes, prob_of_drift, prob_with, prob_at, realized_eff, cut_phi, clamp_open, implied_sigma,
}
use polyrust.Signal.Normal.{phi}

map_run-some : {A : Type 0} (m : Run A) (a : A) → map_run some m ≡ done (some a) → m ≡ done a
map_run-some (done x) a e = ground arith
map_run-some panic a e = cc

module _ (f : F64) where
  -- A probability within the configured bounds, themselves cut to [0, 1].
  abbrev pub IsCut : SignalEngine f.Num → f.Num → Type 0
  IsCut e p =
      (lo : f.Num) × (hi : f.Num) × (clamp f e.cfg.prob_floor (zero_f f) (one_f f) ≡ done lo)
      × (clamp f e.cfg.prob_ceil lo (one_f f) ≡ done hi)
      × (f.lt p lo ≡ false)
      × (f.lt hi p ≡ false)

  -- Configured bounds that are finite.
  abbrev pub HasBounds : SignalEngine f.Num → Type 0
  HasBounds e = (f.is_finite e.cfg.prob_floor ≡ true) × (f.is_finite e.cfg.prob_ceil ≡ true)

module _ (f : F64) (laws : IsF64 f) where
  clamp_between :
      (x lo hi y : f.Num)
      → clamp f x lo hi ≡ done y
      → (f.le lo hi ≡ true) × (f.lt y lo ≡ false) × (f.lt hi y ≡ false)
  unfolding clamp
  clamp_between x lo hi y e =
      ground (arith, laws.lt_irrefl lo, laws.lt_irrefl hi, laws.le_not_lt lo hi)

  pub clamp_done : (x lo hi : f.Num) → f.le lo hi ≡ true → (y : f.Num) × (clamp f x lo hi ≡ done y)
  unfolding clamp
  clamp_done x lo hi h =
      let x' = if f.lt x lo then lo else x in (if f.lt hi x' then hi else x', ground arith)

  -- A clamp of finite numbers in order does not panic, and its value is finite and in the range.
  clamp_finite :
      (x lo hi : f.Num)
      → f.is_finite x ≡ true
      → f.is_finite lo ≡ true
      → f.is_finite hi ≡ true
      → f.le lo hi ≡ true
      → (y : f.Num) × (clamp f x lo hi ≡ done y)
        × (f.is_finite y ≡ true)
        × (f.le lo y ≡ true)
        × (f.le y hi ≡ true)
  unfolding clamp
  clamp_finite x lo hi fx flo fhi h = elim (Bool-cases (f.lt x lo)) [
    | inl below ↦ (
      lo,
      ground (arith, laws.le_not_lt lo hi),
      flo,
      laws.le_total lo lo flo flo (laws.lt_irrefl lo),
      h,
    )
    | inr above ↦ elim (Bool-cases (f.lt hi x)) [
      | inl over ↦ (hi, ground arith, fhi, h, laws.le_total hi hi fhi fhi (laws.lt_irrefl hi))
      | inr within ↦
          (x, ground arith, fx, laws.le_total lo x flo fx above, laws.le_total x hi fx fhi within)
    ]
  ]

  cut_phi-IsCut :
      (e : SignalEngine f.Num) (z p : f.Num) → cut_phi f e z ≡ done (some p) → IsCut f e p
  unfolding cut_phi
  cut_phi-IsCut e z p h =
      let (lo, at_lo, h1) = and_run_done _ _ _ h in
      let (hi, at_hi, h2) = and_run_done _ _ _ h1 in
      let (_, above, below) = clamp_between (phi f z) lo hi p (map_run-some _ p h2) in
      (lo, hi, at_lo, at_hi, above, below)

  prob_at-IsCut :
      (e : SignalEngine f.Num) (drift sigma_eff p : f.Num)
      → prob_at f e drift sigma_eff ≡ done (some p)
      → IsCut f e p
  unfolding prob_at
  prob_at-IsCut e drift sigma_eff p h = cut_phi-IsCut e (f.div drift sigma_eff) p (ground arith)

  prob_with-IsCut :
      (e : SignalEngine f.Num) (drift realized : f.Num) (implied : Option f.Num) (p : f.Num)
      → prob_with f e drift realized implied ≡ done (some p)
      → IsCut f e p
  unfolding prob_with
  prob_with-IsCut e drift realized none p h = prob_at-IsCut e drift realized p h
  prob_with-IsCut e drift realized (some s) p h = prob_at-IsCut e drift (f.max realized s) p h

  prob_of_drift-IsCut :
      (e : SignalEngine f.Num) (drift : f.Num) (latest_ts : TsUs) (tte_us : ℤ) (hint : Option f.Num)
      (p : f.Num)
      → prob_of_drift f e drift latest_ts tte_us hint ≡ done (some p)
      → IsCut f e p
  unfolding prob_of_drift
  prob_of_drift-IsCut e drift latest_ts tte_us hint p h =
      let (implied, _, h1) = and_run_done _ _ _ h in prob_with-IsCut e drift _ implied p h1

  -- A fair value is found only with a strike and time left, and is neither below the configured
  -- floor nor above the ceiling, both cut to between 0 and 1, for an f64 whose comparisons are
  -- those of IEEE 754.
  pub prob_yes-IsCut :
      (e : SignalEngine f.Num) (microprice : f.Num) (latest_ts : TsUs) (tte_us : ℤ)
      (hint : Option f.Num) (p : f.Num)
      → prob_yes f e microprice latest_ts tte_us hint ≡ done (some p)
      → (f.le e.strike (zero_f f) ≡ false) × (pos 0 <ℤ tte_us) × IsCut f e p
  unfolding prob_yes
  prob_yes-IsCut e microprice latest_ts tte_us hint p h = (
    ground arith,
    ground arith,
    prob_of_drift-IsCut e (f.sub microprice e.strike) latest_ts tte_us hint p (ground arith),
  )

  cut_phi-Returns : (e : SignalEngine f.Num) (z : f.Num) → HasBounds f e → Returns (cut_phi f e z)
  unfolding cut_phi
  cut_phi-Returns e z (finite_floor, finite_ceil) =
      let (lo, at_lo, f_lo, _, lo_one) =
        clamp_finite e.cfg.prob_floor (zero_f f) (one_f f) finite_floor laws.zero_finite
          laws.one_finite laws.zero-le-one in
      let (hi, at_hi, _, lo_hi, _) =
        clamp_finite e.cfg.prob_ceil lo (one_f f) finite_ceil f_lo laws.one_finite lo_one in
      let (p, at_p) = clamp_done (phi f z) lo hi lo_hi in
      (
        some p,
        and_run-done _ _ lo (some p) at_lo
            (and_run-done _ _ hi (some p) at_hi (ap (map_run some) at_p)),
      )

  prob_at-Returns :
      (e : SignalEngine f.Num) (drift sigma_eff : f.Num)
      → HasBounds f e
      → Returns (prob_at f e drift sigma_eff)
  unfolding prob_at
  prob_at-Returns e drift sigma_eff bounds =
      let (r, cut) = cut_phi-Returns e (f.div drift sigma_eff) bounds in
      let flat = not (f.is_finite sigma_eff) || f.le sigma_eff (f.literal (pos 1) 9) in
      elim (Bool-cases flat) [
        | inl no_sigma ↦ (none, ground arith)
        | inr sigma ↦ elim (Bool-cases (not (f.is_finite (f.div drift sigma_eff)))) [
          | inl no_z ↦ (none, ground arith)
          | inr z ↦ (r, ground arith)
        ]
      ]

  prob_with-Returns :
      (e : SignalEngine f.Num) (drift realized : f.Num) (implied : Option f.Num)
      → HasBounds f e
      → Returns (prob_with f e drift realized implied)
  unfolding prob_with
  prob_with-Returns e drift realized none bounds = prob_at-Returns e drift realized bounds
  prob_with-Returns e drift realized (some s) bounds =
      prob_at-Returns e drift (f.max realized s) bounds

  implied_sigma-Returns :
      (drift : f.Num) (hint : Option f.Num) → Returns (implied_sigma f drift hint)
  unfolding implied_sigma clamp_open
  implied_sigma-Returns drift none = (none, refl)
  implied_sigma-Returns drift (some p) =
      let (q, at_q) = clamp_done p _ _ laws.margin_ordered in (_, ap (map_run _) at_q)

  prob_of_drift-Returns :
      (e : SignalEngine f.Num) (drift : f.Num) (latest_ts : TsUs) (tte_us : ℤ) (hint : Option f.Num)
      → HasBounds f e
      → Returns (prob_of_drift f e drift latest_ts tte_us hint)
  unfolding prob_of_drift
  prob_of_drift-Returns e drift latest_ts tte_us hint bounds =
      let (implied, at_implied) = implied_sigma-Returns drift hint in
      let (r, at_r) =
        prob_with-Returns e drift (realized_eff f e latest_ts tte_us) implied bounds in
      (r, and_run-done _ _ implied r at_implied at_r)

  -- returns
  pub prob_yes-Returns :
      (e : SignalEngine f.Num) (microprice : f.Num) (latest_ts : TsUs) (tte_us : ℤ)
      (hint : Option f.Num)
      → HasBounds f e
      → Returns (prob_yes f e microprice latest_ts tte_us hint)
  unfolding prob_yes
  prob_yes-Returns e microprice latest_ts tte_us hint bounds =
      let (r, at_r) =
        prob_of_drift-Returns e (f.sub microprice e.strike) latest_ts tte_us hint bounds in
      let idle =
        not (f.is_finite microprice)
        || f.le microprice (zero_f f)
        || f.le e.strike (zero_f f)
        || leb_ℤ tte_us (pos 0) in
      elim (Bool-cases idle) [
        | inl none_asked ↦ (none, ground arith)
        | inr asked ↦ (r, ground arith)
      ]
