-- ===== src/Signal/Model.antt =====
-- The fair value of signal.rs: the volatility of the samples, the probability that the book implies,
-- and `prob_yes`.
use polyrust.Prelude.{
  not, ◌&&◌, ◌||◌, Option, none, some, List, [], ◌∷◌, filter, and_then, if◌then◌else◌,
}
use polyrust.Prelude.Int.{ℤ, pos, leb_ℤ, ltb_ℤ, max_ℤ}
use polyrust.Prelude.Words.{sub64, add32}
use polyrust.Prelude.Result.{Run, done, Fallible, map_run}
use polyrust.Prelude.Fallible.{and_run}
use polyrust.Prelude.Float.{F64, zero_f, one_f, literal_millionth, clamp}
use polyrust.Types.{TsUs}
use polyrust.State.{Quote}
use polyrust.Signal.{SignalPoint, SignalEngine}
use polyrust.Signal.Normal.{phi, phi_inv}

module _ (f : F64) where
  -- The sums of the loop of `realized_sigma_since`: of the squared moves and of the seconds.
  abbrev Sums : Type 0
  Sums = f.Num × f.Num

  add_move : SignalPoint f.Num → SignalPoint f.Num → Sums → Sums
  add_move p s (sum_sq, total_dt_s) =
      let dt_us = max_ℤ (sub64 s.ts_us p.ts_us) (pos 1_000) in
      let dt_s = f.div (f.of_int dt_us) (f.literal (pos 1_000_000) 0) in
      let dp = f.sub s.microprice p.microprice in
      (f.add sum_sq (f.mul dp dp), f.add total_dt_s dt_s)

  sum_moves : SignalPoint f.Num → List (SignalPoint f.Num) → Sums → Sums
  sum_moves p [] sums = sums
  sum_moves p (s ∷ r) sums = sum_moves s r (add_move p s sums)

  sums_of : List (SignalPoint f.Num) → Sums
  sums_of [] = (zero_f f, zero_f f)
  sums_of (s ∷ r) = sum_moves s r (zero_f f, zero_f f)

  sigma_of : Sums → f.Num
  sigma_of (sum_sq, total_dt_s) =
      if f.lt (zero_f f) total_dt_s then f.sqrt (f.div sum_sq total_dt_s) else zero_f f

  unfoldable pub realized_sigma_since : SignalEngine f.Num → ℤ → f.Num
  unfolding add_move sum_moves sums_of sigma_of
  realized_sigma_since e cutoff_us = elim e.samples [
    | [] ↦ zero_f f
    | _ ∷ r ↦ elim r [
      | [] ↦ zero_f f
      | _ ∷ _ ↦ sigma_of (sums_of (filter (λ s. leb_ℤ cutoff_us s.ts_us) e.samples))
    ]
  ]

  -- `clamp(1e-6, 1.0 - 1e-6)`.
  unfoldable pub clamp_open : f.Num → Run f.Num
  clamp_open p = clamp f p (literal_millionth f) (f.sub (one_f f) (literal_millionth f))

  mid_of_ticks : ℤ → ℤ → Option f.Num
  mid_of_ticks bid ask =
      if leb_ℤ bid (pos 0) || leb_ℤ ask (pos 0) || ltb_ℤ ask bid
      then none
      else some
          (f.div (f.mul (f.of_int (add32 bid ask)) (f.literal (pos 5) 1)) (f.literal (pos 100) 0))

  unfoldable pub mid : Quote → Option f.Num
  unfolding mid_of_ticks
  mid q = and_then q.bid (λ bid. and_then q.ask (λ ask. mid_of_ticks bid ask))

  unfoldable pub implied_of_mids : Option f.Num → Option f.Num → Fallible f.Num
  implied_of_mids (some y) (some n) =
      let total = f.add y n in
      if f.lt (f.literal (pos 1) 9) total && f.is_finite total
      then map_run some (clamp_open (f.div y total))
      else done none
  implied_of_mids (some y) none = map_run some (clamp_open y)
  implied_of_mids none (some n) = map_run some (clamp_open (f.sub (one_f f) n))
  implied_of_mids none none = done none

  unfoldable pub implied_p_yes_for : Quote → Quote → Fallible f.Num
  implied_p_yes_for yes_quote no_quote = implied_of_mids (mid yes_quote) (mid no_quote)

  -- The volatility that the book implies, when it is on the side of the drift.
  sigma_at : f.Num → f.Num → Option f.Num
  sigma_at drift p =
      let z = phi_inv f p in
      let s = f.div drift z in
      if not (f.is_finite z) || f.lt (f.abs z) (literal_millionth f)
      then none
      else if f.is_finite s && f.lt (zero_f f) s
      then some s
      else none

  unfoldable pub implied_sigma : f.Num → Option f.Num → Fallible f.Num
  unfolding sigma_at
  implied_sigma drift none = done none
  implied_sigma drift (some p) = map_run (sigma_at drift) (clamp_open p)

  -- `phi(z)`, cut to the configured range.
  unfoldable pub cut_phi : SignalEngine f.Num → f.Num → Fallible f.Num
  cut_phi e z = and_run (clamp f e.cfg.prob_floor (zero_f f) (one_f f)) (λ floor.
      and_run (clamp f e.cfg.prob_ceil floor (one_f f))
        (λ ceil. map_run some (clamp f (phi f z) floor ceil)))

  -- The probability of a drift at a volatility.
  unfoldable pub prob_at : SignalEngine f.Num → f.Num → f.Num → Fallible f.Num
  prob_at e drift sigma_eff =
      let z = f.div drift sigma_eff in
      if not (f.is_finite sigma_eff) || f.le sigma_eff (f.literal (pos 1) 9)
      then done none
      else if not (f.is_finite z)
      then done none
      else cut_phi e z

  -- The larger of the realised volatility and the implied one, if there is one.
  unfoldable pub prob_with : SignalEngine f.Num → f.Num → f.Num → Option f.Num → Fallible f.Num
  prob_with e drift realized none = prob_at e drift realized
  prob_with e drift realized (some implied) = prob_at e drift (f.max realized implied)

  -- The realised volatility until the market's end.
  unfoldable pub realized_eff : SignalEngine f.Num → TsUs → ℤ → f.Num
  realized_eff e latest_ts tte_us =
      let realized_px =
        f.max (realized_sigma_since e (sub64 latest_ts e.cfg.max_window_us))
          e.cfg.prob_sigma_floor_usd in
      let scale_to_eff =
        f.mul e.cfg.prob_sigma_scale
          (f.sqrt (f.div (f.of_int tte_us) (f.literal (pos 1_000_000) 0))) in
      f.mul realized_px scale_to_eff

  unfoldable pub prob_of_drift :
      SignalEngine f.Num → f.Num → TsUs → ℤ → Option f.Num → Fallible f.Num
  prob_of_drift e drift latest_ts tte_us hint =
      and_run (implied_sigma drift hint) (prob_with e drift (realized_eff e latest_ts tte_us))

  unfoldable pub prob_yes : SignalEngine f.Num → f.Num → TsUs → ℤ → Option f.Num → Fallible f.Num
  prob_yes e microprice latest_ts tte_us hint =
      if not (f.is_finite microprice)
        || f.le microprice (zero_f f)
        || f.le e.strike (zero_f f)
        || leb_ℤ tte_us (pos 0)
      then done none
      else prob_of_drift e (f.sub microprice e.strike) latest_ts tte_us hint
