-- ===== src/Signal/Tests.antt =====
-- What the theorems on signal.rs say of the run of Signal/Runs.
use polyrust.Prelude.{
  ◌≡◌, ◌⊎◌, ◌-◌, refl, true, false, none, some, [], ◌∷◌, length, arith, get_last?,
}
use polyrust.Prelude.Int.{pos, ◌*ℤ◌, ◌<ℤ◌, ◌≤ℤ◌, tdiv}
use polyrust.Prelude.Words.{sub64}
use polyrust.Prelude.Fallible.{Returns}
use polyrust.Prelude.Float.Decimals.{decimals, decimals-IsF64}
use polyrust.State.Rings.{drop}
use polyrust.Signal.{push_received, refuses_sample, point_of, keep_sample}
use polyrust.Signal.Decide.{decide_latest}
use polyrust.Signal.Samples
use polyrust.Signal.Intents.{IsBacked, sampled_intent-IsBacked}
use polyrust.Signal.Window.{IsOldestSince, window_oldest}
use polyrust.Signal.Fair.{IsCut, prob_yes-IsCut}
use polyrust.Signal.Total.{decide_latest-Returns}
use polyrust.Signal.Samples.{IsBuffer, Step, Reach}
use polyrust.Signal.Runs.{
  config, second, twice, some_market, quote_at, first_point, second_point, bought, engine_once,
  engine_twice, twice_reached, windowed, fair, sampled,
}

reached_samples-IsBuffer_example : IsBuffer decimals twice
reached_samples-IsBuffer_example =
    Samples.reached_samples-IsBuffer decimals config twice twice_reached

sampled_intent-IsBacked_example :
    (refuses_sample decimals engine_once second ≡ false)
    × ((pos 0 <ℤ pos 250_000) → sub64 (pos 1_500_100) (pos 1_500_000) ≤ℤ pos 250_000)
    × IsBacked decimals
        (keep_sample decimals engine_once second (pos 1_500_100))
        some_market
        (quote_at (pos 38) (pos 40))
        (quote_at (pos 58) (pos 60))
        (pos 1_500_100)
        (pos 10_000_000)
        bought
sampled_intent-IsBacked_example =
    sampled_intent-IsBacked decimals engine_once second some_market (quote_at (pos 38) (pos 40))
      (quote_at (pos 58) (pos 60)) (pos 1_500_100) (pos 10_000_000) bought sampled

push_received_effect_example :
    ((push_received decimals engine_once second (pos 1_500_100) ≡ (engine_once, false))
      × (refuses_sample decimals engine_once second ≡ true))
    ⊎ (((push_received decimals engine_once second (pos 1_500_100)).1 ≡ true)
        × (pos 7 <ℤ pos 8)
        × ((push_received decimals engine_once second (pos 1_500_100)).0.last_update_id ≡ pos 8)
        × ((push_received decimals engine_once second (pos 1_500_100)).0.samples
            ≡ drop
                (length (first_point ∷ point_of decimals engine_once second (pos 1_500_100) ∷ [])
                  - 8)
                (first_point ∷ point_of decimals engine_once second (pos 1_500_100) ∷ [])))
push_received_effect_example =
    Samples.push_received_effect decimals engine_once second (pos 1_500_100) (omega arith)

window_oldest_example :
    (get_last? engine_twice.samples ≡ some second_point)
    × IsOldestSince (sub64 (pos 1_500_000) (pos 2_000_000)) first_point engine_twice.samples
    × (sub64 (pos 1_500_000) (pos 2_000_000) ≤ℤ pos 1_000_000)
    × (pos 1_000_000 <ℤ pos 1_500_000)
    × (pos 1_000 ≤ℤ sub64 (pos 1_500_000) (pos 1_000_000))
window_oldest_example =
    window_oldest decimals engine_twice second_point first_point (omega arith, tt) windowed

prob_yes-IsCut_example :
    (decimals.le (pos 100_000_000) (pos 0) ≡ false)
    × (pos 0 <ℤ pos 10_000_000)
    × IsCut decimals engine_twice (pos 559_225)
unfolding tdiv ◌*ℤ◌
prob_yes-IsCut_example =
    prob_yes-IsCut decimals decimals-IsF64 engine_twice (pos 103_000_000) (pos 1_500_000)
      (pos 10_000_000) none (pos 559_225) fair

decide_latest-Returns_example : Returns (
    decide_latest decimals engine_twice some_market
      (quote_at (pos 38) (pos 40))
      (quote_at (pos 58) (pos 60))
      (pos 1_500_100)
      (pos 10_000_000))
decide_latest-Returns_example =
    decide_latest-Returns decimals decimals-IsF64 engine_twice some_market
      (quote_at (pos 38) (pos 40)) (quote_at (pos 58) (pos 60)) (pos 1_500_100) (pos 10_000_000)
      (refl, refl)
