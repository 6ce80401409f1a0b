-- ===== src/Anchor/Tests.antt =====
-- Samples around the start of a market of anchor.rs, in numbers of six decimals.
use polyrust.Prelude.{◌≡◌, refl}
use polyrust.Prelude.Int.{ℤ, pos, ◌+ℤ◌, ◌-ℤ◌, ◌*ℤ◌, tdiv}
use polyrust.Prelude.Words.{clamp64}
use polyrust.Prelude.Float.Decimals.{decimals, decimals-IsF64}
use polyrust.Prelude.Result.{done}
use polyrust.Anchor.{
  AnchorBuffer, AnchorResult, new, push, trim, drop_older, set_pending, try_resolve, median, sort,
  insert_sorted, chosen_samples,
}
use polyrust.Anchor.Held.{IsHeld, Step, Reach, reached_buffer-IsHeld}
use polyrust.Anchor.Timely.{IsOutcome, try_resolve-IsOutcome}

-- A push of equal sizes at a price, in microseconds after a start at one second.
abbrev pushed : AnchorBuffer ℤ → ℤ → ℤ → AnchorBuffer ℤ
pushed b ts_us price = push decimals b ts_us price price (pos 1_000_000) (pos 1_000_000)

abbrev one_in : AnchorBuffer ℤ
one_in = pushed (set_pending decimals (new decimals) (pos 1)) (pos 1_000_000) (pos 100_200_000)

abbrev two_in : AnchorBuffer ℤ
two_in = pushed one_in (pos 1_100_000) (pos 100_000_000)

abbrev three_in : AnchorBuffer ℤ
three_in = pushed two_in (pos 1_200_000) (pos 100_100_000)

resolved_in_time :
    try_resolve decimals three_in (pos 1_350_000)
    ≡ done (record three_in { pending_slug_ts = pos 0 }, AnchorResult.resolved (pos 100_100_000))
unfolding new push trim drop_older set_pending try_resolve median sort insert_sorted chosen_samples
    clamp64 ◌+ℤ◌ ◌-ℤ◌ ◌*ℤ◌ tdiv
resolved_in_time = refl

waits_for_more : try_resolve decimals two_in (pos 1_250_000) ≡ done (two_in, AnchorResult.pending)
unfolding new push trim drop_older set_pending try_resolve median sort insert_sorted chosen_samples
    clamp64 ◌+ℤ◌ ◌-ℤ◌ ◌*ℤ◌ tdiv
waits_for_more = refl

try_resolve-IsOutcome_example :
    (b' : AnchorBuffer ℤ) × (r : AnchorResult ℤ) × (try_resolve decimals three_in (pos 1_350_000)
      ≡ done (b', r))
    × IsOutcome decimals three_in (pos 1_350_000) b' r
try_resolve-IsOutcome_example =
    try_resolve-IsOutcome decimals decimals-IsF64 three_in (pos 1_350_000)

abbrev one_reached : Reach decimals one_in
one_reached =
    Reach.next (set_pending decimals (new decimals) (pos 1)) one_in
      (Reach.next (new decimals) (set_pending decimals (new decimals) (pos 1)) Reach.start
        (Step.sets (new decimals) (pos 1)))
      (Step.pushes (set_pending decimals (new decimals) (pos 1)) (pos 1_000_000) (pos 100_200_000)
        (pos 100_200_000) (pos 1_000_000) (pos 1_000_000))

reached_buffer-IsHeld_example : IsHeld decimals one_in
reached_buffer-IsHeld_example = reached_buffer-IsHeld decimals one_in one_reached
