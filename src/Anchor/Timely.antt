-- ===== src/Anchor/Timely.antt =====
-- When anchor.rs resolves a strike, and to what.
use polyrust.Prelude.{
  ℕ, ◌≡◌, refl, ◌<◌, ◌≤◌, ◌⊎◌, true, Bool-cases, inl, inr, length, arith, ltb, ◌||◌,
}
use polyrust.Prelude.Int.{ℤ, pos, ◌+ℤ◌, ◌≤ℤ◌, ◌<ℤ◌, leb_ℤ, ltb_ℤ}
use polyrust.Prelude.Words.{saturating_add, clamp64}
use polyrust.Prelude.Float.{F64, IsF64}
use polyrust.Prelude.Result.{done}
use polyrust.Anchor.{
  AnchorBuffer, AnchorResult, chosen_samples, window_start_us, window_end_us, late_discovery,
  too_late, max_late_window_us, anchor_window_end_us, min_anchor_samples, try_resolve,
}
use polyrust.Anchor.Middle.{IsMedian, median-IsMedian}

later : (x : ℤ) (n : ℕ) → clamp64 x ≤ℤ saturating_add (clamp64 x) (pos n)
unfolding clamp64 ◌+ℤ◌
later x n = ground arith

spread : (x : ℤ) → saturating_add x (pos 1_000_000) ≤ℤ saturating_add x (pos 30_000_000)
unfolding clamp64 ◌+ℤ◌
spread x = ground arith

module _ (f : F64) where
  -- Nothing is pending, or too few samples are there and the window is open.
  abbrev pub Waits : AnchorBuffer f.Num → ℤ → Type 0
  Waits b now_us =
      (b.pending_slug_ts ≤ℤ pos 0)
      ⊎ ((length (chosen_samples b now_us) < 3) × (now_us ≤ℤ window_end_us b))

  -- What an attempt gives: the buffer, and when each of the three results comes.
  abbrev pub IsOutcome : AnchorBuffer f.Num → ℤ → AnchorBuffer f.Num → AnchorResult f.Num → Type 0
  IsOutcome b now_us b' AnchorResult.pending = (b' ≡ b) × Waits b now_us
  IsOutcome b now_us b' AnchorResult.failed =
      (b' ≡ record b { pending_slug_ts = pos 0 })
      × (pos 0 <ℤ b.pending_slug_ts)
      × (length (chosen_samples b now_us) < 3)
      × (window_end_us b <ℤ now_us)
  IsOutcome b now_us b' (AnchorResult.resolved strike) =
      (b' ≡ record b { pending_slug_ts = pos 0 })
      × (pos 0 <ℤ b.pending_slug_ts)
      × (3 ≤ length (chosen_samples b now_us))
      × (now_us ≤ℤ saturating_add (window_end_us b) max_late_window_us)
      × IsMedian f (chosen_samples b now_us) strike

  late_is_after :
      (b : AnchorBuffer f.Num) (now_us : ℤ)
      → late_discovery b now_us ≡ true
      → window_end_us b <ℤ now_us
  late_is_after b now_us late =
      ground (arith, late, later (window_start_us b +ℤ anchor_window_end_us) 1_000_000)

  chosen_in_time :
      (b : AnchorBuffer f.Num) (now_us : ℤ)
      → 3 ≤ length (chosen_samples b now_us)
      → now_us ≤ℤ saturating_add (window_end_us b) max_late_window_us
  unfolding chosen_samples
  chosen_in_time b now_us h =
      elim (Bool-cases (ltb_ℤ (saturating_add (window_end_us b) max_late_window_us) now_us)) [
        | inl past ↦
            let late : too_late b now_us ≡ true = ground (arith, past, spread (window_end_us b)) in
            absurd (ground (arith, late, h))
        | inr within ↦ ground (arith, within)
      ]

  -- Every attempt to find the strike returns, for an f64 that keeps the named laws: it finds the
  -- median of the chosen samples, which are three or more, at most 30 seconds after the window, and
  -- then nothing is pending; it fails with fewer of them after the window, and then nothing is
  -- pending; else it waits, and changes nothing.
  pub try_resolve-IsOutcome :
      (laws : IsF64 f) (b : AnchorBuffer f.Num) (now_us : ℤ)
      → (b' : AnchorBuffer f.Num) × (r : AnchorResult f.Num) × (try_resolve f b now_us
          ≡ done (b', r))
        × IsOutcome b now_us b' r
  unfolding try_resolve
  try_resolve-IsOutcome laws b now_us = elim (Bool-cases (leb_ℤ b.pending_slug_ts (pos 0))) [
    | inl idle ↦ (b, AnchorResult.pending, rw idle refl, (refl, inl (ground arith)))
    | inr wanted ↦ elim (Bool-cases (ltb (length (chosen_samples b now_us)) min_anchor_samples)) [
      | inl few ↦ elim (Bool-cases (late_discovery b now_us || ltb_ℤ (window_end_us b) now_us)) [
        | inl over ↦ (
          record b { pending_slug_ts = pos 0 },
          AnchorResult.failed,
          rw (wanted, few, over) refl,
          (refl, ground arith, ground arith, ground (arith, late_is_after b now_us)),
        )
        | inr still ↦ (
          b,
          AnchorResult.pending,
          rw (wanted, few, still) refl,
          (refl, inr (ground arith, ground arith)),
        )
      ]
      | inr enough ↦
          let many : 3 ≤ length (chosen_samples b now_us) = ground arith in
          let (strike, found, middle) =
            median-IsMedian f laws (chosen_samples b now_us) (omega arith) in
          (
            record b { pending_slug_ts = pos 0 },
            AnchorResult.resolved strike,
            rw (wanted, enough, found) refl,
            (refl, ground arith, many, chosen_in_time b now_us many, middle),
          )
    ]
  ]
