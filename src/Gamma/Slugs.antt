-- ===== src/Gamma/Slugs.antt =====
-- The window of a market in gamma.rs, `slug_ts`.
use polyrust.Prelude.{ℕ, ◌+◌, ◌-◌, ◌*◌, ◌/◌, ◌%◌, ◌^◌, ◌≤◌, ◌<◌, ◌≡◌, false, arith, ap, ◌∙◌}
use native.Mathlib.Nat.{div-add-mod, mod-lt}
use polyrust.Prelude.Int.{pos, emod, ◌-ℤ◌}
use polyrust.Prelude.Words.{wrap64_self}
use polyrust.Prelude.Result.{done}
use polyrust.Gamma.{no_remainder, slug_ts}

slug_exact : (w n : ℕ) → 1 ≤ w → n < 2 ^ 63 → slug_ts (pos w) (pos n) ≡ done (pos (n - n % w))
unfolding slug_ts emod ◌-ℤ◌
slug_exact w n h small =
    let some_window : no_remainder (pos w) (pos n) ≡ false = ground arith in
    let below : n % w ≤ n = grind (arith, div-add-mod n w) in
    rw some_window (ap done (ground (arith, below, wrap64_self (pos (n - n % w)))))

-- For a positive window and a time of an i64 that is not negative, the start of the window is the
-- multiple of it that is at most the time and less than a window before it.
pub slug_ts_window :
    (w n : ℕ)
    → 1 ≤ w
    → n < 2 ^ 63
    → (q : ℕ) × (slug_ts (pos w) (pos n) ≡ done (pos (w * q))) × (w * q ≤ n) × (n < w * q + w)
slug_ts_window w n h small =
    let split = div-add-mod n w in
    let rest = mod-lt n h in
    (
      n / w,
      slug_exact w n h small ∙ ap (λ (k : ℕ). done (pos k)) (grind (arith, split)),
      grind (arith, split),
      grind (arith, split, rest),
    )
