-- ===== src/Runtime/Gates.antt =====
-- The gates of runtime.rs before an entry, and the moving average that they read.
use polyrust.Prelude.{
  ◌≡◌, ◌∙◌, none, some, arith, ℕ, ◌≤◌, ◌<◌, ◌*◌, ◌^◌, ◌+◌, ◌-◌, ◌/◌, ◌⊎◌, inl, inr,
}
use polyrust.Prelude.Int.{
  ℤ, pos, negsuc, ◌≤ℤ◌, ◌<ℤ◌, ◌-ℤ◌, ◌+ℤ◌, +ℤ_parts, -ℤ_parts, ◌*ℤ◌, ediv, tdiv, min_ℤ, eq_of_parts,
}
use polyrust.Prelude.Words.{
  wrap64_self, wrap32, wrap32_self, clamp64_self, wrap64, clamp64, add64, sub64, saturating_mul,
  i32_max,
}
use polyrust.Signal.{BuyIntent}
use polyrust.Runtime.{
  RuntimeCore, EntryGateConfig, next_ewma, abs32, required_drift, entry_gate_block, drift_of,
  rtt_gate, drift_up_gate, drift_down_gate, drift_gates,
}

ediv_between :
    (d : ℤ) → ((pos 0 ≤ℤ ediv d 8) × (ediv d 8 ≤ℤ d)) ⊎ ((d ≤ℤ ediv d 8) × (ediv d 8 ≤ℤ pos 0))
unfolding ediv
ediv_between (pos n) = inl (ground arith, ground arith)
ediv_between (negsuc n) = inr (ground arith, ground arith)

-- A new round trip moves the average towards itself and never past it, for positive values of i64.
pub ewma_between :
    (ewma rtt : ℤ)
    → pos 0 <ℤ ewma
    → ewma <ℤ pos (2 ^ 63)
    → pos 0 <ℤ rtt
    → rtt <ℤ pos (2 ^ 63)
    → ((ewma ≤ℤ next_ewma ewma rtt) × (next_ewma ewma rtt ≤ℤ rtt))
      ⊎ ((rtt ≤ℤ next_ewma ewma rtt) × (next_ewma ewma rtt ≤ℤ ewma))
unfolding next_ewma
ewma_between ewma rtt e0 e1 r0 r1 =
    let w : wrap64 (rtt -ℤ ewma) ≡ rtt -ℤ ewma =
      wrap64_self (rtt -ℤ ewma) (ground (arith, -ℤ_parts rtt ewma)) in
    let d = ediv (rtt -ℤ ewma) 8 in
    let c : clamp64 (ewma +ℤ d) ≡ ewma +ℤ d =
      clamp64_self (ewma +ℤ d)
        (ground (arith, -ℤ_parts rtt ewma, +ℤ_parts ewma d, ediv_between (rtt -ℤ ewma))) in
    ground (arith, w, c, -ℤ_parts rtt ewma, +ℤ_parts ewma d, ediv_between (rtt -ℤ ewma))

-- An entry that the gates let through has its average round trip within the ceiling and its drift
-- within both limits, where these are set; the limit downwards is from 0 to the greatest i32, and
-- the window and its drift exist.
pub entry_gate_passed :
    (c : RuntimeCore) (intent : BuyIntent) (now drift dt_us : ℤ)
    → drift_of c intent now ≡ some (drift, dt_us)
    → pos 0 <ℤ c.entry_gates.poly_drift_window_us
    → pos 0 ≤ℤ c.entry_gates.poly_drift_block_down_ticks
    → c.entry_gates.poly_drift_block_down_ticks <ℤ pos (2 ^ 31)
    → entry_gate_block c intent now ≡ none
    → ((c.entry_gates.rtt_ceiling_us ≤ℤ pos 0) ⊎ (c.rtt_ewma_us ≤ℤ c.entry_gates.rtt_ceiling_us))
      × ((c.entry_gates.poly_drift_block_up_ticks ≤ℤ pos 0)
          ⊎ (drift <ℤ c.entry_gates.poly_drift_block_up_ticks))
      × ((c.entry_gates.poly_drift_block_down_ticks ≡ pos 0)
          ⊎ (pos 0 <ℤ drift +ℤ c.entry_gates.poly_drift_block_down_ticks))
unfolding entry_gate_block rtt_gate drift_gates drift_up_gate drift_down_gate
entry_gate_passed c intent now drift dt_us ed w d0 d1 e =
    let down = c.entry_gates.poly_drift_block_down_ticks in
    let n : wrap32 (pos 0 -ℤ down) ≡ pos 0 -ℤ down =
      wrap32_self (pos 0 -ℤ down) (ground (arith, -ℤ_parts (pos 0) down)) in
    ground (arith, ed, n, -ℤ_parts (pos 0) down, +ℤ_parts drift down)

ceil_div : (a d : ℕ) → 0 < d → (a ≤ (a + d - 1) / d * d) × ((a + d - 1) / d * d < a + d)
ceil_div a d h = (grind arith, grind arith)

ceil_fits : (a d : ℕ) → 0 < d → a ≤ (2 ^ 31 - 1) * d → (a + d - 1) / d < 2 ^ 31
ceil_fits a d h k = grind (arith, ceil_div a d h)

ceil_quotient :
    (a d : ℕ)
    → 0 < d
    → a + d < 2 ^ 63
    → a ≤ (2 ^ 31 - 1) * d
    → wrap32 (min_ℤ (tdiv (sub64 (add64 (pos a) (pos d)) (pos 1)) (pos d)) i32_max)
      ≡ pos ((a + d - 1) / d)
unfolding tdiv ◌+ℤ◌
ceil_quotient a d d0 small fits =
    let s : wrap64 (pos (a + d)) ≡ pos (a + d) = wrap64_self (pos (a + d)) (ground arith) in
    let t : wrap64 (pos (a + d) -ℤ pos 1) ≡ pos (a + d - 1) =
      wrap64_self (pos (a + d) -ℤ pos 1) (ground (arith, -ℤ_parts (pos (a + d)) (pos 1)))
      ∙ eq_of_parts (pos (a + d) -ℤ pos 1) (pos (a + d - 1))
          (ground (arith, -ℤ_parts (pos (a + d)) (pos 1))) in
    let q = ceil_fits a d d0 fits in
    let r : wrap32 (pos ((a + d - 1) / d)) ≡ pos ((a + d - 1) / d) =
      wrap32_self (pos ((a + d - 1) / d)) (ground (arith, q)) in
    rw (s, t) (ground (arith, q, r))

scaled_product :
    (m e b : ℕ)
    → 0 < b
    → m * e * b < 2 ^ 63
    → saturating_mul (saturating_mul (pos m) (pos e)) (pos b) ≡ pos (m * e * b)
unfolding ◌*ℤ◌
scaled_product m e b b0 small =
    let le : m * e ≤ m * e * b = grind arith in
    let i : clamp64 (pos (m * e)) ≡ pos (m * e) = clamp64_self (pos (m * e)) (ground (arith, le)) in
    let o : clamp64 (pos (m * e * b)) ≡ pos (m * e * b) =
      clamp64_self (pos (m * e * b)) (ground arith) in
    rw i o

-- The drift that an entry has to cover is that of the window scaled to one round trip and by the
-- safety factor, rounded up, where the window and the factor are positive, no product leaves i64,
-- and the result fits i32.
required_drift_rounds_up :
    (g : EntryGateConfig) (drift : ℤ) (e b m d : ℕ)
    → g.poly_drift_safety_bps ≡ pos b
    → abs32 drift ≡ pos m
    → 0 < b
    → 0 < d
    → m * e * b + d * 10_000 < 2 ^ 63
    → m * e * b ≤ (2 ^ 31 - 1) * (d * 10_000)
    → (n : ℕ) × (required_drift g (pos e) drift (pos d) ≡ pos n)
      × (m * e * b ≤ n * (d * 10_000))
      × (n * (d * 10_000) < m * e * b + d * 10_000)
unfolding required_drift ◌*ℤ◌
required_drift_rounds_up g drift e b m d hb hm b0 d0 small fits =
    let t : clamp64 (pos (d * 10_000)) ≡ pos (d * 10_000) =
      clamp64_self (pos (d * 10_000)) (ground arith) in
    let (lo, hi) = ceil_div (m * e * b) (d * 10_000) (omega arith) in
    (
      (m * e * b + d * 10_000 - 1) / (d * 10_000),
      rw (hm, hb, t, scaled_product m e b b0 (omega arith))
          (ceil_quotient (m * e * b) (d * 10_000) (omega arith) small fits),
      lo,
      hi,
    )
