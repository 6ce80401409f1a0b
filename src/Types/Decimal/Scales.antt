-- ===== src/Types/Decimal/Scales.antt =====
-- The loop of `decimal_scale_digits` in types.rs: its fuel is enough, and it counts the zeros of a
-- power of ten.
use polyrust.Prelude.{
  ℕ, zero, suc, ◌+◌, ◌*◌, ◌/◌, ◌%◌, ◌^◌, ◌≤◌, ◌≡◌, ◌↔◌, ◌⊎◌, refl, Bool-cases, inl, inr, some, ap,
  ◌∙◌, true, false, leb, ◌==◌, arith,
}
use polyrust.Prelude.Int.{ℤ, pos, negsuc, ◌≤ℤ◌}
use polyrust.Types.Decimal.{scale_loop, decimal_scale_digits}

ten_pow : (j : ℕ) → 1 ≤ 10 ^ j
ten_pow zero = omega arith
ten_pow (suc j) = omega (arith, ten_pow j)

scale_step :
    (f n digits : ℕ) → 1 ≤ n → scale_loop (suc f) (10 * n) digits ≡ scale_loop f n (digits + 1)
unfolding scale_loop
scale_step f n digits h =
    let more : leb (10 * n) 1 ≡ false = ground arith in
    let tens : (10 * n % 10 == 0) ≡ true = ground arith in
    let less : 10 * n / 10 ≡ n = omega arith in rw (more, tens, less) refl

scale_loop-power : (f j digits : ℕ) → 10 ^ j ≤ f → scale_loop f (10 ^ j) digits ≡ some (digits + j)
scale_loop-power zero j digits h = absurd (omega (arith, ten_pow j))
scale_loop-power (suc f) zero digits h = unfold scale_loop in ground arith
scale_loop-power (suc f) (suc j) digits h =
    let tens : 10 ^ suc j ≡ 10 * 10 ^ j = omega arith in
    let sums : digits + 1 + j ≡ digits + suc j = omega arith in
    rw tens (scale_step f (10 ^ j) digits (ten_pow j))
    ∙ scale_loop-power f j (digits + 1) (omega (arith, ten_pow j))
    ∙ ap some sums

scale_loop-only :
    (f n digits e : ℕ)
    → 1 ≤ n
    → n ≤ f
    → scale_loop f n digits ≡ some e
    → (j : ℕ) × (n ≡ 10 ^ j) × (e ≡ digits + j)
unfolding scale_loop
scale_loop-only zero n digits e low h s = absurd (omega arith)
scale_loop-only (suc f) n digits e low h s = elim (Bool-cases (leb n 1)) [
  | inl one ↦ (0, ground arith, ground arith)
  | inr more ↦ elim (Bool-cases (n % 10 == 0)) [
    | inl tens ↦
        let (j, n_is, e_is) =
          scale_loop-only f (n / 10) (digits + 1) e (ground arith) (ground arith) (ground arith) in
        (suc j, ground arith, ground arith)
    | inr rest ↦ absurd (ground arith)
  ]
]

positive_scale : (n d : ℕ) → 1 ≤ n → decimal_scale_digits (pos n) ≡ some d → n ≡ 10 ^ d
unfolding decimal_scale_digits
positive_scale n d low s =
    let (j, n_is, d_is) = scale_loop-only n n 0 d low (omega arith) s in ground (arith, n_is, d_is)

power_scale : (d : ℕ) → decimal_scale_digits (pos (10 ^ d)) ≡ some d
unfolding decimal_scale_digits
power_scale d =
    let none_before : 0 + d ≡ d = omega arith in
    scale_loop-power (10 ^ d) d 0 (omega arith) ∙ ap some none_before

low_scale : (n : ℤ) → n ≤ℤ pos 1 → decimal_scale_digits n ≡ some 0
unfolding decimal_scale_digits scale_loop
low_scale (negsuc n) h = refl
low_scale (pos zero) h = refl
low_scale (pos (suc n)) h = let one : n ≡ 0 = omega arith in rw one refl

scale_read :
    (n : ℤ) (d : ℕ)
    → decimal_scale_digits n ≡ some d
    → ((n ≤ℤ pos 1) × (d ≡ 0)) ⊎ (n ≡ pos (10 ^ d))
scale_read (negsuc n) d s = inl (omega arith, ground (arith, s, low_scale (negsuc n) (omega arith)))
scale_read (pos zero) d s = inl (omega arith, ground (arith, s, low_scale (pos zero) (omega arith)))
scale_read (pos (suc n)) d s = inr (ap pos (positive_scale (suc n) d (omega arith) s))

-- A scale is read as d digits exactly if it is at most 1 and d is 0, or if it is 10^d: the loop has
-- fuel enough for every power of ten, and every other scale above 1 is refused.
pub decimal_scale_digits_iff :
    (n : ℤ) (d : ℕ)
    → (decimal_scale_digits n ≡ some d) ↔ (((n ≤ℤ pos 1) × (d ≡ 0)) ⊎ (n ≡ pos (10 ^ d)))
decimal_scale_digits_iff n d = (scale_read n d, known)
  where
    known : ((n ≤ℤ pos 1) × (d ≡ 0)) ⊎ (n ≡ pos (10 ^ d)) → decimal_scale_digits n ≡ some d
    known (inl (low, none_read)) = rw none_read (low_scale n low)
    known (inr power) = rw power (power_scale d)
