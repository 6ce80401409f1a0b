-- ===== src/Types/Lattice/Divisors.antt =====
-- What `gcd` of types.rs computes: a common divisor of the two magnitudes that every other one
-- divides. The statement about multiples serves the step of BUY sizes.
use mathlib.Core.Logic.{dif_pos, dif_neg}
use mathlib.Core.Path.{subst, ap}
use mathlib.Core.WellFounded.{Acc}
use native.Mathlib.Bridge.{le_prop}
use native.Mathlib.Decide.{dec_lt}
use native.Mathlib.Nat.{
  dvd_refl, dvd-zero, dvd-mod_iff, dvd-add_iff_right, dvd-mul_left_of_dvd, div-add-mod',
}
use Prim.Native.Nat.{◌∣◌}
use polyrust.Prelude.{ℕ, ◌+◌, ◌*◌, ◌/◌, ◌%◌, ◌≡◌, ◌∙◌, arith, refl}
use polyrust.Prelude.Int.{ℤ, pos, magnitude, neg_part, tmod}
use polyrust.Types.Lattice.{gcd_loop, gcd_from, gcd, abs64, ◌≺◌, tmod_smaller, smaller_wf}

magnitude-tmod : (a b : ℤ) → magnitude (tmod a b) ≡ magnitude a % magnitude b
unfolding tmod
magnitude-tmod a b = ground arith

-- A divisor of two multiples of a number divides the remainder's multiple.
dvd-mod_mul : (c a b k : ℕ) → c ∣ a * k → c ∣ b * k → c ∣ a % b * k
dvd-mod_mul c a b k h h' =
    (dvd-add_iff_right c {m = a / b * (b * k)} {n = a % b * k} (dvd-mul_left_of_dvd c h' (a / b))).1
      (subst (λ t. c ∣ t) split h)
  where
    split : a * k ≡ a / b * (b * k) + a % b * k
    split = omega (arith, ap (λ (t : ℕ). t * k) (div-add-mod' a b))

abbrev Divides : ℤ → ℤ → ℤ → Type 0
Divides a b g = (magnitude g ∣ magnitude a) × (magnitude g ∣ magnitude b)

gcd_loop-Divides : (a b : ℤ) (w : Acc ◌≺◌ b) → Divides a b (gcd_loop a b w)
unfolding gcd_loop
gcd_loop-Divides a b (Acc.intro _ smaller) = elim (dec_lt 0 (magnitude b)) [
  | yes h ↦ rw (dif_pos (dec_lt 0 (magnitude b)) le_prop h) (
      let (db, dm) = gcd_loop-Divides b (tmod a b) (smaller (tmod a b) (tmod_smaller a b h)) in
      ((dvd-mod_iff _ db).0 (rw (magnitude-tmod a b) at dm), db))
  | no h ↦ rw (dif_neg (dec_lt 0 (magnitude b)) h) (
      let z : magnitude b ≡ 0 = omega arith in
      (dvd_refl (magnitude a), rw z (dvd-zero (magnitude a))))
]

-- What divides both multiples by k divides the multiple of the result.
gcd_loop-greatest :
    (a b : ℤ) (c k : ℕ) (w : Acc ◌≺◌ b)
    → c ∣ magnitude a * k
    → c ∣ magnitude b * k
    → c ∣ magnitude (gcd_loop a b w) * k
unfolding gcd_loop
gcd_loop-greatest a b c k (Acc.intro _ smaller) ha hb = elim (dec_lt 0 (magnitude b)) [
  | yes h ↦ rw (dif_pos (dec_lt 0 (magnitude b)) le_prop h) (
      gcd_loop-greatest b (tmod a b) c k (smaller (tmod a b) (tmod_smaller a b h)) hb
        (rw (magnitude-tmod a b) (dvd-mod_mul c (magnitude a) (magnitude b) k ha hb)))
  | no h ↦ rw (dif_neg (dec_lt 0 (magnitude b)) h) ha
]

tmod_nonneg : (a b : ℤ) → neg_part a ≡ 0 → neg_part (tmod a b) ≡ 0
unfolding tmod
tmod_nonneg a b h = ground arith

nonneg-pos : (z : ℤ) → neg_part z ≡ 0 → z ≡ pos (magnitude z)
nonneg-pos z h = ground arith

abs64_pos : (a : ℕ) → abs64 (pos a) ≡ pos a
unfolding abs64
abs64_pos a = ground arith

gcd-loop : (a b : ℕ) → gcd (pos a) (pos b) ≡ gcd_from (pos a) (pos b)
unfolding gcd
gcd-loop a b = rw (abs64_pos a, abs64_pos b)

gcd_loop-nonneg :
    (a b : ℤ) (w : Acc ◌≺◌ b) → neg_part a ≡ 0 → neg_part b ≡ 0 → neg_part (gcd_loop a b w) ≡ 0
unfolding gcd_loop
gcd_loop-nonneg a b (Acc.intro _ smaller) ha hb = elim (dec_lt 0 (magnitude b)) [
  | yes h ↦ rw (dif_pos (dec_lt 0 (magnitude b)) le_prop h) (
      gcd_loop-nonneg b (tmod a b) (smaller (tmod a b) (tmod_smaller a b h)) hb
        (tmod_nonneg a b ha))
  | no h ↦ rw (dif_neg (dec_lt 0 (magnitude b)) h) ha
]

-- For numbers from 0 up, the result divides both, and every common divisor of their multiples by
-- one factor divides its multiple.
pub gcd_pos :
    (a b : ℕ)
    → (g : ℕ) × (gcd (pos a) (pos b) ≡ pos g)
      × (g ∣ a)
      × (g ∣ b)
      × ((c k : ℕ) → c ∣ a * k → c ∣ b * k → c ∣ g * k)
unfolding gcd_from
gcd_pos a b =
    let w = smaller_wf.apply (pos b) in
    let g = gcd_loop (pos a) (pos b) w in
    let d = gcd_loop-Divides (pos a) (pos b) w in
    (
      magnitude g,
      gcd-loop a b ∙ nonneg-pos g (gcd_loop-nonneg (pos a) (pos b) w refl refl),
      d.0,
      d.1,
      λ c k. gcd_loop-greatest (pos a) (pos b) c k w,
    )
