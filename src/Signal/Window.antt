-- ===== src/Signal/Window.antt =====
-- The window of the engine of signal.rs, `latest_window`.
use polyrust.Prelude.{
  ◌≡◌, Bool, false, some, List, [], ◌∷◌, get_last?, find, find-holds, All, arith, Bool-cases, inl,
  inr,
}
use mathlib.Core.Path.{subst}
use polyrust.Prelude.Int.{ℤ, ◌<ℤ◌, ◌≤ℤ◌, leb_ℤ, ltb_ℤ, eqb_ℤ}
use polyrust.Prelude.Words.{sub64}
use polyrust.Prelude.Float.{F64}
use polyrust.Signal.{SignalPoint, SignalEngine, latest_window, sample_since}
use polyrust.Signal.Samples.{Increasing, Increasing-rest}

find-All {ℓ κ} :
    {A : Type ℓ} (P : A → Type κ) (q : A → Bool) (r : List A) (a : A)
    → All P r
    → find q r ≡ some a
    → P a
find-All P q [] a h e = cc
find-All P q (x ∷ r) a h e = elim (Bool-cases (q x)) [
  | inl here ↦ subst P (ground arith) h.0
  | inr there ↦ find-All P q r a h.1 (ground arith)
]

module _ {N : Type 0} where
  -- Every sample of an increasing list is at most as late as its last, and later than its first.
  Increasing-last :
      (r : List (SignalPoint N)) (l : SignalPoint N)
      → Increasing r
      → get_last? r ≡ some l
      → All (λ p. p.ts_us ≤ℤ l.ts_us) r
  Increasing-last [] l h e = tt
  Increasing-last (x ∷ []) l h e = (ground arith, tt)
  Increasing-last (x ∷ y ∷ r) l (lt, h) e =
      let rest = Increasing-last (y ∷ r) l h e in (omega (arith, rest.0), rest)

  Increasing-head :
      (x : SignalPoint N) (r : List (SignalPoint N))
      → Increasing (x ∷ r)
      → All (λ p. x.ts_us ≤ℤ p.ts_us) r
  Increasing-head x [] h = tt
  Increasing-head x (y ∷ r) (lt, h) = (omega arith, All-weaken x y lt r (Increasing-head y r h))
    where
      All-weaken :
          (x y : SignalPoint N)
          → x.ts_us <ℤ y.ts_us
          → (r : List (SignalPoint N)) → All (λ p. y.ts_us ≤ℤ p.ts_us) r
          → All (λ p. x.ts_us ≤ℤ p.ts_us) r
      All-weaken x y lt [] h = tt
      All-weaken x y lt (z ∷ r) (h, k) = (omega arith, All-weaken x y lt r k)

  abbrev pub IsOldestSince : ℤ → SignalPoint N → List (SignalPoint N) → Type 0
  IsOldestSince cutoff b = All (λ p. cutoff ≤ℤ p.ts_us → b.ts_us ≤ℤ p.ts_us)

  All-constant :
      (cutoff : ℤ) (b : SignalPoint N) (r : List (SignalPoint N))
      → All (λ p. b.ts_us ≤ℤ p.ts_us) r
      → IsOldestSince cutoff b r
  All-constant cutoff b [] h = tt
  All-constant cutoff b (x ∷ r) (h, k) = (λ _. h, All-constant cutoff b r k)

  -- The first sample at or after the cutoff is the oldest such.
  find-IsOldestSince :
      (cutoff : ℤ) (r : List (SignalPoint N)) (b : SignalPoint N)
      → Increasing r
      → find (λ s. leb_ℤ cutoff s.ts_us) r ≡ some b
      → IsOldestSince cutoff b r
  find-IsOldestSince cutoff [] b h e = tt
  find-IsOldestSince cutoff (x ∷ r) b h e = elim (Bool-cases (leb_ℤ cutoff x.ts_us)) [
    | inl here ↦
        let same : x ≡ b = ground arith in
        subst (λ y. All (λ p. cutoff ≤ℤ p.ts_us → y.ts_us ≤ℤ p.ts_us) (x ∷ r)) same
          (λ _. omega arith, All-constant cutoff x r (Increasing-head x r h))
    | inr there ↦ (
      λ k. absurd (ground arith),
      find-IsOldestSince cutoff r b (Increasing-rest x r h) (ground arith),
    )
  ]

module _ (f : F64) (e : SignalEngine f.Num) where
  window_found :
      (l b : SignalPoint f.Num)
      → latest_window f e ≡ some (l, b)
      → (get_last? e.samples ≡ some l)
        × (find (λ s. leb_ℤ (sub64 l.ts_us e.cfg.max_window_us) s.ts_us) e.samples ≡ some b)
        × (eqb_ℤ b.ts_us l.ts_us ≡ false)
        × (ltb_ℤ (sub64 l.ts_us b.ts_us) e.cfg.min_window_us ≡ false)
  unfolding latest_window sample_since
  window_found l b h = ground arith

  -- Where the samples grow in time, a window ends in the last sample and starts with the oldest one
  -- at or after its cutoff, which is before the last by at least the least window.
  pub window_oldest :
      (l b : SignalPoint f.Num)
      → Increasing e.samples
      → latest_window f e ≡ some (l, b)
      → (get_last? e.samples ≡ some l)
        × IsOldestSince (sub64 l.ts_us e.cfg.max_window_us) b e.samples
        × (sub64 l.ts_us e.cfg.max_window_us ≤ℤ b.ts_us)
        × (b.ts_us <ℤ l.ts_us)
        × (e.cfg.min_window_us ≤ℤ sub64 l.ts_us b.ts_us)
  window_oldest l b h w =
      let (last, base, apart, long) = window_found l b w in
      let cutoff = sub64 l.ts_us e.cfg.max_window_us in
      let since = find-holds (λ s. leb_ℤ cutoff s.ts_us) e.samples b base in
      let before =
        find-All (λ p. p.ts_us ≤ℤ l.ts_us) (λ s. leb_ℤ cutoff s.ts_us) e.samples b
          (Increasing-last e.samples l h last) base in
      (
        last,
        find-IsOldestSince cutoff e.samples b h base,
        ground (arith, since),
        ground (arith, before, apart),
        ground (arith, long),
      )
