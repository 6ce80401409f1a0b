-- ===== src/Anchor/Held.antt =====
-- The samples that the buffer of anchor.rs holds.
use polyrust.Prelude.{
  ◌≡◌, ◌⊎◌, refl, true, false, not, ◌||◌, Bool-cases, inl, inr, List, [], ◌∷◌, ◌++◌, All,
  append-All, arith,
}
use polyrust.Prelude.Int.{ℤ, ◌≤ℤ◌, ◌<ℤ◌, leb_ℤ, ltb_ℤ}
use polyrust.Prelude.Words.{saturating_sub}
use polyrust.Prelude.Float.{F64, zero_f}
use polyrust.Prelude.Result.{Run, done, panic}
use polyrust.Anchor.{
  AnchorBuffer, AnchorResult, anchor_buffer_horizon_us, drop_older, new, trim, push, set_pending,
  try_resolve, chosen_samples, median,
}

-- Each sample is later than those before it.
abbrev pub Ascending : {N : Type 0} → List (ℤ × N) → Type 0
Ascending [] = Unit
Ascending (s ∷ rest) = All (λ t. s.0 <ℤ t.0) rest × Ascending rest

module _ {N : Type 0} where
  drop_older-Ascending :
      (cutoff : ℤ) (l : List (ℤ × N)) → Ascending l → Ascending (drop_older cutoff l)
  unfolding drop_older
  drop_older-Ascending cutoff [] h = tt
  drop_older-Ascending cutoff (s ∷ l) h = elim (Bool-cases (ltb_ℤ s.0 cutoff)) [
    | inl old ↦ rw old (drop_older-Ascending cutoff l h.1)
    | inr kept ↦ rw kept h
  ]

  append-Ascending :
      (l : List (ℤ × N)) (s : ℤ × N)
      → All (λ t. t.0 <ℤ s.0) l
      → Ascending l
      → Ascending (l ++ s ∷ [])
  append-Ascending [] s before h = (tt, tt)
  append-Ascending (t ∷ l) s before h =
      (append-All (λ u. t.0 <ℤ u.0) l s h.0 before.0, append-Ascending l s before.1 h.1)

  map-All :
      (P Q : ℤ × N → Type 0) (l : List (ℤ × N)) → ((s : ℤ × N) → P s → Q s) → All P l → All Q l
  map-All P Q [] g h = tt
  map-All P Q (s ∷ l) g h = (g s h.0, map-All P Q l g h.1)

  both-All : (P Q : ℤ × N → Type 0) (l : List (ℤ × N)) → All P l → All Q l → All (λ s. P s × Q s) l
  both-All P Q [] h k = tt
  both-All P Q (s ∷ l) h k = ((h.0, k.0), both-All P Q l h.1 k.1)

  -- Where the samples ascend, the first one that is new enough ends the search.
  drop_older-All :
      (P : ℤ × N → Type 0) (cutoff : ℤ) (l : List (ℤ × N))
      → Ascending l
      → All P l
      → All (λ s. (cutoff ≤ℤ s.0) × P s) (drop_older cutoff l)
  unfolding drop_older
  drop_older-All P cutoff [] h k = tt
  drop_older-All P cutoff (s ∷ l) h k = elim (Bool-cases (ltb_ℤ s.0 cutoff)) [
    | inl old ↦ rw old (drop_older-All P cutoff l h.1 k.1)
    | inr kept ↦ rw kept (
      (ground arith, k.0),
      both-All (λ t. cutoff ≤ℤ t.0) P l
          (map-All (λ t. s.0 <ℤ t.0) (λ t. cutoff ≤ℤ t.0) l (λ t later. ground arith) h.0) k.1,
    )
  ]

Run-cases : {A : Type 0} (m : Run A) → (m ≡ panic) ⊎ ((a : A) × (m ≡ done a))
Run-cases panic = inl refl
Run-cases (done a) = inr (a, refl)

module _ (f : F64) where
  abbrev IsSeen : ℤ → ℤ × f.Num → Type 0
  IsSeen last s = (s.0 ≤ℤ last) × (f.is_finite s.1 ≡ true) × (f.le s.1 (zero_f f) ≡ false)

  -- The samples ascend, reach at most ten seconds back, and have usable prices.
  abbrev pub IsHeld : AnchorBuffer f.Num → Type 0
  IsHeld b =
      Ascending b.samples
      × All
          (λ s.
            (saturating_sub b.max_ts_seen anchor_buffer_horizon_us ≤ℤ s.0) × IsSeen b.max_ts_seen s)
          b.samples

  pub data Step : AnchorBuffer f.Num → AnchorBuffer f.Num → Type 0 where
    pushes :
        (b : AnchorBuffer f.Num) (ts_us : ℤ) (bid ask bid_qty ask_qty : f.Num)
        → Step b (push f b ts_us bid ask bid_qty ask_qty)
    sets : (b : AnchorBuffer f.Num) (slug_ts : ℤ) → Step b (set_pending f b slug_ts)
    tries :
        (b b' : AnchorBuffer f.Num) (now_us : ℤ) (r : AnchorResult f.Num)
        → try_resolve f b now_us ≡ done (b', r)
        → Step b b'

  pub data Reach : AnchorBuffer f.Num → Type 0 where
    start : Reach (new f)
    next : (b b' : AnchorBuffer f.Num) → Reach b → Step b b' → Reach b'

  abbrev IsKept : ℤ → ℤ × f.Num → Type 0
  IsKept last s = (saturating_sub last anchor_buffer_horizon_us ≤ℤ s.0) × IsSeen last s

  take_in-IsHeld :
      (b : AnchorBuffer f.Num) (s : ℤ × f.Num)
      → b.max_ts_seen <ℤ s.0
      → f.is_finite s.1 ≡ true
      → f.le s.1 (zero_f f) ≡ false
      → IsHeld b
      → IsHeld (trim f (record b { max_ts_seen = s.0; samples = b.samples ++ s ∷ [] }))
  unfolding trim
  take_in-IsHeld b s later finite positive (order, held) =
      let all = b.samples ++ s ∷ [] in
      let cutoff = saturating_sub s.0 anchor_buffer_horizon_us in
      let before =
        map-All (IsKept b.max_ts_seen) (λ t. t.0 <ℤ s.0) b.samples
          (λ t h. ground (arith, later, h.1.0)) held in
      let still =
        map-All (IsKept b.max_ts_seen) (IsSeen s.0) b.samples
          (λ t h. (ground (arith, later, h.1.0), h.1.1, h.1.2)) held in
      let grown = append-Ascending b.samples s before order in
      let seen = append-All (IsSeen s.0) b.samples s still (omega arith, finite, positive) in
      (drop_older-Ascending cutoff all grown, drop_older-All (IsSeen s.0) cutoff all grown seen)

  push-IsHeld :
      (b : AnchorBuffer f.Num) (ts_us : ℤ) (bid ask bid_qty ask_qty : f.Num)
      → IsHeld b
      → IsHeld (push f b ts_us bid ask bid_qty ask_qty)
  unfolding push
  push-IsHeld b ts_us bid ask bid_qty ask_qty h =
      let denom = f.add bid_qty ask_qty in
      let microprice = f.div (f.add (f.mul bid ask_qty) (f.mul ask bid_qty)) denom in
      elim (Bool-cases (f.le denom (zero_f f) || not (f.is_finite denom))) [
        | inl no_size ↦ rw no_size h
        | inr sized ↦
            elim (Bool-cases (not (f.is_finite microprice) || f.le microprice (zero_f f))) [
              | inl no_price ↦ rw (sized, no_price) h
              | inr priced ↦ elim (Bool-cases (leb_ℤ ts_us b.max_ts_seen)) [
                | inl late ↦ rw (sized, priced, late) h
                | inr later ↦
                    rw (sized, priced, later)
                      (take_in-IsHeld b (ts_us, microprice) (ground (arith, later))
                        (ground (arith, priced)) (ground (arith, priced)) h)
              ]
            ]
      ]

  -- An attempt changes no sample.
  try_resolve-keeps :
      (b b' : AnchorBuffer f.Num) (now_us : ℤ) (r : AnchorResult f.Num)
      → try_resolve f b now_us ≡ done (b', r)
      → (b'.samples ≡ b.samples) × (b'.max_ts_seen ≡ b.max_ts_seen)
  unfolding try_resolve
  try_resolve-keeps b b' now_us r e = elim (Run-cases (median f (chosen_samples b now_us))) [
    | inl stops ↦ (ground (arith, e, stops), ground (arith, e, stops))
    | inr (k, found) ↦ (ground (arith, e, found), ground (arith, e, found))
  ]

  Step-IsHeld : (b b' : AnchorBuffer f.Num) → Step b b' → IsHeld b → IsHeld b'
  unfolding set_pending
  Step-IsHeld b b' (Step.pushes b₀ ts_us bid ask bid_qty ask_qty) h =
      push-IsHeld b ts_us bid ask bid_qty ask_qty h
  Step-IsHeld b b' (Step.sets b₀ slug_ts) h = h
  Step-IsHeld b b' (Step.tries _ _ now_us r e) h =
      let (same, last) = try_resolve-keeps b b' now_us r e in rw (same, last) h

  -- Whatever ticks, targets and attempts come, the samples of the buffer ascend strictly in time,
  -- lie at most ten seconds before the newest time, and have prices that are finite and not at most
  -- zero.
  pub reached_buffer-IsHeld : (b : AnchorBuffer f.Num) → Reach b → IsHeld b
  unfolding new
  reached_buffer-IsHeld b Reach.start = (tt, tt)
  reached_buffer-IsHeld b (Reach.next a _ r s) = Step-IsHeld a b s (reached_buffer-IsHeld a r)
