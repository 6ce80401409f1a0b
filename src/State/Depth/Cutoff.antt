-- ===== src/State/Depth/Cutoff.antt =====
-- The price up to which a BUY has to reach in the depth of state.rs, `cutoff_for_buy_cents`.
use polyrust.Prelude.{ℕ, ◌<◌, ◌*◌, ◌≡◌, none, some, [], ◌∷◌, arith}
use polyrust.Prelude.Int.{ℤ, pos, ◌≤ℤ◌, ◌<ℤ◌, ◌+ℤ◌, ◌*ℤ◌, +ℤ_parts}
use polyrust.Types.{PriceTick}
use polyrust.State.Depth.{BookDepth, cutoff_from, cutoff_for_buy_cents}

-- What all levels of a depth cost, in cents times a million.
unfoldable pub cost : BookDepth → ℤ
cost [] = pos 0
cost (none ∷ r) = cost r
cost (some x ∷ r) = x.price *ℤ x.size_atoms +ℤ cost r

cutoff_from-none :
    (target total : ℤ) (d : BookDepth)
    → total <ℤ target
    → cutoff_from target total d ≡ none
    → total +ℤ cost d <ℤ target
unfolding cutoff_from cost
cutoff_from-none target total [] h e = ground (arith, +ℤ_parts total (pos 0))
cutoff_from-none target total (none ∷ r) h e = cutoff_from-none target total r h e
cutoff_from-none target total (some x ∷ r) h e =
    let c = x.price *ℤ x.size_atoms in
    ground (
      arith,
      +ℤ_parts total c,
      +ℤ_parts c (cost r),
      +ℤ_parts total (c +ℤ cost r),
      +ℤ_parts (total +ℤ c) (cost r),
      cutoff_from-none target (total +ℤ c) r,
    )

abbrev pub CostsNothingNegative : BookDepth → Type 0
CostsNothingNegative [] = Unit
CostsNothingNegative (none ∷ r) = CostsNothingNegative r
CostsNothingNegative (some x ∷ r) = (pos 0 ≤ℤ x.price *ℤ x.size_atoms) × CostsNothingNegative r

cost_nonneg : (d : BookDepth) → CostsNothingNegative d → pos 0 ≤ℤ cost d
unfolding cost
cost_nonneg [] h = omega arith
cost_nonneg (none ∷ r) h = cost_nonneg r h
cost_nonneg (some x ∷ r) (b, h) =
    ground (arith, +ℤ_parts (x.price *ℤ x.size_atoms) (cost r), cost_nonneg r h)

cutoff_from-some :
    (target total p : ℤ) (d : BookDepth)
    → CostsNothingNegative d
    → cutoff_from target total d ≡ some p
    → target ≤ℤ total +ℤ cost d
unfolding cutoff_from cost
cutoff_from-some target total p [] h e = absurd (ground arith)
cutoff_from-some target total p (none ∷ r) h e = cutoff_from-some target total p r h e
cutoff_from-some target total p (some x ∷ r) (b, h) e =
    let c = x.price *ℤ x.size_atoms in
    ground (
      arith,
      +ℤ_parts total c,
      +ℤ_parts c (cost r),
      +ℤ_parts total (c +ℤ cost r),
      +ℤ_parts (total +ℤ c) (cost r),
      cost_nonneg r h,
      cutoff_from-some target (total +ℤ c) p r h,
    )

-- When no price to reach is found for a positive target, all the levels of the depth cost less than
-- the target.
cutoff_none_uncovered :
    (d : BookDepth) (t : ℕ)
    → 0 < t
    → cutoff_for_buy_cents d (pos t) ≡ none
    → cost d <ℤ pos t *ℤ pos 1_000_000
unfolding cutoff_for_buy_cents ◌*ℤ◌
cutoff_none_uncovered d t h e = ground (
  arith,
  +ℤ_parts (pos 0) (cost d),
  cutoff_from-none (pos (t * 1_000_000)) (pos 0) d (omega arith),
)

-- When a price to reach is found for a target, the levels of the depth cost the target or more,
-- where no level costs less than nothing.
cutoff_some_covered :
    (d : BookDepth) (t : ℕ) (p : PriceTick)
    → CostsNothingNegative d
    → cutoff_for_buy_cents d (pos t) ≡ some p
    → pos t *ℤ pos 1_000_000 ≤ℤ cost d
unfolding cutoff_for_buy_cents ◌*ℤ◌
cutoff_some_covered d t p h e =
    ground (arith, +ℤ_parts (pos 0) (cost d), cutoff_from-some (pos (t * 1_000_000)) (pos 0) p d h)
