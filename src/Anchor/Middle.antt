-- ===== src/Anchor/Middle.antt =====
-- The median of anchor.rs: the numbers in order, and the middle of them.
use mathlib.Core.List.{Permᴰ}
use mathlib.Core.List.Permᴰ
use polyrust.Prelude.{
  ℕ, zero, suc, ◌≡◌, refl, ◌∙◌, ap, ◌<◌, ◌≤◌, ◌/◌, ◌%◌, ◌-◌, ◌==◌, true, false, Bool-cases, inl,
  inr, some, List, [], ◌∷◌, length, get_elem?, if◌then◌else◌, arith,
}
use polyrust.Prelude.Float.{F64, IsF64}
use polyrust.Prelude.Result.{done}
use polyrust.Anchor.{insert_sorted, sort, median, mean}

module _ (f : F64) where
  abbrev pub Follows : f.Num → List f.Num → Type 0
  Follows a [] = Unit
  Follows a (b ∷ rest) = f.lt b a ≡ false

  -- No number is below the one before it.
  abbrev pub IsAscending : List f.Num → Type 0
  IsAscending [] = Unit
  IsAscending (a ∷ rest) = Follows a rest × IsAscending rest

  insert_sorted-Perm : (a : f.Num) (l : List f.Num) → Permᴰ (insert_sorted f a l) (a ∷ l)
  unfolding insert_sorted
  insert_sorted-Perm a [] = Permᴰ.refl (a ∷ [])
  insert_sorted-Perm a (b ∷ rest) = elim (Bool-cases (f.lt b a)) [
    | inl below ↦
        rw below (Permᴰ.trans (Permᴰ.cons refl (insert_sorted-Perm a rest)) (Permᴰ.swap refl refl))
    | inr above ↦ rw above (Permᴰ.refl (a ∷ b ∷ rest))
  ]

  pub sort-Perm : (l : List f.Num) → Permᴰ (sort f l) l
  unfolding sort
  sort-Perm [] = Permᴰ.nil
  sort-Perm (a ∷ rest) =
      Permᴰ.trans (insert_sorted-Perm a (sort f rest)) (Permᴰ.cons refl (sort-Perm rest))

  insert_sorted-Follows :
      (a b : f.Num) (l : List f.Num)
      → f.lt a b ≡ false
      → Follows b l
      → Follows b (insert_sorted f a l)
  unfolding insert_sorted
  insert_sorted-Follows a b [] h h' = h
  insert_sorted-Follows a b (c ∷ rest) h h' = elim (Bool-cases (f.lt c a)) [
    | inl below ↦ rw below h'
    | inr above ↦ rw above h
  ]

  insert_sorted-IsAscending :
      (laws : IsF64 f) (a : f.Num) (l : List f.Num)
      → IsAscending l
      → IsAscending (insert_sorted f a l)
  unfolding insert_sorted
  insert_sorted-IsAscending laws a [] h = (tt, tt)
  insert_sorted-IsAscending laws a (b ∷ rest) h = elim (Bool-cases (f.lt b a)) [
    | inl below ↦ rw below (
      insert_sorted-Follows a b rest (laws.lt_asym b a below) h.0,
      insert_sorted-IsAscending laws a rest h.1,
    )
    | inr above ↦ rw above (above, h)
  ]

  pub sort-IsAscending : (laws : IsF64 f) (l : List f.Num) → IsAscending (sort f l)
  unfolding sort
  sort-IsAscending laws [] = tt
  sort-IsAscending laws (a ∷ rest) =
      insert_sorted-IsAscending laws a (sort f rest) (sort-IsAscending laws rest)

  insert_sorted-length :
      (a : f.Num) (l : List f.Num) → length (insert_sorted f a l) ≡ suc (length l)
  unfolding insert_sorted
  insert_sorted-length a [] = refl
  insert_sorted-length a (b ∷ rest) = elim (Bool-cases (f.lt b a)) [
    | inl below ↦ rw below (ap suc (insert_sorted-length a rest))
    | inr above ↦ rw above refl
  ]

  pub length-sort : (l : List f.Num) → length (sort f l) ≡ length l
  unfolding sort
  length-sort [] = refl
  length-sort (a ∷ rest) = insert_sorted-length a (sort f rest) ∙ ap suc (length-sort rest)

  -- The element at the middle, or the mean of the two that are next to it.
  abbrev pub IsMiddle : List f.Num → f.Num → Type 0
  IsMiddle l k =
      if length l % 2 == 1
      then get_elem? l (length l / 2) ≡ some k
      else (a : f.Num) × (b : f.Num) × (get_elem? l (length l / 2 - 1) ≡ some a)
        × (get_elem? l (length l / 2) ≡ some b)
        × (k ≡ mean f a b)

  abbrev pub IsMedian : List f.Num → f.Num → Type 0
  IsMedian vals k = (l : List f.Num) × Permᴰ l vals × IsAscending l × IsMiddle l k

  get_elem?-some : (l : List f.Num) (i : ℕ) → i < length l → (a : f.Num) × (get_elem? l i ≡ some a)
  get_elem?-some [] i h = absurd (omega arith)
  get_elem?-some (a ∷ l) zero h = (a, refl)
  get_elem?-some (a ∷ l) (suc i) h = get_elem?-some l i (omega arith)

  median_odd :
      (vals : List f.Num) (b : f.Num)
      → (length (sort f vals) % 2 == 1) ≡ true
      → get_elem? (sort f vals) (length (sort f vals) / 2) ≡ some b
      → median f vals ≡ done b
  unfolding median
  median_odd vals b odd at_b = ground (arith, odd, at_b)

  median_even :
      (vals : List f.Num) (a b : f.Num)
      → (length (sort f vals) % 2 == 1) ≡ false
      → get_elem? (sort f vals) (length (sort f vals) / 2 - 1) ≡ some a
      → get_elem? (sort f vals) (length (sort f vals) / 2) ≡ some b
      → median f vals ≡ done (mean f a b)
  unfolding median
  median_even vals a b even at_a at_b = ground (arith, even, at_a, at_b)

  pub median-IsMedian :
      (laws : IsF64 f) (vals : List f.Num)
      → 1 ≤ length vals
      → (k : f.Num) × (median f vals ≡ done k) × IsMedian vals k
  median-IsMedian laws vals some_vals =
      let n = length-sort vals in
      let l = sort f vals in
      let (b, at_b) = get_elem?-some l (length l / 2) (ground (arith, n)) in
      elim (Bool-cases (length l % 2 == 1)) [
        | inl odd ↦ (
          b,
          median_odd vals b odd at_b,
          (l, sort-Perm vals, sort-IsAscending laws vals, rw odd at_b),
        )
        | inr even ↦
            let (a, at_a) = get_elem?-some l (length l / 2 - 1) (ground (arith, n)) in
            (
              mean f a b,
              median_even vals a b even at_a at_b,
              (l, sort-Perm vals, sort-IsAscending laws vals, rw even (a, b, at_a, at_b, refl)),
            )
      ]
