-- ===== src/State/Rings.antt =====
-- The bounded quote history of state.rs, `QuoteRing`.
use polyrust.Prelude.{
  ℕ, zero, suc, ◌+◌, ◌-◌, ◌≤◌, ◌≡◌, refl, ap, Bool-cases, inl, inr, List, [], ◌∷◌, ◌++◌, length,
  length-append, leb, arith,
}
use polyrust.State.{QuoteRing, QuoteHistorySample, pop_to_cap, push_ring}

abbrev pub drop {ℓ} : {A : Type ℓ} → ℕ → List A → List A
drop n [] = []
drop zero (x ∷ r) = x ∷ r
drop (suc n) (x ∷ r) = drop n r

drop_zero {ℓ} : {A : Type ℓ} (r : List A) → drop 0 r ≡ r
drop_zero [] = refl
drop_zero (x ∷ r) = refl

drop-append {ℓ} :
    {A : Type ℓ} (n : ℕ) (xs ys : List A) → n ≤ length xs → drop n (xs ++ ys) ≡ drop n xs ++ ys
drop-append n [] ys h = (rw (the-zero) (drop_zero ys))
  where
    the-zero : n ≡ 0
    the-zero = omega arith
drop-append zero (x ∷ xs) ys h = refl
drop-append (suc n) (x ∷ xs) ys h = drop-append n xs ys (omega arith)

pop_to_cap-drop {ℓ} :
    {A : Type ℓ} (cap : ℕ) (r : List A) → 1 ≤ cap → pop_to_cap cap r ≡ drop (length r + 1 - cap) r
unfolding pop_to_cap
pop_to_cap-drop cap [] h = refl
pop_to_cap-drop cap (x ∷ r) h = elim (Bool-cases (leb cap (length (x ∷ r)))) [
  | inl full ↦
      let shift : length (x ∷ r) + 1 - cap ≡ suc (length r + 1 - cap) = ground arith in
      rw (full, shift) (pop_to_cap-drop cap r h)
  | inr free ↦
      let none_left : length (x ∷ r) + 1 - cap ≡ 0 = ground arith in rw (free, none_left) refl
]

-- Making room and adding an entry leaves the newest entries.
pub pop_to_cap-newest {ℓ} :
    {A : Type ℓ} (cap : ℕ) (r : List A) (a : A)
    → 1 ≤ cap
    → pop_to_cap cap r ++ a ∷ [] ≡ drop (length (r ++ a ∷ []) - cap) (r ++ a ∷ [])
pop_to_cap-newest cap r a h =
    let n : length (r ++ a ∷ []) - cap ≡ length r + 1 - cap =
      ap (λ (k : ℕ). k - cap) (length-append r (a ∷ [])) in
    rw (n, pop_to_cap-drop cap r h, drop-append (length r + 1 - cap) r (a ∷ []) (omega arith)) refl

-- A push leaves the newest 64 samples of the ring with the new one at its end, in their order.
pub push_ring_newest :
    (ring : QuoteRing) (sample : QuoteHistorySample)
    → push_ring ring sample ≡ drop (length (ring ++ sample ∷ []) - 64) (ring ++ sample ∷ [])
unfolding push_ring
push_ring_newest ring sample = pop_to_cap-newest 64 ring sample (omega arith)
