-- ===== src/Market/Best.antt =====
-- The two ways in which a book's best price is found agree: the scan of market.rs over the levels, and
-- the first slot of the depth of state.rs.
use polyrust.Prelude.{
  ◌≡◌, refl, Bool, true, false, Bool-cases, inl, inr, Option, none, some, List, [], ◌∷◌, arith,
  if_both,
}
use polyrust.Prelude.Int.{ℤ, pos, ltb_ℤ, leb_ℤ, eqb_ℤ}
use polyrust.Prelude.Words.{saturating_add}
use polyrust.State.Depth.{
  BookLevel, BookDepth, empty_depth, has_price, merge_level, place_level, insert_level, add_levels,
  from_levels, best_price, should_insert, shift_slots,
}
use polyrust.State.Depth.Ladder.{Better, AllWorse, AllFree, IsLadder, insert-IsLadder}
use polyrust.Market.{best_of, better_of}

has_price-Better :
    (w : Bool) (p : ℤ) (l : BookLevel) (d : BookDepth)
    → AllWorse w p d
    → has_price l d ≡ true
    → Better w p l.price
unfolding has_price
has_price-Better w p l [] h e = cc
has_price-Better w p l (none ∷ r) h e = has_price-Better w p l r h e
has_price-Better true p l (some x ∷ r) (b, h) e = ground (arith, has_price-Better true p l r h)
has_price-Better false p l (some x ∷ r) (b, h) e = ground (arith, has_price-Better false p l r h)

has_price-free : (l : BookLevel) (d : BookDepth) → AllFree d → has_price l d ≡ false
unfolding has_price
has_price-free l [] h = refl
has_price-free l (none ∷ r) h = has_price-free l r h
has_price-free l (some x ∷ r) h = absurd h

-- Inserting a level moves the best price as one turn of the scan does, in a depth with a first slot.
insert-best_price :
    (w : Bool) (l : BookLevel) (s : Option BookLevel) (r : BookDepth)
    → IsLadder w (s ∷ r)
    → best_price (insert_level w l (s ∷ r)) ≡ better_of w (best_price (s ∷ r)) l.price
unfolding insert_level best_price merge_level place_level has_price
insert-best_price w l none r h = rw (has_price-free l r h) refl
insert-best_price true l (some x) r (b, h) = ground (arith, has_price-Better true x.price l r b)
insert-best_price false l (some x) r (b, h) = ground (arith, has_price-Better false x.price l r b)

abbrev HasSlot : BookDepth → Type 0
HasSlot [] = ⊥
HasSlot (s ∷ r) = Unit

insert-HasSlot :
    (w : Bool) (l : BookLevel) (d : BookDepth) → HasSlot d → HasSlot (insert_level w l d)
unfolding insert_level merge_level place_level
insert-HasSlot w l [] h = absurd h
insert-HasSlot w l (none ∷ r) h =
    if_both HasSlot (has_price l (none ∷ r)) (none ∷ merge_level l r) (place_level w l (none ∷ r))
      tt tt
insert-HasSlot w l (some x ∷ r) h =
    if_both HasSlot (has_price l (some x ∷ r)) (merge_level l (some x ∷ r))
      (place_level w l (some x ∷ r))
      (if_both HasSlot (eqb_ℤ x.price l.price)
        (some (record x { size_atoms = saturating_add x.size_atoms l.size_atoms }) ∷ r)
        (some x ∷ merge_level l r) tt tt)
      (if_both HasSlot (should_insert w l (some x)) (some l ∷ shift_slots (some x) r)
        (some x ∷ place_level w l r) tt tt)

add_levels-best_price :
    (w : Bool) (ls : List BookLevel) (d : BookDepth)
    → HasSlot d
    → IsLadder w d
    → best_price (add_levels w d ls) ≡ best_of w (best_price d) ls
unfolding add_levels best_of
add_levels-best_price w [] d h k = refl
add_levels-best_price w (l ∷ ls) [] h k = absurd h
add_levels-best_price w (l ∷ ls) (s ∷ r) h k = elim (Bool-cases (ltb_ℤ (pos 0) l.size_atoms)) [
  | inl some_left ↦
      let counted : leb_ℤ l.size_atoms (pos 0) ≡ false = ground (arith, some_left) in
      rw (some_left, counted, ← insert-best_price w l s r k)
        (add_levels-best_price w ls (insert_level w l (s ∷ r)) (insert-HasSlot w l (s ∷ r) h)
          (insert-IsLadder w l (s ∷ r) k))
  | inr none_left ↦
      let skipped : leb_ℤ l.size_atoms (pos 0) ≡ true = ground (arith, none_left) in
      rw (none_left, skipped) (add_levels-best_price w ls (s ∷ r) h k)
]

-- The first slot of the depth of a list of levels has the price that the scan of the market parser
-- finds: the best of the levels with a size above zero.
pub best_price-from_levels :
    (ls : List BookLevel) (want_bid : Bool)
    → best_price (from_levels ls want_bid) ≡ best_of want_bid none ls
unfolding from_levels best_price
best_price-from_levels ls want_bid = add_levels-best_price want_bid ls empty_depth tt tt
