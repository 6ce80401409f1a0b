-- ===== src/State/Depth/Ladder.antt =====
-- The slots of a book side in state.rs: the order that insertion keeps, the best price, and the
-- price up to which a BUY has to reach.
use polyrust.Prelude.{
  ◌≡◌, Bool, true, false, Option, none, some, List, [], ◌∷◌, arith, Bool-cases, if_both, inl, inr,
  if◌then◌else◌,
}
use polyrust.Prelude.Int.{ℤ, pos, eqb_ℤ, ltb_ℤ, ◌<ℤ◌}
use polyrust.Prelude.Words.{saturating_add}
use polyrust.State.Depth.{
  BookLevel, BookDepth, empty_depth, has_price, merge_level, should_insert, shift_slots,
  place_level, insert_level, add_levels, from_levels,
}

-- A bid is better above another, an ask below it.
abbrev pub Better : Bool → ℤ → ℤ → Type 0
Better true a b = b <ℤ a
Better false a b = a <ℤ b

abbrev pub AllFree : BookDepth → Type 0
AllFree [] = Unit
AllFree (none ∷ r) = AllFree r
AllFree (some _ ∷ r) = ⊥

-- Every taken slot is worse than the price.
abbrev pub AllWorse : Bool → ℤ → BookDepth → Type 0
AllWorse w p [] = Unit
AllWorse w p (none ∷ r) = AllWorse w p r
AllWorse w p (some x ∷ r) = Better w p x.price × AllWorse w p r

-- The taken slots come first, best price first, no price twice.
abbrev pub IsLadder : Bool → BookDepth → Type 0
IsLadder w [] = Unit
IsLadder w (none ∷ r) = AllFree r
IsLadder w (some x ∷ r) = AllWorse w x.price r × IsLadder w r

AllWorse-free : (w : Bool) (p : ℤ) (d : BookDepth) → AllFree d → AllWorse w p d
AllWorse-free w p [] h = tt
AllWorse-free w p (none ∷ r) h = AllWorse-free w p r h
AllWorse-free w p (some x ∷ r) h = absurd h

Better-trans : (w : Bool) (a b c : ℤ) → Better w a b → Better w b c → Better w a c
Better-trans true a b c h k = omega arith
Better-trans false a b c h k = omega arith

AllWorse-trans :
    (w : Bool) (p q : ℤ) (d : BookDepth) → Better w p q → AllWorse w q d → AllWorse w p d
AllWorse-trans w p q [] h k = tt
AllWorse-trans w p q (none ∷ r) h k = AllWorse-trans w p q r h k
AllWorse-trans w p q (some x ∷ r) h (b, k) =
    (Better-trans w p q x.price h b, AllWorse-trans w p q r h k)

AllWorse-shift :
    (w : Bool) (p : ℤ) (s : Option BookLevel) (r : BookDepth)
    → AllWorse w p (s ∷ r)
    → AllWorse w p (shift_slots s r)
unfolding shift_slots
AllWorse-shift w p s [] h = tt
AllWorse-shift w p none (x ∷ r) h = AllWorse-shift w p x r h
AllWorse-shift w p (some y) (x ∷ r) (b, h) = (b, AllWorse-shift w p x r h)

AllFree-shift : (r : BookDepth) → AllFree r → AllFree (shift_slots none r)
unfolding shift_slots
AllFree-shift [] h = tt
AllFree-shift (none ∷ r) h = AllFree-shift r h
AllFree-shift (some x ∷ r) h = absurd h

IsLadder-shift :
    (w : Bool) (s : Option BookLevel) (r : BookDepth)
    → IsLadder w (s ∷ r)
    → IsLadder w (shift_slots s r)
unfolding shift_slots
IsLadder-shift w s [] h = tt
IsLadder-shift w none (none ∷ r) h = AllFree-shift r h
IsLadder-shift w none (some x ∷ r) h = absurd h
IsLadder-shift w (some y) (x ∷ r) (b, h) = (AllWorse-shift w y.price x r b, IsLadder-shift w x r h)

AllFree-shift-IsLadder : (w : Bool) (r : BookDepth) → AllFree r → IsLadder w (shift_slots none r)
unfolding shift_slots
AllFree-shift-IsLadder w [] h = tt
AllFree-shift-IsLadder w (none ∷ r) h = AllFree-shift r h
AllFree-shift-IsLadder w (some x ∷ r) h = absurd h

-- Merging a level changes no price.
merge-AllWorse :
    (w : Bool) (p : ℤ) (l : BookLevel) (d : BookDepth)
    → AllWorse w p d
    → AllWorse w p (merge_level l d)
unfolding merge_level
merge-AllWorse w p l [] h = tt
merge-AllWorse w p l (none ∷ r) h = merge-AllWorse w p l r h
merge-AllWorse w p l (some x ∷ r) (b, h) =
    if_both (AllWorse w p) (eqb_ℤ x.price l.price)
      (some (record x { size_atoms = saturating_add x.size_atoms l.size_atoms }) ∷ r)
      (some x ∷ merge_level l r) (b, h) (b, merge-AllWorse w p l r h)

merge-AllFree : (l : BookLevel) (d : BookDepth) → AllFree d → AllFree (merge_level l d)
unfolding merge_level
merge-AllFree l [] h = tt
merge-AllFree l (none ∷ r) h = merge-AllFree l r h
merge-AllFree l (some x ∷ r) h = absurd h

merge-IsLadder :
    (w : Bool) (l : BookLevel) (d : BookDepth) → IsLadder w d → IsLadder w (merge_level l d)
unfolding merge_level
merge-IsLadder w l [] h = tt
merge-IsLadder w l (none ∷ r) h = merge-AllFree l r h
merge-IsLadder w l (some x ∷ r) (b, h) =
    if_both (IsLadder w) (eqb_ℤ x.price l.price)
      (some (record x { size_atoms = saturating_add x.size_atoms l.size_atoms }) ∷ r)
      (some x ∷ merge_level l r) (b, h) (merge-AllWorse w x.price l r b, merge-IsLadder w l r h)

-- Placing a level that no slot has the price of keeps what is worse than a better price.
place-AllWorse :
    (w : Bool) (p : ℤ) (l : BookLevel) (d : BookDepth)
    → Better w p l.price
    → AllWorse w p d
    → AllWorse w p (place_level w l d)
unfolding place_level
place-AllWorse w p l [] b h = tt
place-AllWorse w p l (none ∷ r) b h = (b, AllWorse-shift w p none r h)
place-AllWorse w p l (some x ∷ r) b h =
    if_both (AllWorse w p) (should_insert w l (some x)) (some l ∷ shift_slots (some x) r)
      (some x ∷ place_level w l r) (b, AllWorse-shift w p (some x) r h)
      (h.0, place-AllWorse w p l r b h.1)

-- Where the slot is not worse than the level and has another price, it is better.
slot-Better :
    (w : Bool) (l x : BookLevel)
    → should_insert w l (some x) ≡ false
    → eqb_ℤ x.price l.price ≡ false
    → Better w x.price l.price
slot-Better true l x h n = ground arith
slot-Better false l x h n = ground arith

slot_below :
    (w : Bool) (l x : BookLevel) → should_insert w l (some x) ≡ true → Better w l.price x.price
slot_below true l x h = ground arith
slot_below false l x h = ground arith

place-IsLadder :
    (w : Bool) (l : BookLevel) (d : BookDepth)
    → has_price l d ≡ false
    → IsLadder w d
    → IsLadder w (place_level w l d)
unfolding place_level has_price
place-IsLadder w l [] n h = tt
place-IsLadder w l (none ∷ r) n h =
    (AllWorse-shift w l.price none r (AllWorse-free w l.price r h), AllFree-shift-IsLadder w r h)
place-IsLadder w l (some x ∷ r) n h = elim (Bool-cases (should_insert w l (some x))) [
  | inl goes ↦ rw goes (
    AllWorse-shift w l.price (some x) r
        (slot_below w l x goes, AllWorse-trans w l.price x.price r (slot_below w l x goes) h.0),
    IsLadder-shift w (some x) r h,
  )
  | inr stays ↦ rw stays (
    place-AllWorse w x.price l r (slot-Better w l x stays (ground arith)) h.0,
    place-IsLadder w l r (ground arith) h.1,
  )
]

pub insert-IsLadder :
    (w : Bool) (l : BookLevel) (d : BookDepth) → IsLadder w d → IsLadder w (insert_level w l d)
unfolding insert_level
insert-IsLadder w l d h = elim (Bool-cases (has_price l d)) [
  | inl there ↦ rw there (merge-IsLadder w l d h)
  | inr new ↦ rw new (place-IsLadder w l d new h)
]

add_levels-IsLadder :
    (w : Bool) (ls : List BookLevel) (d : BookDepth) → IsLadder w d → IsLadder w (add_levels w d ls)
unfolding add_levels
add_levels-IsLadder w [] d h = h
add_levels-IsLadder w (l ∷ ls) d h =
    add_levels-IsLadder w ls (if ltb_ℤ (pos 0) l.size_atoms then insert_level w l d else d) (
      if_both (IsLadder w) (ltb_ℤ (pos 0) l.size_atoms) (insert_level w l d) d
        (insert-IsLadder w l d h) h)

-- Whatever levels a book lists, in any order and with prices repeated, the slots have the best
-- price first, no price twice, and the free slots last.
pub from_levels-IsLadder :
    (levels : List BookLevel) (want_bid : Bool) → IsLadder want_bid (from_levels levels want_bid)
unfolding from_levels
from_levels-IsLadder levels want_bid = add_levels-IsLadder want_bid levels empty_depth tt
