-- ===== src/State/Depth.antt =====
-- state.rs, `BookDepth`: the four best levels of one side of a book, best first, in four slots.
pub mod Ladder
pub mod Cutoff
use polyrust.Prelude.{Bool, true, false, Option, none, some, List, [], ◌∷◌, if◌then◌else◌}
use polyrust.Prelude.Int.{ℤ, pos, ltb_ℤ, leb_ℤ, eqb_ℤ, ◌+ℤ◌, ◌*ℤ◌}
use polyrust.Prelude.Words.{saturating_add}
use polyrust.Types.{PriceTick}

pub record BookLevel : Type 0 where
  pub price : PriceTick
  pub size_atoms : ℤ

-- `[Option<BookLevel>; 4]`
abbrev pub BookDepth : Type 0
BookDepth = List (Option BookLevel)

abbrev pub empty_depth : BookDepth
empty_depth = none ∷ none ∷ none ∷ none ∷ []

-- `iter_mut().flatten().find(|existing| existing.price == level.price)`, and the size added there.
unfoldable pub has_price : BookLevel → BookDepth → Bool
has_price level [] = false
has_price level (none ∷ r) = has_price level r
has_price level (some x ∷ r) = if eqb_ℤ x.price level.price then true else has_price level r

unfoldable pub merge_level : BookLevel → BookDepth → BookDepth
merge_level level [] = []
merge_level level (none ∷ r) = none ∷ merge_level level r
merge_level level (some x ∷ r) =
    if eqb_ℤ x.price level.price
    then some (record x { size_atoms = saturating_add x.size_atoms level.size_atoms }) ∷ r
    else some x ∷ merge_level level r

abbrev pub should_insert : Bool → BookLevel → Option BookLevel → Bool
should_insert want_bid level none = true
should_insert true level (some x) = ltb_ℤ x.price level.price
should_insert false level (some x) = ltb_ℤ level.price x.price

-- The slots after an insertion: each takes the level before it, and the last one is lost.
unfoldable pub shift_slots : Option BookLevel → BookDepth → BookDepth
shift_slots s [] = []
shift_slots s (x ∷ r) = s ∷ shift_slots x r

unfoldable pub place_level : Bool → BookLevel → BookDepth → BookDepth
place_level want_bid level [] = []
place_level want_bid level (s ∷ r) =
    if should_insert want_bid level s
    then some level ∷ shift_slots s r
    else s ∷ place_level want_bid level r

-- `BookDepth::insert`.
unfoldable pub insert_level : Bool → BookLevel → BookDepth → BookDepth
insert_level want_bid level depth =
    if has_price level depth then merge_level level depth else place_level want_bid level depth

-- The loop of `from_levels`.
unfoldable pub add_levels : Bool → BookDepth → List BookLevel → BookDepth
add_levels want_bid depth [] = depth
add_levels want_bid depth (l ∷ ls) =
    add_levels want_bid
      (if ltb_ℤ (pos 0) l.size_atoms then insert_level want_bid l depth else depth) ls

unfoldable pub from_levels : List BookLevel → Bool → BookDepth
from_levels levels want_bid = add_levels want_bid empty_depth levels

abbrev slot_price : Option BookLevel → Option PriceTick
slot_price none = none
slot_price (some x) = some x.price

unfoldable pub best_price : BookDepth → Option PriceTick
best_price [] = none
best_price (s ∷ r) = slot_price s

-- The loop of `cutoff_for_buy_cents`. The total is an i128, which four products of an i32 and an i64
-- cannot overflow.
unfoldable pub cutoff_from : ℤ → ℤ → BookDepth → Option PriceTick
cutoff_from target total [] = none
cutoff_from target total (none ∷ r) = cutoff_from target total r
cutoff_from target total (some x ∷ r) =
    let total' = total +ℤ x.price *ℤ x.size_atoms in
    let rest = cutoff_from target total' r in if leb_ℤ target total' then some x.price else rest

unfoldable pub cutoff_for_buy_cents : BookDepth → ℤ → Option PriceTick
cutoff_for_buy_cents depth target_cents =
    if leb_ℤ target_cents (pos 0)
    then none
    else cutoff_from (target_cents *ℤ pos 1_000_000) (pos 0) depth
