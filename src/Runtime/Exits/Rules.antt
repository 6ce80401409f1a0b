-- ===== src/Runtime/Exits/Rules.antt =====
-- When the exits of runtime.rs sell, and what they ask for.
use polyrust.Prelude.{
  ◌≡◌, Bool, true, Option, none, some, arith, ◌⊎◌, ◌^◌, ◌≤◌, ◌*◌, ◌/◌, ◌<◌, refl, ℕ,
}
use polyrust.Prelude.Int.{ℤ, pos, ◌≤ℤ◌, ◌<ℤ◌, ◌-ℤ◌, ◌*ℤ◌, tdiv, ediv, -ℤ_parts}
use polyrust.Prelude.Words.{wrap32, wrap64, wrap32_self, wrap64_self, mul64}
use polyrust.Types.{TokenId, PriceTick, checked}
use polyrust.Orders.{canonical_sell_params, floor_from_shares4}
use polyrust.Inventory.{Inventory, position, owned_atoms, sellable, PositionView}
use polyrust.State.{RuntimeState}
use polyrust.Runtime.{RuntimeCore, ExitTracker}
use polyrust.Runtime.Exits.{
  SellPlan, plan_sell_at_bid, sell_plan, bid_of, exit_reason, supports_hold, value_exit,
  boundary_exit,
}

-- A position is not sold while the model values it above the bid by more than the exit edge and
-- does not oppose it.
supported_position_held :
    (c : RuntimeCore) (t : ExitTracker) (bid : PriceTick) (fair : Option ℤ) (opposes : Option Bool)
    (hold_us : ℤ)
    → supports_hold c bid fair opposes ≡ true
    → exit_reason c t bid fair opposes hold_us ≡ none
unfolding exit_reason supports_hold value_exit boundary_exit
supported_position_held c t bid none opposes hold_us h = absurd (ground arith)
supported_position_held c t bid (some f) none hold_us h = ground arith
supported_position_held c t bid (some f) (some b) hold_us h = ground arith

pub sell_size : (n : ℕ) → n ≤ 10 ^ 16 → ediv (mul64 (pos n) (pos 100)) 100 ≡ pos n
unfolding ediv ◌*ℤ◌
sell_size n h =
    let w : wrap64 (pos (n * 100)) ≡ pos (n * 100) = wrap64_self (pos (n * 100)) (ground arith) in
    rw w (ground arith)

-- The plan of a position, its bid and slippage in the range of prices.
sell_plan_lem :
    (token : TokenId) (bid : PriceTick) (p : PositionView) (slip : ℤ) (plan : SellPlan) (n : ℕ)
    → pos 0 ≤ℤ bid
    → bid ≤ℤ pos 99
    → pos 0 ≤ℤ slip
    → slip ≤ℤ pos 99
    → n ≤ 10 ^ 16
    → p.sellable ≡ pos n
    → sell_plan token bid p slip ≡ some plan
    → (plan.token ≡ token)
      × (plan.size ≡ p.sellable)
      × (pos 0 <ℤ plan.size)
      × (pos 1 ≤ℤ plan.price)
      × ((plan.price ≤ℤ bid) ⊎ (plan.price ≡ pos 1))
unfolding sell_plan checked canonical_sell_params floor_from_shares4
sell_plan_lem token bid p slip plan n b0 b1 s0 s1 z same e =
    let w : wrap32 (bid -ℤ slip) ≡ bid -ℤ slip =
      wrap32_self (bid -ℤ slip) (ground (arith, -ℤ_parts bid slip)) in
    ground (arith, w, same, -ℤ_parts bid slip, sell_size n z)

pub sellable_whole :
    (inv : Inventory) (token : TokenId) (a : ℕ)
    → owned_atoms inv token ≡ pos a
    → sellable inv token ≡ pos (a / 10_000)
unfolding owned_atoms sellable tdiv
sellable_whole inv token a own = rw own refl

sellable_units :
    (inv : Inventory) (token : TokenId) (a : ℕ)
    → owned_atoms inv token ≡ pos a
    → (n : ℕ) × (sellable inv token ≡ pos n) × (n * 10_000 ≤ a)
unfolding owned_atoms sellable tdiv
sellable_units inv token a own = (a / 10_000, rw own refl, omega arith)

-- A planned SELL is of the whole sellable part of the position, which is positive and no more than
-- what is owned; its limit is at least one tick, and not above the bid but for one tick. Bid and
-- slippage are from 0 to 99 and the balance is below 2^63.
pub sell_plan_sound :
    (token : TokenId) (s : RuntimeState) (inv : Inventory) (slip : ℤ) (bid : PriceTick) (a : ℕ)
    (plan : SellPlan)
    → bid_of s token ≡ some bid
    → pos 0 ≤ℤ bid
    → bid ≤ℤ pos 99
    → pos 0 ≤ℤ slip
    → slip ≤ℤ pos 99
    → owned_atoms inv token ≡ pos a
    → a < 2 ^ 63
    → plan_sell_at_bid token s inv slip ≡ some plan
    → (plan.token ≡ token)
      × (plan.size ≡ sellable inv token)
      × (pos 0 <ℤ plan.size)
      × (plan.size *ℤ pos 10_000 ≤ℤ owned_atoms inv token)
      × (pos 1 ≤ℤ plan.price)
      × ((plan.price ≤ℤ bid) ⊎ (plan.price ≡ pos 1))
unfolding plan_sell_at_bid position ◌*ℤ◌
sell_plan_sound token s inv slip bid a plan eb b0 b1 s0 s1 own small e =
    let view : PositionView = record {
      owned_atoms = owned_atoms inv token;
      sellable = sellable inv token;
    } in
    let (n, same, fits) = sellable_units inv token a own in
    let r =
      sell_plan_lem token bid view slip plan n b0 b1 s0 s1 (omega arith) same
        (ground (arith, eb)) in
    (r.0, r.1, r.2, (rw (r.1, same, own) (omega arith)), r.3, r.4)
