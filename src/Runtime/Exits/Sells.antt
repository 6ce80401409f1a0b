-- ===== src/Runtime/Exits/Sells.antt =====
-- What plan_exits of runtime.rs does with a position that has been held for long.
use polyrust.Prelude.{
  ◌≡◌, ◌∙◌, ◌≢◌, Bool, false, [], ◌∷◌, ap, inl, inr, Option-cases, and_then, Option, none, some,
  arith, ◌^◌, ◌≤◌, ◌/◌, ◌<◌, refl, ℕ,
}
use polyrust.Prelude.Int.{ℤ, pos, ◌≤ℤ◌, ◌+ℤ◌, ◌-ℤ◌, max_ℤ, leb_ℤ, +ℤ_parts, -ℤ_parts}
use polyrust.Prelude.Words.{saturating_sub, saturating_mul, sub32, wrap32, wrap32_self, mul64}
use polyrust.Types.{TokenId, OutcomeSide, PriceTick, checked}
use polyrust.Prelude.Result.{ok}
use polyrust.Prelude.Map.{lookup}
use polyrust.Orders.{canonical_sell_params, floor_from_shares4}
use polyrust.Inventory.{Inventory, position, owned_atoms, sellable, PositionView}
use polyrust.State.{RuntimeState, MarketContext}
use polyrust.Runtime.{RuntimeCore, ExitTracker}
use polyrust.Runtime.Exits.{
  SellPlan, plan_sell_at_bid, sell_plan, bid_of, exit_reason, boundary_exit, ExitDecision,
  SignalView, plan_exit, decide_exit, raise_peak,
}
use polyrust.Runtime.Exits.Rules.{sell_size, sellable_whole}

-- A bid and a slippage in the range of prices, and something to sell, are enough for a plan.
limit_checked :
    (bid : PriceTick) (slip : ℤ)
    → pos 0 ≤ℤ bid
    → bid ≤ℤ pos 99
    → pos 0 ≤ℤ slip
    → slip ≤ℤ pos 99
    → checked (max_ℤ (sub32 bid slip) (pos 1)) ≡ ok (max_ℤ (sub32 bid slip) (pos 1))
unfolding checked
limit_checked bid slip b0 b1 s0 s1 =
    let w : wrap32 (bid -ℤ slip) ≡ bid -ℤ slip =
      wrap32_self (bid -ℤ slip) (ground (arith, -ℤ_parts bid slip)) in
    ground (arith, w, -ℤ_parts bid slip)

whole_sale :
    (limit : PriceTick) (units : ℤ) (n : ℕ)
    → n ≤ 10 ^ 16
    → units ≡ pos n
    → canonical_sell_params limit (mul64 units (pos 100)) ≡ (limit, pos n)
unfolding canonical_sell_params floor_from_shares4
whole_sale limit units n z same = rw same (ap (λ (k : ℤ). (limit, k)) (sell_size n z))

sell_plan_made :
    (token : TokenId) (bid : PriceTick) (p : PositionView) (slip : ℤ) (n : ℕ)
    → pos 0 ≤ℤ bid
    → bid ≤ℤ pos 99
    → pos 0 ≤ℤ slip
    → slip ≤ℤ pos 99
    → 1 ≤ n
    → n ≤ 10 ^ 16
    → p.sellable ≡ pos n
    → sell_plan token bid p slip
      ≡ some (record { token = token; price = max_ℤ (sub32 bid slip) (pos 1); size = pos n })
unfolding sell_plan
sell_plan_made token bid p slip n b0 b1 s0 s1 some_left z same =
    let limit = limit_checked bid slip b0 b1 s0 s1 in
    let whole = whole_sale (max_ℤ (sub32 bid slip) (pos 1)) p.sellable n z same in
    let units : leb_ℤ p.sellable (pos 0) ≡ false = ground (arith, same) in
    let sold : leb_ℤ (pos n) (pos 0) ≡ false = ground arith in rw (units, limit, whole, sold) refl

position_there :
    (inv : Inventory) (token : TokenId) (a : ℕ)
    → owned_atoms inv token ≡ pos a
    → 1 ≤ a
    → position inv token
      ≡ some (record { owned_atoms = owned_atoms inv token; sellable = sellable inv token })
unfolding position
position_there inv token a own h =
    let owns : leb_ℤ (owned_atoms inv token) (pos 0) ≡ false = ground (arith, own) in rw owns refl

-- The model does not value the position above the bid by more than the exit edge.
abbrev pub Fades : ℤ → PriceTick → Option ℤ → Type 0
Fades edge bid none = Unit
Fades edge bid (some fair) = fair ≤ℤ bid +ℤ edge

fading_reason :
    (c : RuntimeCore) (t : ExitTracker) (bid : PriceTick) (fair : Option ℤ) (opposes : Option Bool)
    (hold_us : ℤ)
    → pos 0 ≤ℤ bid
    → bid ≤ℤ pos 99
    → pos 0 ≤ℤ c.exit_edge_ticks
    → c.exit_edge_ticks ≤ℤ pos 99
    → c.exit_hold_us ≤ℤ hold_us
    → Fades c.exit_edge_ticks bid fair
    → exit_reason c t bid fair opposes hold_us ≢ none
unfolding exit_reason boundary_exit
fading_reason c t bid none opposes hold_us b0 b1 e0 e1 long fades e = ground arith
fading_reason c t bid (some fair) opposes hold_us b0 b1 e0 e1 long fades e =
    let w : wrap32 (bid +ℤ c.exit_edge_ticks) ≡ bid +ℤ c.exit_edge_ticks =
      wrap32_self (bid +ℤ c.exit_edge_ticks) (ground (arith, +ℤ_parts bid c.exit_edge_ticks)) in
    ground (arith, w)

decide_exit_made :
    (c : RuntimeCore) (token : TokenId) (t : ExitTracker) (bid : PriceTick) (fair : Option ℤ)
    (opposes : Option Bool) (hold_us : ℤ) (plan : SellPlan)
    → plan_sell_at_bid token c.state c.inventory c.sell_slippage_ticks ≡ some plan
    → exit_reason c t bid fair opposes hold_us ≢ none
    → (x : ExitDecision) × (decide_exit c token t bid fair opposes hold_us ≡ x ∷ [])
      × (x.plan ≡ plan)
unfolding decide_exit
decide_exit_made c token t bid fair opposes hold_us plan planned some_reason =
    elim (Option-cases (exit_reason c t bid fair opposes hold_us)) [
      | inl no_reason ↦ absurd (some_reason no_reason)
      | inr (reason, given) ↦
          let x : ExitDecision = record {
            plan = plan;
            reason = reason;
            entry_price = t.entry_price;
            entry_bid = t.entry_bid;
            peak_bid = t.peak_bid;
            bid = bid;
            fair_ticks = fair;
            fair_minus_bid_ticks = and_then fair (λ f. some (sub32 f bid));
            opposes = opposes;
            hold_us = hold_us;
          } in
          (x, ground (arith, given, planned), refl)
    ]

-- The turn of a token that has something to sell, a bid and a tracker.
plan_exit_tracked :
    (c : RuntimeCore) (sig : SignalView) (market : MarketContext) (now : ℤ) (token : TokenId)
    (side : OutcomeSide) (t : ExitTracker) (bid : PriceTick) (view : PositionView)
    → position c.inventory token ≡ some view
    → leb_ℤ view.sellable (pos 0) ≡ false
    → bid_of c.state token ≡ some bid
    → lookup token c.exit_trackers ≡ some t
    → (plan_exit c sig market now token side).1
      ≡ decide_exit c token
          (raise_peak t bid)
          bid
          (sig.fair_ticks_for_side side
            (saturating_sub (saturating_mul market.end_ts (pos 1_000_000)) now))
          (sig.opposes_side side)
          (saturating_sub now t.fill_ts_us)
unfolding plan_exit
plan_exit_tracked c sig market now token side t bid view there sells eb et =
    ground (arith, there, sells, eb, et)

plan_made :
    (token : TokenId) (s : RuntimeState) (inv : Inventory) (slip : ℤ) (bid : PriceTick)
    (view : PositionView) (plan : Option SellPlan)
    → bid_of s token ≡ some bid
    → position inv token ≡ some view
    → sell_plan token bid view slip ≡ plan
    → plan_sell_at_bid token s inv slip ≡ plan
unfolding plan_sell_at_bid
plan_made token s inv slip bid view plan eb there e = rw (eb, there) e

-- A turn of the exits plans the sale of all the whole hundredths of a share of a position that has
-- been held for the limit, unless the model values it above the bid by more than the exit edge.
-- Something is left to sell, the token has a tracker and a bid, the bid, the slippage and the edge
-- are from 0 to 99, and the balance is below 2^63.
pub held_position_sold :
    (c : RuntimeCore) (sig : SignalView) (market : MarketContext) (now : ℤ) (token : TokenId)
    (side : OutcomeSide) (t : ExitTracker) (bid : PriceTick) (a : ℕ)
    → owned_atoms c.inventory token ≡ pos a
    → 10_000 ≤ a
    → a < 2 ^ 63
    → bid_of c.state token ≡ some bid
    → pos 0 ≤ℤ bid
    → bid ≤ℤ pos 99
    → pos 0 ≤ℤ c.sell_slippage_ticks
    → c.sell_slippage_ticks ≤ℤ pos 99
    → pos 0 ≤ℤ c.exit_edge_ticks
    → c.exit_edge_ticks ≤ℤ pos 99
    → lookup token c.exit_trackers ≡ some t
    → c.exit_hold_us ≤ℤ saturating_sub now t.fill_ts_us
    → Fades c.exit_edge_ticks bid (
        sig.fair_ticks_for_side side
          (saturating_sub (saturating_mul market.end_ts (pos 1_000_000)) now))
    → (x : ExitDecision) × ((plan_exit c sig market now token side).1 ≡ x ∷ [])
      × (x.plan.token ≡ token)
      × (x.plan.size ≡ pos (a / 10_000))
held_position_sold c sig market now token side t bid a own some_left small eb b0 b1 s0 s1 e0 e1 et
      long fades =
    let fair =
      sig.fair_ticks_for_side side
        (saturating_sub (saturating_mul market.end_ts (pos 1_000_000)) now) in
    let hold_us = saturating_sub now t.fill_ts_us in
    let t' = raise_peak t bid in
    let view : PositionView = record {
      owned_atoms = owned_atoms c.inventory token;
      sellable = sellable c.inventory token;
    } in
    let there = position_there c.inventory token a own (omega arith) in
    let units : sellable c.inventory token ≡ pos (a / 10_000) =
      sellable_whole c.inventory token a own in
    let made : SellPlan = record {
      token = token;
      price = max_ℤ (sub32 bid c.sell_slippage_ticks) (pos 1);
      size = pos (a / 10_000);
    } in
    let plan =
      sell_plan_made token bid view c.sell_slippage_ticks (a / 10_000) b0 b1 s0 s1 (omega arith)
        (omega arith) units in
    let (x, decided, its_plan) =
      decide_exit_made c token t' bid fair (sig.opposes_side side) hold_us made
        (plan_made token c.state c.inventory c.sell_slippage_ticks bid view (some made) eb there
          plan)
        (fading_reason c t' bid fair (sig.opposes_side side) hold_us b0 b1 e0 e1 long fades) in
    let sells : leb_ℤ (sellable c.inventory token) (pos 0) ≡ false = ground (arith, units) in
    (
      x,
      plan_exit_tracked c sig market now token side t bid view there sells eb et ∙ decided,
      ap (λ (p : SellPlan). p.token) its_plan,
      ap (λ (p : SellPlan). p.size) its_plan,
    )
