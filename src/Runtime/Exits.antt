-- ===== src/Runtime/Exits.antt =====
-- runtime.rs: the exits. A position is sold when its bid has fallen to the stop, when the model no
-- longer supports it, or when it has been held for long. What the signal engine reports at the
-- moment of the plan, `fair_ticks_for_side` and `opposes_side`, is an argument.
pub mod Rules
pub mod Sells
use polyrust.Prelude.{
  ◌&&◌, not, Bool, true, false, Option, none, some, List, [], ◌∷◌, ◌++◌, and_then, unwrap_or,
  if◌then◌else◌,
}
use polyrust.Prelude.Int.{ℤ, pos, ltb_ℤ, leb_ℤ, max_ℤ}
use polyrust.Prelude.Words.{add32, sub32, mul64, saturating_sub, saturating_mul}
use polyrust.Prelude.Result.{ok, err}
use polyrust.Prelude.Map.{lookup, insert, remove, retain}
use polyrust.Types.{TokenId, OutcomeSide, PriceTick, Shares2, checked}
use polyrust.Types.OrderSide.{buy, sell}
use polyrust.Types.OutcomeSide.{yes_side, no_side}
use polyrust.Orders.{canonical_sell_params}
use polyrust.Inventory.{
  Inventory, UserTrade, TradeState, TradeStatus, PositionView, sellable, position, is_active,
  release_market_scope,
}
use polyrust.Inventory.TradeStatus.{matched, confirmed}
use polyrust.State.{RuntimeState, MarketContext, quote_for_token}
use polyrust.Runtime.{RuntimeCore, ExitTracker}

pub data ExitReason : Type 0 where
  value drop stop hold : ExitReason

pub record SellPlan : Type 0 where
  pub token : TokenId
  pub price : PriceTick
  pub size : Shares2

pub record ExitDecision : Type 0 where
  pub plan : SellPlan
  pub reason : ExitReason
  pub entry_price : PriceTick
  pub entry_bid : PriceTick
  pub peak_bid : PriceTick
  pub bid : PriceTick
  pub fair_ticks : Option ℤ
  pub fair_minus_bid_ticks : Option ℤ
  pub opposes : Option Bool
  pub hold_us : ℤ

abbrev pub bid_of : RuntimeState → TokenId → Option PriceTick
bid_of s token = and_then (quote_for_token s token) (λ q. q.bid)

-- `plan_sell_at_bid` from a bid and a position on.
unfoldable pub sell_plan : TokenId → PriceTick → PositionView → ℤ → Option SellPlan
sell_plan token bid pos_view slippage_ticks =
    let limit_ticks = max_ℤ (sub32 bid slippage_ticks) (pos 1) in
    let plan : PriceTick → Option SellPlan = λ limit.
      let (price, size) = canonical_sell_params limit (mul64 pos_view.sellable (pos 100)) in
      if leb_ℤ size (pos 0)
      then none
      else some (record { token = token; price = price; size = size }) in
    if leb_ℤ pos_view.sellable (pos 0)
    then none
    else elim (checked limit_ticks) [ ok limit ↦ plan limit | err e ↦ none ]

unfoldable pub plan_sell_at_bid : TokenId → RuntimeState → Inventory → ℤ → Option SellPlan
plan_sell_at_bid token s inv slippage_ticks =
    and_then (bid_of s token)
      (λ bid. and_then (position inv token) (λ p. sell_plan token bid p slippage_ticks))

abbrev pub refresh_sell_plan : RuntimeCore → TokenId → Option SellPlan
refresh_sell_plan c token = plan_sell_at_bid token c.state c.inventory c.sell_slippage_ticks

-- `opposes != Some(true)` is `not (is_opposed opposes)`.
abbrev pub is_opposed : Option Bool → Bool
is_opposed none = false
is_opposed (some b) = b

unfoldable pub supports_hold : RuntimeCore → PriceTick → Option ℤ → Option Bool → Bool
supports_hold c bid none opposes = false
supports_hold c bid (some fair) opposes =
    ltb_ℤ (add32 bid c.exit_edge_ticks) fair && not (is_opposed opposes)

unfoldable pub value_exit : RuntimeCore → PriceTick → Option ℤ → Option Bool → Bool
value_exit c bid none opposes = false
value_exit c bid (some fair) opposes =
    leb_ℤ fair (add32 bid c.exit_edge_ticks) && is_opposed opposes

unfoldable pub boundary_exit : RuntimeCore → PriceTick → Option ℤ → Bool
boundary_exit c bid none = true
boundary_exit c bid (some fair) = leb_ℤ fair (add32 bid c.exit_edge_ticks)

-- The reason to exit of a position whose tracker has its peak raised to the bid.
unfoldable pub exit_reason :
    RuntimeCore → ExitTracker → PriceTick → Option ℤ → Option Bool → ℤ → Option ExitReason
exit_reason c t bid fair opposes hold_us =
    let bid_drop_ticks = sub32 t.entry_bid bid in
    let profit_ticks = sub32 t.peak_bid t.entry_price in
    let peak_drop_ticks = sub32 t.peak_bid bid in
    if leb_ℤ c.exit_stop_ticks bid_drop_ticks && not (supports_hold c bid fair opposes)
    then some stop
    else if value_exit c bid fair opposes
    then if leb_ℤ c.exit_arm_ticks profit_ticks && leb_ℤ c.exit_drop_ticks peak_drop_ticks
      then some drop
      else some value
    else if leb_ℤ c.exit_hold_us hold_us && boundary_exit c bid fair
    then some hold
    else none

abbrev pub raise_peak : ExitTracker → PriceTick → ExitTracker
raise_peak t bid = record t { peak_bid = max_ℤ t.peak_bid bid }

-- What the signal engine reports: `fair_ticks_for_side` at the market's time to expiry, and
-- `opposes_side`.
pub record SignalView : Type 0 where
  pub fair_ticks_for_side : OutcomeSide → ℤ → Option ℤ
  pub opposes_side : OutcomeSide → Option Bool

unfoldable pub decide_exit :
    RuntimeCore → TokenId → ExitTracker → PriceTick → Option ℤ → Option Bool → ℤ → List ExitDecision
decide_exit c token t bid fair opposes hold_us = elim (exit_reason c t bid fair opposes hold_us) [
  | none ↦ []
  | some reason ↦ elim (plan_sell_at_bid token c.state c.inventory c.sell_slippage_ticks) [
    | none ↦ []
    | some plan ↦
        record {
          plan = plan;
          reason = reason;
          entry_price = t.entry_price;
          entry_bid = t.entry_bid;
          peak_bid = t.peak_bid;
          bid = bid;
          fair_ticks = fair;
          fair_minus_bid_ticks = and_then fair (λ f. some (sub32 f bid));
          opposes = opposes;
          hold_us = hold_us;
        }
        ∷ []
  ]
]

abbrev forget : RuntimeCore → TokenId → RuntimeCore
forget c token = record c { exit_trackers = remove token c.exit_trackers }

-- One turn of the loop of `plan_exits`.
unfoldable pub plan_exit :
    RuntimeCore
    → SignalView
    → MarketContext
    → ℤ
    → TokenId
    → OutcomeSide
    → RuntimeCore × List ExitDecision
plan_exit c sig market now token side =
    let tte_us = saturating_sub (saturating_mul market.end_ts (pos 1_000_000)) now in
    let with_tracker : PriceTick → ExitTracker → RuntimeCore × List ExitDecision = λ bid t.
      let t' = raise_peak t bid in
      (
        record c { exit_trackers = insert token t' c.exit_trackers },
        decide_exit c token t' bid (sig.fair_ticks_for_side side tte_us) (sig.opposes_side side)
            (saturating_sub now t'.fill_ts_us),
      ) in
    elim (position c.inventory token) [
      | none ↦ (forget c token, [])
      | some p ↦
          if leb_ℤ p.sellable (pos 0) then (forget c token, []) else elim (bid_of c.state token) [
            | none ↦ (c, [])
            | some bid ↦ elim (lookup token c.exit_trackers) [
              | none ↦ (c, [])
              | some t ↦ with_tracker bid t
            ]
          ]
    ]

unfoldable pub plan_exits : RuntimeCore → SignalView → ℤ → RuntimeCore × List ExitDecision
plan_exits c sig now = elim c.state.market [
  | none ↦ (c, [])
  | some market ↦
      let (c1, first) = plan_exit c sig market now market.yes_token yes_side in
      let (c2, second) = plan_exit c1 sig market now market.no_token no_side in
      (c2, first ++ second)
]

abbrev fills : TradeStatus → Bool
fills matched = true
fills confirmed = true
fills _ = false

-- `track_user_trade_for_exit`: a filled BUY starts a tracker, a SELL that leaves nothing ends it.
unfoldable pub track_user_trade_for_exit : RuntimeCore → UserTrade → TradeState → RuntimeCore
track_user_trade_for_exit c trade st =
    let current_bid = unwrap_or (bid_of c.state st.token) trade.price in
    let tracker : ExitTracker = record {
      entry_price = trade.price;
      entry_bid = current_bid;
      peak_bid = max_ℤ current_bid trade.price;
      fill_ts_us = trade.ts_us;
    } in
    let has_some = ltb_ℤ (pos 0) (sellable c.inventory st.token) in
    if not st.inventory_changed then c else elim st.side [
      | buy ↦
          if fills st.status && has_some
          then record c { exit_trackers = insert st.token tracker c.exit_trackers }
          else c
      | sell ↦ if has_some then c else forget c st.token
    ]

unfoldable pub release_scope : RuntimeCore → List TokenId → RuntimeCore
release_scope c active = record c {
  inventory = release_market_scope c.inventory active;
  exit_trackers = retain (λ token _. is_active active token) c.exit_trackers;
}
