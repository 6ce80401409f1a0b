-- ===== src/Inventory/Trades.antt =====
-- inventory.rs, `apply_user_trade` and its helpers.
use polyrust.Prelude.{Bool, true, false, not, ◌&&◌, Option, none, some, unwrap_or, if◌then◌else◌}
use polyrust.Prelude.Int.{ℤ, pos, max_ℤ}
use polyrust.Prelude.Words.{saturating_add, saturating_sub}
use polyrust.Prelude.Text.{text_eq}
use polyrust.Prelude.Map.{Map, lookup, insert, remove, update, find_key}
use polyrust.Types.{TokenId, OrderId, OrderSide, SharesAtoms, order_side_eq}
use polyrust.Types.OrderSide.{buy, sell}
use polyrust.Inventory.{
  Inventory, SubmitId, PendingSubmit, TradeStatus, UserTrade, TradeState, TradeRecord, matchable,
  terminal,
}
use polyrust.Inventory.SubmitStatus.{accepted}
use polyrust.Inventory.TradeStatus.{matched, confirmed, failed}

abbrev pub shift_balance : OrderSide → ℤ → ℤ → ℤ
shift_balance buy size entry = saturating_add entry size
shift_balance sell size entry = max_ℤ (saturating_sub entry size) (pos 0)

unfoldable pub apply_inventory_delta : Map ℤ → TokenId → OrderSide → SharesAtoms → Map ℤ
apply_inventory_delta owned token side size =
    insert token (shift_balance side size (unwrap_or (lookup token owned) (pos 0))) owned

abbrev pub opposite : OrderSide → OrderSide
opposite buy = sell
opposite sell = buy

-- `p.order_id.as_ref() == Some(oid)`
abbrev pub is_order : OrderId → Option OrderId → Bool
is_order oid none = false
is_order oid (some o) = text_eq o oid

abbrev pub by_order : Option OrderId → Map PendingSubmit → Option SubmitId
by_order none m = none
by_order (some oid) m = find_key (λ p. is_order oid p.order_id && matchable p.status) m

abbrev pub fits_trade : UserTrade → PendingSubmit → Bool
fits_trade trade p =
    matchable p.status && text_eq p.token trade.token && order_side_eq p.side trade.side

abbrev pub or_else {ℓ} : {A : Type ℓ} → Option A → Option A → Option A
or_else none b = b
or_else (some a) b = some a

abbrev pub matched_id : Inventory → UserTrade → Option SubmitId
matched_id inv trade =
    or_else (by_order trade.taker_order_id inv.pending) (find_key (fits_trade trade) inv.pending)

-- The matched submit becomes accepted, with the trade's order id if it had none.
abbrev pub bind_trade : UserTrade → PendingSubmit → PendingSubmit
bind_trade trade p = record p {
  status = accepted;
  order_id = or_else p.order_id trade.taker_order_id;
  updated_ts_us = trade.ts_us;
}

abbrev pub bind_at : Option SubmitId → UserTrade → Map PendingSubmit → Map PendingSubmit
bind_at none trade m = m
bind_at (some id) trade m = update id (bind_trade trade) m

unfoldable pub match_pending_submit : Inventory → UserTrade → Inventory × Option SubmitId
match_pending_submit inv trade =
    let id = matched_id inv trade in (record inv { pending = bind_at id trade inv.pending }, id)

abbrev pub remove_at : Option SubmitId → Map PendingSubmit → Map PendingSubmit
remove_at none m = m
remove_at (some id) m = remove id m

abbrev pub fresh_record : UserTrade → TradeRecord
fresh_record trade = record {
  token = trade.token;
  side = trade.side;
  size_atoms = trade.size_atoms;
  applied = false;
  finalized = false;
}

-- `self.trades.entry(id).or_insert_with(..)`
abbrev pub record_for : Inventory → UserTrade → TradeRecord
record_for inv trade = unwrap_or (lookup trade.trade_id inv.trades) (fresh_record trade)

abbrev pub applies : OrderSide → TradeStatus → Bool
applies side matched = true
applies side confirmed = true
applies side _ = false

abbrev pub is_failed : TradeStatus → Bool
is_failed failed = true
is_failed _ = false

-- The record, the balances and the flag after the two inventory blocks of `apply_user_trade`.
pub record Applied : Type 0 where
  pub entry : TradeRecord
  pub owned : Map ℤ
  pub changed : Bool

unfoldable pub apply_delta_once : TradeStatus → TradeRecord → Map ℤ → Applied
apply_delta_once status r owned =
    if applies r.side status && not r.applied
    then record {
      entry = record r { applied = true };
      owned = apply_inventory_delta owned r.token r.side r.size_atoms;
      changed = true;
    }
    else record { entry = r; owned = owned; changed = false }

unfoldable pub reverse_if_failed : TradeStatus → Applied → Applied
reverse_if_failed status a =
    if is_failed status && a.entry.applied && not a.entry.finalized
    then record a {
      owned =
          apply_inventory_delta a.owned a.entry.token (opposite a.entry.side) a.entry.size_atoms;
      changed = true;
    }
    else a

abbrev pub finalize : TradeStatus → Applied → Applied
finalize status a =
    if terminal status then record a { entry = record a.entry { finalized = true } } else a

unfoldable pub settle : TradeStatus → TradeRecord → Map ℤ → Applied
unfolding apply_delta_once reverse_if_failed
settle status r owned = finalize status (reverse_if_failed status (apply_delta_once status r owned))

unfoldable pub apply_user_trade : Inventory → UserTrade → Inventory × TradeState
apply_user_trade inv trade =
    let (inv', id) = match_pending_submit inv trade in
    let a = settle trade.status (record_for inv trade) inv.owned_by_token in
    (
      record inv' {
        pending = if terminal trade.status then remove_at id inv'.pending else inv'.pending;
        trades = insert trade.trade_id a.entry inv.trades;
        owned_by_token = a.owned;
      },
      record {
        trade_id = trade.trade_id;
        token = a.entry.token;
        side = a.entry.side;
        size_atoms = a.entry.size_atoms;
        status = trade.status;
        applied = a.entry.applied;
        inventory_changed = a.changed;
        finalized = a.entry.finalized;
        matched_submit = id;
      },
    )
