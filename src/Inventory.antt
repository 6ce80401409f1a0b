-- ===== src/Inventory.antt =====
-- inventory.rs: the inventory that user-channel trades own, and the submits that later trades may
-- bind. Inventory/Trades has `apply_user_trade`; the other children prove what the operations keep.
pub mod Trades
pub mod Valid
pub mod Steps
pub mod Stages
pub mod Claims
pub mod Lifecycle
mod Tests
use polyrust.Prelude.{
  ℕ, ◌+◌, ◌-◌, ◌^◌, Bool, true, false, not, ◌&&◌, ◌||◌, Option, none, some, List, ◌∷◌, leb, any,
  unwrap_or, if◌then◌else◌,
}
use polyrust.Prelude.Int.{ℤ, pos, leb_ℤ, max_ℤ, tdiv}
use polyrust.Prelude.Text.{Text, codes, text_eq, trim, to_ascii_uppercase, show_ℕ}
use polyrust.Prelude.Map.{Map, lookup, insert, remove, retain, update, map_values, any_value}
use polyrust.Types.{TokenId, OrderId, TradeId, OrderSide, PriceTick, Shares2, SharesAtoms}

pub data SubmitStatus : Type 0 where
  pending accepted unknown expired_unknown : SubmitStatus

abbrev pub blocks_entry : SubmitStatus → Bool
blocks_entry expired_unknown = false
blocks_entry _ = true

abbrev pub matchable : SubmitStatus → Bool
matchable pending = true
matchable accepted = true
matchable unknown = true
matchable expired_unknown = true

abbrev pub SubmitId : Type 0
SubmitId = Text

pub record PendingSubmit : Type 0 where
  pub id : SubmitId
  pub token : TokenId
  pub side : OrderSide
  pub size_atoms : SharesAtoms
  pub order_id : Option OrderId
  pub status : SubmitStatus
  pub created_ts_us : ℤ
  pub updated_ts_us : ℤ

pub data TradeStatus : Type 0 where
  matched mined confirmed failed retrying other : TradeStatus

-- `TradeStatus::from_venue` and `TradeStatus::as_str`.
unfoldable pub from_venue : Text → TradeStatus
unfolding trim text_eq
from_venue s =
    let t = to_ascii_uppercase (trim s) in
    if text_eq t (codes "MATCHED")
    then matched
    else if text_eq t (codes "MINED")
    then mined
    else if text_eq t (codes "CONFIRMED")
    then confirmed
    else if text_eq t (codes "FAILED")
    then failed
    else if text_eq t (codes "RETRYING")
    then retrying
    else other

unfoldable pub status_text : TradeStatus → Text
status_text matched = codes "MATCHED"
status_text mined = codes "MINED"
status_text confirmed = codes "CONFIRMED"
status_text failed = codes "FAILED"
status_text retrying = codes "RETRYING"
status_text other = codes "OTHER"

abbrev pub terminal : TradeStatus → Bool
terminal confirmed = true
terminal failed = true
terminal _ = false

pub record UserTrade : Type 0 where
  pub trade_id : TradeId
  pub token : TokenId
  pub taker_order_id : Option OrderId
  pub side : OrderSide
  pub size_atoms : SharesAtoms
  pub price : PriceTick
  pub status : TradeStatus
  pub ts_us : ℤ

pub record TradeState : Type 0 where
  pub trade_id : TradeId
  pub token : TokenId
  pub side : OrderSide
  pub size_atoms : SharesAtoms
  pub status : TradeStatus
  pub applied : Bool
  pub inventory_changed : Bool
  pub finalized : Bool
  pub matched_submit : Option SubmitId

pub record TradeRecord : Type 0 where
  pub token : TokenId
  pub side : OrderSide
  pub size_atoms : SharesAtoms
  pub applied : Bool
  pub finalized : Bool

pub record PositionView : Type 0 where
  pub owned_atoms : SharesAtoms
  pub sellable : Shares2

-- `next_submit_id` is a u64.
pub record Inventory : Type 0 where
  pub user_wss_trusted : Bool
  pub next_submit_id : ℕ
  pub owned_by_token : Map ℤ
  pub trades : Map TradeRecord
  pub pending : Map PendingSubmit

abbrev pub new : Inventory
new = record {
  user_wss_trusted = false;
  next_submit_id = 0;
  owned_by_token = List.[];
  trades = List.[];
  pending = List.[];
}

abbrev pub set_user_wss_trusted : Inventory → Bool → Inventory
set_user_wss_trusted inv trusted = record inv { user_wss_trusted = trusted }

-- `format!("s{}", n)`.
unfoldable pub submit_id : ℕ → SubmitId
submit_id n = b's' ∷ show_ℕ n

abbrev pub next_id : ℕ → ℕ
next_id n = if leb (2 ^ 64 - 1) n then n else n + 1

abbrev pub claimed : SubmitId → TokenId → OrderSide → SharesAtoms → ℤ → PendingSubmit
claimed id token side size_atoms now_ts_us = record {
  id = id;
  token = token;
  side = side;
  size_atoms = size_atoms;
  order_id = none;
  status = pending;
  created_ts_us = now_ts_us;
  updated_ts_us = now_ts_us;
}

unfoldable pub claim_entry :
    Inventory → TokenId → OrderSide → SharesAtoms → ℤ → Inventory × SubmitId
claim_entry inv token side size_atoms now_ts_us =
    let n = next_id inv.next_submit_id in
    let id = submit_id n in
    let submit = claimed id token side size_atoms now_ts_us in
    (record inv { next_submit_id = n; pending = insert id submit inv.pending }, id)

unfoldable pub mark_submit_accepted : Inventory → SubmitId → OrderId → ℤ → Inventory
mark_submit_accepted inv id order_id now_ts_us = record inv {
  pending =
      update id
        (λ p. record p { order_id = some order_id; status = accepted; updated_ts_us = now_ts_us })
        inv.pending;
}

unfoldable pub mark_submit_unknown : Inventory → SubmitId → ℤ → Inventory
mark_submit_unknown inv id now_ts_us = record inv {
  pending = update id (λ p. record p { status = unknown; updated_ts_us = now_ts_us }) inv.pending;
}

unfoldable pub release_claim : Inventory → SubmitId → Inventory
release_claim inv id = record inv { pending = remove id inv.pending }

abbrev pub is_pending : SubmitStatus → Bool
is_pending pending = true
is_pending _ = false

abbrev pub is_unknown : SubmitStatus → Bool
is_unknown unknown = true
is_unknown _ = false

abbrev pub expire_one : ℤ → PendingSubmit → PendingSubmit
expire_one older_than p =
    if is_unknown p.status && leb_ℤ p.updated_ts_us older_than
    then record p { status = expired_unknown }
    else p

unfoldable pub expire_unknowns : Inventory → ℤ → Inventory
expire_unknowns inv older_than = record inv {
  pending = map_values (expire_one older_than) inv.pending;
}

abbrev pub stays_pending : ℤ → SubmitId → PendingSubmit → Bool
stays_pending older_than _ p = not (is_pending p.status && leb_ℤ p.created_ts_us older_than)

unfoldable pub expire_pending : Inventory → ℤ → Inventory
expire_pending inv older_than = record inv {
  pending = retain (stays_pending older_than) inv.pending;
}

-- `self.owned_by_token.get(token).copied().unwrap_or(0).max(0)`
abbrev pub balance : Inventory → TokenId → ℤ
balance inv token = max_ℤ (unwrap_or (lookup token inv.owned_by_token) (pos 0)) (pos 0)

unfoldable pub sellable : Inventory → TokenId → Shares2
sellable inv token = tdiv (balance inv token) (pos 10_000)

unfoldable pub owned_atoms : Inventory → TokenId → SharesAtoms
owned_atoms inv token = balance inv token

unfoldable pub position : Inventory → TokenId → Option PositionView
position inv token =
    if leb_ℤ (owned_atoms inv token) (pos 0)
    then none
    else some (record { owned_atoms = owned_atoms inv token; sellable = sellable inv token })

abbrev pub blocks_token : TokenId → PendingSubmit → Bool
blocks_token token p = text_eq p.token token && blocks_entry p.status

unfoldable pub has_entry_exposure_or_pending : Inventory → TokenId → Bool
has_entry_exposure_or_pending inv token =
    if not inv.user_wss_trusted
    then true
    else leb_ℤ (pos 10_000) (owned_atoms inv token) || any_value (blocks_token token) inv.pending

abbrev pub is_active : List TokenId → TokenId → Bool
is_active active token = any (λ t. text_eq t token) active

unfoldable pub release_market_scope : Inventory → List TokenId → Inventory
release_market_scope inv active = record inv {
  owned_by_token = retain (λ token _. is_active active token) inv.owned_by_token;
  pending = retain (λ _ p. is_active active p.token) inv.pending;
}
