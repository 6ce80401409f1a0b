-- ===== src/Inventory/Lifecycle/Failure.antt =====
-- The failure of a trade in inventory.rs: what it takes back, and what it misses when it comes first.
use polyrust.Prelude.{◌≡◌, refl, ◌∙◌, true, false, none, some, List, [], ◌∷◌, All, arith, unwrap_or}
use polyrust.Prelude.Int.{ℤ, pos, ◌+ℤ◌, ◌-ℤ◌, ◌≤ℤ◌}
use polyrust.Prelude.Words.{clamp64, InI64}
use polyrust.Prelude.Text.{text_eq_refl, text_eq_iff}
use polyrust.Prelude.Map.{Map, lookup, lookup-insert_self}
use polyrust.Types.{TokenId, OrderSide}
use polyrust.Types.OrderSide.{buy, sell}
use polyrust.Inventory.Valid.{IsNonneg}
use polyrust.Inventory.{Inventory, UserTrade, TradeRecord}
use polyrust.Inventory.TradeStatus.{matched, failed}
use polyrust.Inventory.Trades.{
  apply_inventory_delta, shift_balance, opposite, settle, apply_user_trade, fresh_record,
  record_for,
}
use polyrust.Inventory.Lifecycle.{
  lookup-apply_inventory_delta, apply_all, owned-apply_user_trade, trades-apply_user_trade,
  final_trade_inert,
}

-- A failure takes an applied trade back unless it was final, and marks it final.
settle_failed :
    (r : TradeRecord) (owned : Map ℤ)
    → r.applied ≡ true
    → r.finalized ≡ false
    → ((settle failed r owned).owned
        ≡ apply_inventory_delta owned r.token (opposite r.side) r.size_atoms)
      × ((settle failed r owned).entry.finalized ≡ true)
unfolding settle
settle_failed r owned a f = ground arith

settle_matched :
    (r : TradeRecord) (owned : Map ℤ)
    → r.applied ≡ false
    → settle matched r owned ≡ record {
      entry = record r { applied = true };
      owned = apply_inventory_delta owned r.token r.side r.size_atoms;
      changed = true;
    }
unfolding settle
settle_matched r owned a = ground arith

-- A BUY that fits in an i64, and a SELL of no more than the balance.
abbrev pub Covered : OrderSide → ℤ → ℤ → Type 0
Covered buy size balance = InI64 (balance +ℤ size)
Covered sell size balance = size ≤ℤ balance

shift_back :
    (side : OrderSide) (size balance : ℤ)
    → IsNonneg size
    → IsNonneg balance
    → InI64 balance
    → Covered side size balance
    → shift_balance (opposite side) size (shift_balance side size balance) ≡ balance
unfolding ◌+ℤ◌ ◌-ℤ◌ clamp64
shift_back buy size balance s b i c = ground arith
shift_back sell size balance s b i c = ground arith

delta_back :
    (owned : Map ℤ) (token j : TokenId) (side : OrderSide) (size : ℤ)
    → shift_balance
        (opposite side)
        size
        (shift_balance side size (unwrap_or (lookup token owned) (pos 0)))
      ≡ unwrap_or (lookup token owned) (pos 0)
    → unwrap_or
        (lookup j (
          apply_inventory_delta
            (apply_inventory_delta owned token side size)
            token
            (opposite side)
            size))
        (pos 0)
      ≡ unwrap_or (lookup j owned) (pos 0)
delta_back owned token j side size back =
    let once = apply_inventory_delta owned token side size in
    ground (
      arith,
      lookup-apply_inventory_delta owned token token side size,
      lookup-apply_inventory_delta owned token j side size,
      lookup-apply_inventory_delta once token j (opposite side) size,
      text_eq_refl token,
      text_eq_iff token j,
    )

-- The two events on the balances.
owned-matched_failed :
    (inv : Inventory) (m f : UserTrade)
    → lookup m.trade_id inv.trades ≡ none
    → m.status ≡ matched
    → f.trade_id ≡ m.trade_id
    → f.status ≡ failed
    → (apply_all inv (m ∷ f ∷ [])).owned_by_token
      ≡ apply_inventory_delta
          (apply_inventory_delta inv.owned_by_token m.token m.side m.size_atoms)
          m.token
          (opposite m.side)
          m.size_atoms
unfolding apply_all
owned-matched_failed inv m f e sm same sf =
    let inv' = (apply_user_trade inv m).0 in
    let r : TradeRecord = record (fresh_record m) { applied = true } in
    let once = apply_inventory_delta inv.owned_by_token m.token m.side m.size_atoms in
    let known : record_for inv m ≡ fresh_record m = ground (arith, e) in
    let first : settle m.status (record_for inv m) inv.owned_by_token
        ≡ record { entry = r; owned = once; changed = true } =
      rw (sm, known) (settle_matched (fresh_record m) inv.owned_by_token refl) in
    let kept : lookup m.trade_id inv'.trades ≡ some r =
      rw (trades-apply_user_trade inv m, first) (lookup-insert_self m.trade_id r inv.trades) in
    let again : record_for inv' f ≡ r = rw (same, kept) in
    owned-apply_user_trade inv' f
    ∙ rw (sf, again, owned-apply_user_trade inv m, first) (settle_failed r once refl refl).0

-- An unknown trade that is matched and then fails leaves every balance as it was before, where its
-- size and the balance of its token are not negative, and where a BUY fits in an i64 and a SELL is
-- of no more than the balance.
pub failed_restores :
    (inv : Inventory) (m f : UserTrade)
    → lookup m.trade_id inv.trades ≡ none
    → m.status ≡ matched
    → f.trade_id ≡ m.trade_id
    → f.status ≡ failed
    → IsNonneg m.size_atoms
    → IsNonneg (unwrap_or (lookup m.token inv.owned_by_token) (pos 0))
    → InI64 (unwrap_or (lookup m.token inv.owned_by_token) (pos 0))
    → Covered m.side m.size_atoms (unwrap_or (lookup m.token inv.owned_by_token) (pos 0))
    → (j : TokenId)
    → unwrap_or (lookup j (apply_all inv (m ∷ f ∷ [])).owned_by_token) (pos 0)
      ≡ unwrap_or (lookup j inv.owned_by_token) (pos 0)
failed_restores inv m f e sm same sf s b i c j = rw (owned-matched_failed inv m f e sm same sf) (
    delta_back inv.owned_by_token m.token j m.side m.size_atoms
      (shift_back m.side m.size_atoms _ s b i c))

-- The record after a failure of an unknown trade: nothing applied, but final.
settle_failed_first :
    (r : TradeRecord) (owned : Map ℤ)
    → r.applied ≡ false
    → settle failed r owned
      ≡ record { entry = record r { finalized = true }; owned = owned; changed = false }
unfolding settle
settle_failed_first r owned a = ground arith

-- A failure reported before the match is not remembered: the match moves the balance although the
-- trade has failed, and no later event of the trade takes it back.
pub failed_then_matched_counts :
    (inv : Inventory) (f m : UserTrade) (later : List UserTrade)
    → lookup f.trade_id inv.trades ≡ none
    → f.status ≡ failed
    → m.trade_id ≡ f.trade_id
    → m.status ≡ matched
    → All (λ (t : UserTrade). t.trade_id ≡ m.trade_id) later
    → (apply_all inv (f ∷ m ∷ later)).owned_by_token
      ≡ apply_inventory_delta inv.owned_by_token f.token f.side f.size_atoms
unfolding apply_all
failed_then_matched_counts inv f m later e sf same sm h =
    let inv' = (apply_user_trade inv f).0 in
    let inv'' = (apply_user_trade inv' m).0 in
    let r : TradeRecord = record (fresh_record f) { finalized = true } in
    let r' : TradeRecord = record r { applied = true } in
    let known : record_for inv f ≡ fresh_record f = ground (arith, e) in
    let first : settle f.status (record_for inv f) inv.owned_by_token
        ≡ record { entry = r; owned = inv.owned_by_token; changed = false } =
      rw (sf, known) (settle_failed_first (fresh_record f) inv.owned_by_token refl) in
    let kept : lookup f.trade_id inv'.trades ≡ some r =
      rw (trades-apply_user_trade inv f, first) (lookup-insert_self f.trade_id r inv.trades) in
    let again : record_for inv' m ≡ r = rw (same, kept) in
    let second : settle m.status (record_for inv' m) inv'.owned_by_token ≡ record {
      entry = r';
      owned = apply_inventory_delta inv'.owned_by_token f.token f.side f.size_atoms;
      changed = true;
    } =
      rw (sm, again) (settle_matched r inv'.owned_by_token refl) in
    let kept' : lookup m.trade_id inv''.trades ≡ some r' =
      rw (trades-apply_user_trade inv' m, second) (lookup-insert_self m.trade_id r' inv'.trades) in
    final_trade_inert inv'' m.trade_id r' later kept' refl refl h
    ∙ owned-apply_user_trade inv' m
    ∙ rw second (rw (owned-apply_user_trade inv f, first))
