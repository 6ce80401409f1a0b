-- ===== src/Inventory/Lifecycle.antt =====
-- The life of one trade in inventory.rs: MATCHED or CONFIRMED moves the balance once, FAILED takes it
-- back once, and nothing else moves it.
pub mod Failure
use polyrust.Prelude.{
  ◌≡◌, ◌≢◌, refl, ◌∙◌, ap, ◌⊎◌, Bool, true, false, unwrap_or, if◌then◌else◌, none, some, List, [],
  ◌∷◌, All, arith,
}
use polyrust.Prelude.Int.{ℤ, pos, ◌+ℤ◌, ◌-ℤ◌, max_ℤ}
use polyrust.Prelude.Words.{InI64, clamp64_self}
use polyrust.Prelude.Text.{text_eq}
use polyrust.Prelude.Map.{Map, lookup, insert, lookup-insert, lookup-insert_self}
use polyrust.Types.{TradeId, TokenId, OrderSide}
use polyrust.Types.OrderSide.{buy, sell}
use polyrust.Inventory.{Inventory, UserTrade, TradeStatus, TradeRecord}
use polyrust.Inventory.TradeStatus.{matched, confirmed, failed}
use polyrust.Inventory.Trades.{
  apply_inventory_delta, shift_balance, match_pending_submit, settle, apply_user_trade,
  fresh_record, record_for,
}

-- Trades taken in one after the other.
unfoldable pub apply_all : Inventory → List UserTrade → Inventory
apply_all inv [] = inv
apply_all inv (t ∷ ts) = apply_all (apply_user_trade inv t).0 ts

-- The balances and the records after one trade.
pub owned-apply_user_trade :
    (inv : Inventory) (t : UserTrade)
    → (apply_user_trade inv t).0.owned_by_token
      ≡ (settle t.status (record_for inv t) inv.owned_by_token).owned
unfolding apply_user_trade match_pending_submit
owned-apply_user_trade inv t = refl

pub trades-apply_user_trade :
    (inv : Inventory) (t : UserTrade)
    → (apply_user_trade inv t).0.trades
      ≡ insert t.trade_id (settle t.status (record_for inv t) inv.owned_by_token).entry inv.trades
unfolding apply_user_trade match_pending_submit
trades-apply_user_trade inv t = refl

-- A record that has been applied stays so, and moves no balance unless the trade fails.
settle_applied :
    (status : TradeStatus) (r : TradeRecord) (owned : Map ℤ)
    → r.applied ≡ true
    → status ≢ failed
    → ((settle status r owned).owned ≡ owned) × ((settle status r owned).entry.applied ≡ true)
unfolding settle
settle_applied status r owned a n = ground arith

settle_first :
    (status : TradeStatus) (r : TradeRecord) (owned : Map ℤ)
    → r.applied ≡ false
    → (status ≡ matched) ⊎ (status ≡ confirmed)
    → ((settle status r owned).owned ≡ apply_inventory_delta owned r.token r.side r.size_atoms)
      × ((settle status r owned).entry.applied ≡ true)
unfolding settle
settle_first status r owned a s = ground arith

-- An event of trade id that is not a failure.
abbrev pub Continues : TradeId → UserTrade → Type 0
Continues id t = (t.trade_id ≡ id) × (t.status ≢ failed)

owned-apply_all :
    (inv : Inventory) (id : TradeId) (r : TradeRecord) (ts : List UserTrade)
    → lookup id inv.trades ≡ some r
    → r.applied ≡ true
    → All (Continues id) ts
    → (apply_all inv ts).owned_by_token ≡ inv.owned_by_token
unfolding apply_all
owned-apply_all inv id r [] e a h = refl
owned-apply_all inv id r (t ∷ ts) e a ((same, ok), h) =
    let known : record_for inv t ≡ r = ground (arith, e, same) in
    let (still, marked) =
      settle_applied t.status (record_for inv t) inv.owned_by_token (rw known a) ok in
    let r' = (settle t.status (record_for inv t) inv.owned_by_token).entry in
    owned-apply_all (apply_user_trade inv t).0 id r' ts
      (rw (trades-apply_user_trade inv t, ← same) (lookup-insert_self t.trade_id r' inv.trades))
      marked h
    ∙ owned-apply_user_trade inv t
    ∙ still

-- The first event applies the trade to the balances, and the others leave them alone.
owned-trade_once :
    (inv : Inventory) (t : UserTrade) (ts : List UserTrade)
    → lookup t.trade_id inv.trades ≡ none
    → (t.status ≡ matched) ⊎ (t.status ≡ confirmed)
    → All (Continues t.trade_id) ts
    → (apply_all inv (t ∷ ts)).owned_by_token
      ≡ apply_inventory_delta inv.owned_by_token t.token t.side t.size_atoms
unfolding apply_all
owned-trade_once inv t ts e s h =
    let known : record_for inv t ≡ fresh_record t = ground (arith, e) in
    let f = settle_first t.status (record_for inv t) inv.owned_by_token (rw known refl) s in
    let r' = (settle t.status (record_for inv t) inv.owned_by_token).entry in
    owned-apply_all (apply_user_trade inv t).0 t.trade_id r' ts
      (rw (trades-apply_user_trade inv t) (lookup-insert_self t.trade_id r' inv.trades)) f.1 h
    ∙ owned-apply_user_trade inv t
    ∙ f.0
    ∙ ap (λ (r : TradeRecord). apply_inventory_delta inv.owned_by_token r.token r.side r.size_atoms)
        known

-- The balance of a token after a delta, and the other tokens.
pub lookup-apply_inventory_delta :
    (owned : Map ℤ) (token j : TokenId) (side : OrderSide) (size : ℤ)
    → lookup j (apply_inventory_delta owned token side size) ≡ (
        if text_eq token j
        then some (shift_balance side size (unwrap_or (lookup token owned) (pos 0)))
        else lookup j owned)
unfolding apply_inventory_delta
lookup-apply_inventory_delta owned token j side size = lookup-insert token j _ owned

-- A balance moved by a trade, in whole numbers: a SELL takes it to zero at the least.
abbrev pub moved : OrderSide → ℤ → ℤ → ℤ
moved buy size balance = balance +ℤ size
moved sell size balance = max_ℤ (balance -ℤ size) (pos 0)

-- The sum or the difference fits in an i64.
abbrev pub Fits : OrderSide → ℤ → ℤ → Type 0
Fits buy size balance = InI64 (balance +ℤ size)
Fits sell size balance = InI64 (balance -ℤ size)

shift_balance-moved :
    (side : OrderSide) (size balance : ℤ)
    → Fits side size balance
    → shift_balance side size balance ≡ moved side size balance
shift_balance-moved buy size balance h = clamp64_self (balance +ℤ size) h
shift_balance-moved sell size balance h = rw (clamp64_self (balance -ℤ size) h) refl

-- The balance of a token, zero where it has none.
abbrev pub held : Inventory → TokenId → ℤ
held inv token = unwrap_or (lookup token inv.owned_by_token) (pos 0)

-- An unknown trade that is matched or confirmed, with any further events of it but failures, adds
-- its size to the balance of its token for a BUY, and takes it off for a SELL, down to zero at the
-- least, once; no other balance changes. The exact sum or difference fits in an i64.
pub trade_counts_once :
    (inv : Inventory) (t : UserTrade) (ts : List UserTrade)
    → lookup t.trade_id inv.trades ≡ none
    → (t.status ≡ matched) ⊎ (t.status ≡ confirmed)
    → All (Continues t.trade_id) ts
    → Fits t.side t.size_atoms (held inv t.token)
    → (j : TokenId)
    → held (apply_all inv (t ∷ ts)) j
      ≡ (if text_eq t.token j then moved t.side t.size_atoms (held inv t.token) else held inv j)
trade_counts_once inv t ts e s h fits j =
    rw
      (
        owned-trade_once inv t ts e s h,
        lookup-apply_inventory_delta inv.owned_by_token t.token j t.side t.size_atoms,
        shift_balance-moved t.side t.size_atoms (held inv t.token) fits,
      )
      (at (text_eq t.token j))
  where
    at :
        (b : Bool)
        → unwrap_or
            (if b
              then some (moved t.side t.size_atoms (held inv t.token))
              else lookup j inv.owned_by_token)
            (pos 0)
          ≡ (if b then moved t.side t.size_atoms (held inv t.token) else held inv j)
    at true = refl
    at false = refl

-- A record that is applied and final moves no balance any more, whatever is reported of it.
settle_final :
    (status : TradeStatus) (r : TradeRecord) (owned : Map ℤ)
    → r.applied ≡ true
    → r.finalized ≡ true
    → ((settle status r owned).owned ≡ owned)
      × ((settle status r owned).entry.applied ≡ true)
      × ((settle status r owned).entry.finalized ≡ true)
unfolding settle
settle_final status r owned a f = ground arith

-- Once a trade is applied and final, no sequence of further events of it changes any balance.
pub final_trade_inert :
    (inv : Inventory) (id : TradeId) (r : TradeRecord) (ts : List UserTrade)
    → lookup id inv.trades ≡ some r
    → r.applied ≡ true
    → r.finalized ≡ true
    → All (λ (t : UserTrade). t.trade_id ≡ id) ts
    → (apply_all inv ts).owned_by_token ≡ inv.owned_by_token
unfolding apply_all
final_trade_inert inv id r [] e a f h = refl
final_trade_inert inv id r (t ∷ ts) e a f (same, h) =
    let known : record_for inv t ≡ r = ground (arith, e, same) in
    let (still, marked, closed) =
      settle_final t.status (record_for inv t) inv.owned_by_token (rw known a) (rw known f) in
    let r' = (settle t.status (record_for inv t) inv.owned_by_token).entry in
    final_trade_inert (apply_user_trade inv t).0 id r' ts
      (rw (trades-apply_user_trade inv t, ← same) (lookup-insert_self t.trade_id r' inv.trades))
      marked closed h
    ∙ owned-apply_user_trade inv t
    ∙ still
