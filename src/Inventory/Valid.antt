-- ===== src/Inventory/Valid.antt =====
-- The invariant of the inventory of inventory.rs, and each operation's lemma about it.
pub mod Submits
use polyrust.Prelude.{
  ℕ, ◌+◌, ◌≤◌, ◌≡◌, refl, Option, none, some, inl, inr, arith, Option-cases, if_both, unwrap_or,
  ◌-◌,
}
use polyrust.Prelude.Int.{ℤ, pos, neg_part, ◌+ℤ◌, ◌-ℤ◌}
use polyrust.Prelude.Words.{clamp64}
use polyrust.Prelude.Map.{Map, IsMap, lookup, insert-IsMap, remove-IsMap, update-IsMap}
use polyrust.Prelude.Map.Every.{Every, Every-insert, Every-remove, Every-update}
use polyrust.Types.{TokenId, OrderSide}
use polyrust.Inventory.{
  Inventory, SubmitId, PendingSubmit, UserTrade, TradeStatus, TradeRecord, submit_id, terminal,
}
use polyrust.Inventory.Trades.{
  shift_balance, apply_inventory_delta, match_pending_submit, matched_id, bind_at, remove_at,
  bind_trade, record_for, settle, apply_user_trade, Applied, apply_delta_once, reverse_if_failed,
  opposite,
}

abbrev pub IsNonneg : ℤ → Type 0
IsNonneg z = neg_part z ≡ 0

-- A submit is kept under its own id, the text of a number that was given out.
abbrev pub IsIssued : ℕ → SubmitId → PendingSubmit → Type 0
IsIssued last k p = (p.id ≡ k) × ((n : ℕ) × (n ≤ last) × (k ≡ submit_id n))

-- No balance and no recorded size is negative; keys are unique; submits carry ids given out.
pub record IsValid (inv : Inventory) : Type 0 where
  pub owned_keys : IsMap inv.owned_by_token
  pub trade_keys : IsMap inv.trades
  pub pending_keys : IsMap inv.pending
  pub owned_nonneg : Every (λ _ v. IsNonneg v) inv.owned_by_token
  pub sizes_nonneg : Every (λ _ (r : TradeRecord). IsNonneg r.size_atoms) inv.trades
  pub issued : Every (IsIssued inv.next_submit_id) inv.pending

shift_balance-IsNonneg :
    (side : OrderSide) (size entry : ℤ)
    → IsNonneg size
    → IsNonneg entry
    → IsNonneg (shift_balance side size entry)
unfolding ◌+ℤ◌ ◌-ℤ◌ clamp64
shift_balance-IsNonneg side size entry h h' = ground arith

entry-IsNonneg :
    (owned : Map ℤ) (token : TokenId)
    → Every (λ _ v. IsNonneg v) owned
    → IsNonneg (unwrap_or (lookup token owned) (pos 0))
entry-IsNonneg owned token every = elim (Option-cases (lookup token owned)) [
  | inl e ↦ rw e refl
  | inr (v, e) ↦ rw e (every token v e)
]

-- Balances with unique keys, none negative.
abbrev Balances : Map ℤ → Type 0
Balances owned = IsMap owned × Every (λ _ v. IsNonneg v) owned

apply_inventory_delta-Balances :
    (owned : Map ℤ) (token : TokenId) (side : OrderSide) (size : ℤ)
    → IsNonneg size
    → Balances owned
    → Balances (apply_inventory_delta owned token side size)
unfolding apply_inventory_delta
apply_inventory_delta-Balances owned token side size h (keys, every) =
    let entry = unwrap_or (lookup token owned) (pos 0) in
    (
      insert-IsMap token (shift_balance side size entry) owned keys,
      Every-insert (λ _ v. IsNonneg v) token _ owned
          (shift_balance-IsNonneg side size entry h (entry-IsNonneg owned token every)) every,
    )

-- The record's size is not negative, and neither is a balance.
abbrev Sound : Applied → Type 0
Sound a = IsNonneg a.entry.size_atoms × Balances a.owned

apply_delta_once-Sound :
    (status : TradeStatus) (r : TradeRecord) (owned : Map ℤ)
    → IsNonneg r.size_atoms
    → Balances owned
    → Sound (apply_delta_once status r owned)
unfolding apply_delta_once
apply_delta_once-Sound status r owned h b =
    if_both Sound _ _ _ (h, apply_inventory_delta-Balances owned r.token r.side r.size_atoms h b)
      (h, b)

reverse_if_failed-Sound :
    (status : TradeStatus) (a : Applied) → Sound a → Sound (reverse_if_failed status a)
unfolding reverse_if_failed
reverse_if_failed-Sound status a (h, b) =
    if_both Sound _ _ _
      (
        h,
        apply_inventory_delta-Balances a.owned a.entry.token (opposite a.entry.side)
            a.entry.size_atoms h b,
      )
      (h, b)

settle-Sound :
    (status : TradeStatus) (r : TradeRecord) (owned : Map ℤ)
    → IsNonneg r.size_atoms
    → Balances owned
    → Sound (settle status r owned)
unfolding settle
settle-Sound status r owned h b =
    let s = reverse_if_failed-Sound status _ (apply_delta_once-Sound status r owned h b) in
    if_both Sound (terminal status) _ _ s s

record_for-IsNonneg :
    (inv : Inventory) (trade : UserTrade)
    → IsValid inv
    → IsNonneg trade.size_atoms
    → IsNonneg (record_for inv trade).size_atoms
record_for-IsNonneg inv trade v h = elim (Option-cases (lookup trade.trade_id inv.trades)) [
  | inl e ↦ rw e h
  | inr (r, e) ↦ rw e (v.sizes_nonneg trade.trade_id r e)
]

-- Submits with unique keys, each issued.
abbrev pub Submits : ℕ → Map PendingSubmit → Type 0
Submits last m = IsMap m × Every (IsIssued last) m

bind_at-Submits :
    (last : ℕ) (id : Option SubmitId) (trade : UserTrade) (m : Map PendingSubmit)
    → Submits last m
    → Submits last (bind_at id trade m)
bind_at-Submits last none trade m h = h
bind_at-Submits last (some id) trade m (keys, every) = (
  update-IsMap id (bind_trade trade) m keys,
  Every-update (IsIssued last) id (bind_trade trade) m (λ _ _ i. i) every,
)

remove_at-Submits :
    (last : ℕ) (id : Option SubmitId) (m : Map PendingSubmit)
    → Submits last m
    → Submits last (remove_at id m)
remove_at-Submits last none m h = h
remove_at-Submits last (some id) m (keys, every) =
    (remove-IsMap id m keys, Every-remove (IsIssued last) id m every)

-- A trade of a size that is not negative keeps the invariant, whatever its status.
pub apply_user_trade-IsValid :
    (inv : Inventory) (trade : UserTrade)
    → IsNonneg trade.size_atoms
    → IsValid inv
    → IsValid (apply_user_trade inv trade).0
unfolding apply_user_trade match_pending_submit
apply_user_trade-IsValid inv trade h v =
    let (size, balances) =
      settle-Sound trade.status (record_for inv trade) inv.owned_by_token
        (record_for-IsNonneg inv trade v h) (v.owned_keys, v.owned_nonneg) in
    let bound =
      bind_at-Submits inv.next_submit_id (matched_id inv trade) trade inv.pending
        (v.pending_keys, v.issued) in
    let (pending_keys, issued) =
      if_both (Submits inv.next_submit_id) (terminal trade.status) _ _
        (remove_at-Submits inv.next_submit_id (matched_id inv trade) _ bound) bound in
    record {
      owned_keys = balances.0;
      trade_keys = insert-IsMap trade.trade_id _ inv.trades v.trade_keys;
      pending_keys = pending_keys;
      owned_nonneg = balances.1;
      sizes_nonneg = Every-insert _ trade.trade_id _ inv.trades size v.sizes_nonneg;
      issued = issued;
    }
