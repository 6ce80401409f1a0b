-- ===== src/Inventory/Valid/Submits.antt =====
-- The operations of inventory.rs on submits and on the market scope keep the invariant.
use polyrust.Prelude.{ℕ, refl, List, arith}
use polyrust.Prelude.Int.{ℤ}
use polyrust.Prelude.Map.{
  Map, lookup, insert-IsMap, remove-IsMap, retain-IsMap, update-IsMap, map_values-IsMap,
}
use polyrust.Prelude.Map.Every.{
  Every-insert, Every-remove, Every-retain, Every-update, Every-map_values,
}
use polyrust.Types.{TokenId, OrderId, OrderSide}
use polyrust.Inventory.{
  Inventory, SubmitId, PendingSubmit, submit_id, next_id, claim_entry, mark_submit_accepted,
  mark_submit_unknown, release_claim, expire_one, expire_unknowns, expire_pending, stays_pending,
  release_market_scope, new,
}
use polyrust.Inventory.Valid.{IsValid, IsIssued, Submits}

IsIssued-weaken :
    (n : ℕ) (k : SubmitId) (p : PendingSubmit) → IsIssued n k p → IsIssued (next_id n) k p
IsIssued-weaken n k p (e, (m, le, h)) = (e, (m, ground arith, h))

pub new-IsValid : IsValid new
unfolding lookup
new-IsValid = record {
  owned_keys = tt;
  trade_keys = tt;
  pending_keys = tt;
  owned_nonneg = λ k v e. cc;
  sizes_nonneg = λ k v e. cc;
  issued = λ k v e. cc;
}

-- An operation that touches the submits alone keeps the invariant if it keeps theirs.
with_pending :
    (inv : Inventory) (last : ℕ) (m : Map PendingSubmit)
    → IsValid inv
    → Submits last m
    → IsValid (record inv { next_submit_id = last; pending = m })
with_pending inv last m v (keys, every) = record {
  owned_keys = v.owned_keys;
  trade_keys = v.trade_keys;
  pending_keys = keys;
  owned_nonneg = v.owned_nonneg;
  sizes_nonneg = v.sizes_nonneg;
  issued = every;
}

pub claim_entry-IsValid :
    (inv : Inventory) (token : TokenId) (side : OrderSide) (size now : ℤ)
    → IsValid inv
    → IsValid (claim_entry inv token side size now).0
unfolding claim_entry
claim_entry-IsValid inv token side size now v =
    let last = next_id inv.next_submit_id in
    with_pending inv last _ v (
      insert-IsMap (submit_id last) _ inv.pending v.pending_keys,
      Every-insert (IsIssued last) (submit_id last) _ inv.pending (refl, (last, omega arith, refl))
          (λ k p e. IsIssued-weaken inv.next_submit_id k p (v.issued k p e)),
    )

pub mark_submit_accepted-IsValid :
    (inv : Inventory) (id : SubmitId) (order : OrderId) (now : ℤ)
    → IsValid inv
    → IsValid (mark_submit_accepted inv id order now)
unfolding mark_submit_accepted
mark_submit_accepted-IsValid inv id order now v = with_pending inv inv.next_submit_id _ v (
  update-IsMap id _ inv.pending v.pending_keys,
  Every-update _ id _ inv.pending (λ _ _ i. i) v.issued,
)

pub mark_submit_unknown-IsValid :
    (inv : Inventory) (id : SubmitId) (now : ℤ)
    → IsValid inv
    → IsValid (mark_submit_unknown inv id now)
unfolding mark_submit_unknown
mark_submit_unknown-IsValid inv id now v = with_pending inv inv.next_submit_id _ v (
  update-IsMap id _ inv.pending v.pending_keys,
  Every-update _ id _ inv.pending (λ _ _ i. i) v.issued,
)

pub release_claim-IsValid :
    (inv : Inventory) (id : SubmitId) → IsValid inv → IsValid (release_claim inv id)
unfolding release_claim
release_claim-IsValid inv id v =
    with_pending inv inv.next_submit_id _ v
      (remove-IsMap id inv.pending v.pending_keys, Every-remove _ id inv.pending v.issued)

expire_one-IsIssued :
    (older last : ℤ) (n : ℕ) (k : SubmitId) (p : PendingSubmit)
    → IsIssued n k p
    → IsIssued n k (expire_one older p)
expire_one-IsIssued older last n k p (e, i) = (ground arith, i)

pub expire_unknowns-IsValid :
    (inv : Inventory) (older : ℤ) → IsValid inv → IsValid (expire_unknowns inv older)
unfolding expire_unknowns
expire_unknowns-IsValid inv older v = with_pending inv inv.next_submit_id _ v (
  map_values-IsMap (expire_one older) inv.pending v.pending_keys,
  Every-map_values _ (expire_one older) inv.pending
      (expire_one-IsIssued older older inv.next_submit_id) v.issued,
)

pub expire_pending-IsValid :
    (inv : Inventory) (older : ℤ) → IsValid inv → IsValid (expire_pending inv older)
unfolding expire_pending
expire_pending-IsValid inv older v = with_pending inv inv.next_submit_id _ v (
  retain-IsMap (stays_pending older) inv.pending v.pending_keys,
  Every-retain _ (stays_pending older) inv.pending v.pending_keys v.issued,
)

pub release_market_scope-IsValid :
    (inv : Inventory) (active : List TokenId)
    → IsValid inv
    → IsValid (release_market_scope inv active)
unfolding release_market_scope
release_market_scope-IsValid inv active v = record {
  owned_keys = retain-IsMap _ inv.owned_by_token v.owned_keys;
  trade_keys = v.trade_keys;
  pending_keys = retain-IsMap _ inv.pending v.pending_keys;
  owned_nonneg = Every-retain _ _ inv.owned_by_token v.owned_keys v.owned_nonneg;
  sizes_nonneg = v.sizes_nonneg;
  issued = Every-retain _ _ inv.pending v.pending_keys v.issued;
}
