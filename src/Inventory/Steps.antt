-- ===== src/Inventory/Steps.antt =====
-- What can happen to the inventory of inventory.rs, as steps, and what every reachable one satisfies.
-- A step may also permute the entries of its maps: the order in which a `HashMap` is iterated is
-- not fixed by the source.
use polyrust.Prelude.{Bool, List, ◌≡◌, sym, ◌∙◌}
use polyrust.Prelude.Int.{ℤ}
use polyrust.Prelude.Text.{Text}
use polyrust.Prelude.Map.{Map, IsMap, lookup}
use polyrust.Types.{TokenId, OrderId, OrderSide}
use polyrust.Inventory.{
  Inventory, SubmitId, UserTrade, new, set_user_wss_trusted, claim_entry, mark_submit_accepted,
  mark_submit_unknown, release_claim, expire_unknowns, expire_pending, release_market_scope,
}
use polyrust.Inventory.Trades.{apply_user_trade}
use polyrust.Inventory.Valid.{IsValid, IsNonneg, apply_user_trade-IsValid}
use polyrust.Inventory.Valid.Submits.{
  new-IsValid, claim_entry-IsValid, mark_submit_accepted-IsValid, mark_submit_unknown-IsValid,
  release_claim-IsValid, expire_unknowns-IsValid, expire_pending-IsValid,
  release_market_scope-IsValid,
}

-- Two lists of entries of one map: unique keys, and the same values.
abbrev pub SameMap {ℓ} : {V : Type ℓ} → Map V → Map V → Type ℓ
SameMap m m' = IsMap m' × ((k : Text) → lookup k m' ≡ lookup k m)

pub record Reordered (inv inv' : Inventory) : Type 0 where
  pub same_trust : inv'.user_wss_trusted ≡ inv.user_wss_trusted
  pub same_ids : inv'.next_submit_id ≡ inv.next_submit_id
  pub same_owned : SameMap inv.owned_by_token inv'.owned_by_token
  pub same_trades : SameMap inv.trades inv'.trades
  pub same_pending : SameMap inv.pending inv'.pending

pub data Step (inv : Inventory) : Inventory → Type 0 where
  trust : (b : Bool) → Step inv (set_user_wss_trusted inv b)
  claim :
      (token : TokenId) (side : OrderSide) (size now : ℤ)
      → Step inv (claim_entry inv token side size now).0
  accept :
      (id : SubmitId) (order : OrderId) (now : ℤ) → Step inv (mark_submit_accepted inv id order now)
  lose : (id : SubmitId) (now : ℤ) → Step inv (mark_submit_unknown inv id now)
  release : (id : SubmitId) → Step inv (release_claim inv id)
  expire_lost : (older : ℤ) → Step inv (expire_unknowns inv older)
  expire_claims : (older : ℤ) → Step inv (expire_pending inv older)
  trade : (t : UserTrade) → IsNonneg t.size_atoms → Step inv (apply_user_trade inv t).0
  scope : (active : List TokenId) → Step inv (release_market_scope inv active)
  reorder : (inv' : Inventory) → Reordered inv inv' → Step inv inv'

pub data Reach : Inventory → Type 0 where
  start : Reach new
  next : {inv inv' : Inventory} → Reach inv → Step inv inv' → Reach inv'

reorder-IsValid : (inv inv' : Inventory) → Reordered inv inv' → IsValid inv → IsValid inv'
reorder-IsValid inv inv' r v = record {
  owned_keys = r.same_owned.0;
  trade_keys = r.same_trades.0;
  pending_keys = r.same_pending.0;
  owned_nonneg = λ k x e. v.owned_nonneg k x (sym (r.same_owned.1 k) ∙ e);
  sizes_nonneg = λ k x e. v.sizes_nonneg k x (sym (r.same_trades.1 k) ∙ e);
  issued = λ k p e. rw r.same_ids (v.issued k p (sym (r.same_pending.1 k) ∙ e));
}

pub Step-IsValid : {inv inv' : Inventory} → Step inv inv' → IsValid inv → IsValid inv'
Step-IsValid {inv} (trust b) v = record {
  owned_keys = v.owned_keys;
  trade_keys = v.trade_keys;
  pending_keys = v.pending_keys;
  owned_nonneg = v.owned_nonneg;
  sizes_nonneg = v.sizes_nonneg;
  issued = v.issued;
}
Step-IsValid {inv} (claim token side size now) v = claim_entry-IsValid inv token side size now v
Step-IsValid {inv} (accept id order now) v = mark_submit_accepted-IsValid inv id order now v
Step-IsValid {inv} (lose id now) v = mark_submit_unknown-IsValid inv id now v
Step-IsValid {inv} (release id) v = release_claim-IsValid inv id v
Step-IsValid {inv} (expire_lost older) v = expire_unknowns-IsValid inv older v
Step-IsValid {inv} (expire_claims older) v = expire_pending-IsValid inv older v
Step-IsValid {inv} (trade t h) v = apply_user_trade-IsValid inv t h v
Step-IsValid {inv} (scope active) v = release_market_scope-IsValid inv active v
Step-IsValid {inv} (reorder inv' r) v = reorder-IsValid inv inv' r v

-- Every inventory that a sequence of operations reaches, with trades of sizes that are not
-- negative, has unique keys, no negative balance, and submits under issued ids.
pub Reach-IsValid : {inv : Inventory} → Reach inv → IsValid inv
Reach-IsValid start = new-IsValid
Reach-IsValid (next r s) = Step-IsValid s (Reach-IsValid r)
