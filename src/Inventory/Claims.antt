-- ===== src/Inventory/Claims.antt =====
-- The submits of inventory.rs: what a claim blocks, which submit a trade binds, and what expiry does.
use polyrust.Prelude.{
  ℕ, ◌<◌, ◌^◌, ◌-◌, ◌≡◌, ◌≢◌, ◌⊎◌, inl, inr, refl, sym, ◌∙◌, ap, true, false, ◌&&◌, Option, none,
  some, [], ◌∷◌, arith, Bool-cases, Option-cases, if◌then◌else◌,
}
use polyrust.Prelude.Int.{ℤ, pos, ◌<ℤ◌, leb_ℤ}
use polyrust.Prelude.Text.{text_eq_refl, text_eq_iff, text_eq→eq, read_from, read_from-show_ℕ}
use polyrust.Prelude.Map.{
  Map, IsMap, lookup, insert, lookup-insert, lookup-insert_self, any_value-true, any_value-false,
  find_key-some, find_key-none, lookup-remove, lookup-update, lookup-map_values, lookup-retain,
}
use polyrust.Types.{TokenId, OrderId, OrderSide}
use polyrust.Inventory.{
  Inventory, SubmitId, PendingSubmit, UserTrade, terminal, submit_id, next_id, claimed, claim_entry,
  owned_atoms, blocks_token, is_unknown, is_pending, has_entry_exposure_or_pending, expire_one,
  expire_unknowns, expire_pending, stays_pending,
}
use polyrust.Inventory.SubmitStatus.{expired_unknown}
use polyrust.Inventory.Trades.{
  apply_user_trade, match_pending_submit, by_order, is_order, fits_trade, bind_trade, bind_at,
}
use polyrust.Inventory.Valid.{IsValid}

-- From the claim on, the same token is refused a second entry.
pub claim_entry_blocks :
    (inv : Inventory) (token : TokenId) (side : OrderSide) (size now : ℤ)
    → has_entry_exposure_or_pending (claim_entry inv token side size now).0 token ≡ true
unfolding has_entry_exposure_or_pending claim_entry
claim_entry_blocks inv token side size now =
    let n = next_id inv.next_submit_id in
    let p = claimed (submit_id n) token side size now in
    ground (
      arith,
      any_value-true (blocks_token token) (insert (submit_id n) p inv.pending) (submit_id n) p
          (lookup-insert_self (submit_id n) p inv.pending) (rw (text_eq_refl token)),
    )

-- An entry is allowed only if the user channel is trusted, less than the sell quantum is owned, and
-- every submit of the token has been given up as unknown.
pub entry_allowed_only :
    (inv : Inventory) (token : TokenId)
    → has_entry_exposure_or_pending inv token ≡ false
    → (inv.user_wss_trusted ≡ true)
      × (owned_atoms inv token <ℤ pos 10_000)
      × ((k : SubmitId) (p : PendingSubmit)
          → lookup k inv.pending ≡ some p
          → p.token ≡ token
          → p.status ≡ expired_unknown)
unfolding has_entry_exposure_or_pending
entry_allowed_only inv token h = (ground arith, ground arith, given_up)
  where
    given_up :
        (k : SubmitId) (p : PendingSubmit)
        → lookup k inv.pending ≡ some p
        → p.token ≡ token
        → p.status ≡ expired_unknown
    given_up k p e t = ground (
      arith,
      any_value-false (blocks_token token) inv.pending k p (ground arith) e,
      text_eq_iff p.token token,
    )

number_of : SubmitId → ℕ
number_of [] = 0
number_of (c ∷ s) = read_from 0 s

submit_id-injective : (m n : ℕ) → submit_id m ≡ submit_id n → m ≡ n
unfolding submit_id number_of
submit_id-injective m n e = sym (read_from-show_ℕ m) ∙ ap number_of e ∙ read_from-show_ℕ n

-- A new claim's id is that of no other submit, and every other submit stays as it was, in a valid
-- inventory with ids left.
pub claim_entry_fresh :
    (inv : Inventory) (token : TokenId) (side : OrderSide) (size now : ℤ)
    → IsValid inv
    → inv.next_submit_id < 2 ^ 64 - 1
    → (k : SubmitId) (p : PendingSubmit) → lookup k inv.pending ≡ some p
    → (k ≢ (claim_entry inv token side size now).1)
      × (lookup k (claim_entry inv token side size now).0.pending ≡ some p)
unfolding claim_entry
claim_entry_fresh inv token side size now v small k p e =
    let (_, (n, le, ek)) = v.issued k p e in
    let last = next_id inv.next_submit_id in
    let new_key : k ≢ submit_id last =
      λ same. absurd (ground (arith, submit_id-injective n last (sym ek ∙ same))) in
    (
      new_key,
      ground (
        arith,
        lookup-insert (submit_id last) k (claimed (submit_id last) token side size now) inv.pending,
        text_eq_iff (submit_id last) k,
        new_key,
      ),
    )

is_order→eq : (oid : OrderId) (o : Option OrderId) → is_order oid o ≡ true → o ≡ some oid
is_order→eq oid none h = cc
is_order→eq oid (some o) h = ap some (text_eq→eq o oid h)

by_order_found :
    (o : Option OrderId) (m : Map PendingSubmit) (id : SubmitId)
    → IsMap m
    → by_order o m ≡ some id
    → (p : PendingSubmit) × (lookup id m ≡ some p)
      × ((x : OrderId) × (p.order_id ≡ some x) × (o ≡ some x))
by_order_found none m id v e = cc
by_order_found (some oid) m id v e =
    let (p, l, t) = find_key-some _ m id v e in
    (p, l, (oid, ground (arith, is_order→eq oid p.order_id), refl))

fits_trade→eq :
    (t : UserTrade) (p : PendingSubmit)
    → fits_trade t p ≡ true
    → (p.token ≡ t.token) × (p.side ≡ t.side)
fits_trade→eq t p h = (ground (arith, text_eq_iff p.token t.token), ground arith)

eq→fits_trade :
    (t : UserTrade) (p : PendingSubmit)
    → p.token ≡ t.token
    → p.side ≡ t.side
    → fits_trade t p ≡ true
eq→fits_trade t p e f = ground (arith, text_eq_iff p.token t.token)

-- The submit that a trade binds has the order id of the trade, or its token and side, in a valid
-- inventory.
pub matched_submit_fits :
    (inv : Inventory) (t : UserTrade) (id : SubmitId)
    → IsValid inv
    → (apply_user_trade inv t).1.matched_submit ≡ some id
    → (p : PendingSubmit) × (lookup id inv.pending ≡ some p)
      × (((o : OrderId) × (p.order_id ≡ some o) × (t.taker_order_id ≡ some o))
          ⊎ ((p.token ≡ t.token) × (p.side ≡ t.side)))
unfolding apply_user_trade match_pending_submit
matched_submit_fits inv t id v e = elim (Option-cases (by_order t.taker_order_id inv.pending)) [
  | inl none_by_order ↦
      let (p, l, h) = find_key-some (fits_trade t) inv.pending id v.pending_keys (ground arith) in
      (p, l, inr (fits_trade→eq t p h))
  | inr (k, found) ↦
      let (p, l, h) =
        by_order_found t.taker_order_id inv.pending id v.pending_keys (ground arith) in
      (p, l, inl h)
]

-- A trade binds a submit whenever there is one of its token and side.
pub matched_submit_found :
    (inv : Inventory) (t : UserTrade) (k : SubmitId) (p : PendingSubmit)
    → lookup k inv.pending ≡ some p
    → p.token ≡ t.token
    → p.side ≡ t.side
    → (apply_user_trade inv t).1.matched_submit ≢ none
unfolding apply_user_trade match_pending_submit
matched_submit_found inv t k p e et es n =
    cc (find_key-none (fits_trade t) inv.pending k p (ground arith) e, eq→fits_trade t p et es)

-- A final trade removes the submit that it binds; any other trade keeps that submit, accepted.
pub matched_submit_after :
    (inv : Inventory) (t : UserTrade) (id : SubmitId) (p : PendingSubmit)
    → lookup id inv.pending ≡ some p
    → (apply_user_trade inv t).1.matched_submit ≡ some id
    → lookup id (apply_user_trade inv t).0.pending
      ≡ (if terminal t.status then none else some (bind_trade t p))
unfolding apply_user_trade match_pending_submit
matched_submit_after inv t id p e m = elim (Bool-cases (terminal t.status)) [
  | inl ends ↦
      rw (ends, m)
        (ground (arith, lookup-remove id id (bind_at (some id) t inv.pending), text_eq_refl id))
  | inr goes_on ↦
      rw (goes_on, m)
        (ground (arith, e, lookup-update id id (bind_trade t) inv.pending, text_eq_refl id))
]

-- An old unknown submit is given up, so that it blocks no longer; it stays where a later trade finds
-- it, and no other submit changes.
pub lookup-expire_unknowns :
    (inv : Inventory) (older : ℤ) (k : SubmitId) (p : PendingSubmit)
    → lookup k inv.pending ≡ some p
    → lookup k (expire_unknowns inv older).pending
      ≡ some (
          if is_unknown p.status && leb_ℤ p.updated_ts_us older
          then record p { status = expired_unknown }
          else p)
unfolding expire_unknowns
lookup-expire_unknowns inv older k p e =
    ground (arith, e, lookup-map_values k (expire_one older) inv.pending)

-- A claim whose submit never reported is dropped once it is old; every other submit stays.
pub lookup-expire_pending :
    (inv : Inventory) (older : ℤ) (k : SubmitId) (p : PendingSubmit)
    → IsValid inv
    → lookup k inv.pending ≡ some p
    → lookup k (expire_pending inv older).pending
      ≡ (if is_pending p.status && leb_ℤ p.created_ts_us older then none else some p)
unfolding expire_pending
lookup-expire_pending inv older k p v e =
    ground (arith, e, lookup-retain (stays_pending older) k inv.pending v.pending_keys)
