-- ===== src/Inventory/Stages/Refines.antt =====
-- The operations of inventory.rs on the machine of the submits, one by one and in sequence.
use polyrust.Prelude.{
  ◌<◌, ◌≤◌, ◌^◌, ◌-◌, ◌≡◌, ◌⊎◌, ◌∙◌, ◌&&◌, refl, sym, ap, Bool, true, false, Bool-cases, inl, inr,
  Option, none, some, Option-cases, arith, if◌then◌else◌, if_both,
}
use polyrust.Prelude.Int.{ℤ, leb_ℤ}
use polyrust.Prelude.Text.{text_eq, text_eq_iff}
use polyrust.Prelude.Map.{
  Map, IsMap, lookup, update, remove, retain, map_values, map_option, lookup-insert, lookup-update,
  lookup-remove, lookup-map_values, lookup-retain,
}
use polyrust.Types.{TokenId, OrderSide}
use polyrust.Inventory.{
  Inventory, SubmitId, PendingSubmit, SubmitStatus, UserTrade, submit_id, next_id, claimed,
  claim_entry, mark_submit_accepted, mark_submit_unknown, release_claim, expire_one,
  expire_unknowns, expire_pending, stays_pending, is_unknown, is_pending, is_active,
  release_market_scope, terminal,
}
use polyrust.Inventory.SubmitStatus.{pending, accepted, unknown}
use polyrust.Inventory.Trades.{apply_user_trade, match_pending_submit, matched_id, bind_trade}
use polyrust.Inventory.Valid.{IsValid}
use polyrust.Inventory.Claims.{claim_entry_fresh, matched_submit_fits, matched_submit_after}
use polyrust.Inventory.Steps.{Step, Reach, Reach-IsValid}
use polyrust.Inventory.Stages.{
  Event, set_stage, Moves, Follows, stage, stage_of, event_of_trade, event_of, events,
}

update-stage :
    (id k : SubmitId) (g : PendingSubmit → PendingSubmit) (s : SubmitStatus) (m : Map PendingSubmit)
    → ((p : PendingSubmit) → (g p).status ≡ s)
    → stage (lookup k (update id g m)) ≡ set_stage id k s (stage (lookup k m))
update-stage id k g s m h = rw (lookup-update id k g m) (at (lookup k m) (text_eq id k))
  where
    at :
        (o : Option PendingSubmit) (b : Bool)
        → stage (if b then map_option g o else o)
          ≡ (if b then map_option (λ _. s) (stage o) else stage o)
    at none true = refl
    at none false = refl
    at (some p) true = ap some (h p)
    at (some p) false = refl

remove-stage :
    (id k : SubmitId) (m : Map PendingSubmit)
    → stage (lookup k (remove id m)) ≡ (if text_eq id k then none else stage (lookup k m))
remove-stage id k m = rw (lookup-remove id k m) (at (text_eq id k))
  where
    at :
        (b : Bool)
        → stage (if b then none else lookup k m) ≡ (if b then none else stage (lookup k m))
    at true = refl
    at false = refl

-- Entries that are kept or dropped by a test.
retain-stage :
    (p : SubmitId → PendingSubmit → Bool) (k : SubmitId) (m : Map PendingSubmit)
    → IsMap m
    → (stage (lookup k (retain p m)) ≡ stage (lookup k m))
      ⊎ ((v : PendingSubmit) × (lookup k m ≡ some v)
          × (p k v ≡ false)
          × (stage (lookup k (retain p m)) ≡ none))
retain-stage p k m keys = elim (Option-cases (lookup k m)) [
  | inl absent ↦ inl (rw (lookup-retain p k m keys, absent) refl)
  | inr (v, there) ↦ elim (Bool-cases (p k v)) [
    | inl kept ↦ inl (rw (lookup-retain p k m keys, there, kept) refl)
    | inr gone ↦ inr (v, there, gone, rw (lookup-retain p k m keys, there, gone) refl)
  ]
]

claim_lookup :
    (inv : Inventory) (token : TokenId) (side : OrderSide) (size now : ℤ) (k : SubmitId)
    → lookup k (claim_entry inv token side size now).0.pending ≡ (
        if text_eq (submit_id (next_id inv.next_submit_id)) k
        then some (claimed (submit_id (next_id inv.next_submit_id)) token side size now)
        else lookup k inv.pending)
unfolding claim_entry
claim_lookup inv token side size now k = lookup-insert _ k _ inv.pending

-- A claim leaves the other submits, and opens one that was absent.
claim-Moves :
    (inv : Inventory) (token : TokenId) (side : OrderSide) (size now : ℤ) (k : SubmitId)
    → IsValid inv
    → inv.next_submit_id < 2 ^ 64 - 1
    → Moves k
        (Event.claims (submit_id (next_id inv.next_submit_id)))
        (stage_of inv k)
        (stage_of (claim_entry inv token side size now).0 k)
unfolding claim_entry
claim-Moves inv token side size now k v small =
    elim (Bool-cases (text_eq (submit_id (next_id inv.next_submit_id)) k)) [
      | inl own ↦ elim (Option-cases (lookup k inv.pending)) [
        | inl free ↦
            rw own (ap stage free, ap stage (claim_lookup inv token side size now k) ∙ rw own refl)
        | inr (p, taken) ↦ absurd (
            (claim_entry_fresh inv token side size now v small k p taken).0
              (sym ((text_eq_iff (submit_id (next_id inv.next_submit_id)) k).0 own)))
      ]
      | inr other ↦ rw other (ap stage (claim_lookup inv token side size now k) ∙ rw other refl)
    ]

unknown_only : (s : SubmitStatus) → is_unknown s ≡ true → s ≡ unknown
unknown_only s h = ground arith

pending_only : (s : SubmitStatus) → is_pending s ≡ true → s ≡ pending
pending_only s h = ground arith

expire-Moves :
    (older : ℤ) (k : SubmitId) (m : Map PendingSubmit)
    → Moves k Event.gives_up
        (stage (lookup k m))
        (stage (lookup k (map_values (expire_one older) m)))
expire-Moves older k m = elim (Option-cases (lookup k m)) [
  | inl absent ↦ inl (rw (lookup-map_values k (expire_one older) m, absent) refl)
  | inr (p, there) ↦ elim (Bool-cases (is_unknown p.status && leb_ℤ p.updated_ts_us older)) [
    | inl old ↦
        let was : p.status ≡ unknown = unknown_only p.status (ground arith) in
        inr (
          ap stage there ∙ ap some was,
          ap stage (lookup-map_values k (expire_one older) m) ∙ rw (there, old) refl,
        )
    | inr kept ↦ inl (rw (lookup-map_values k (expire_one older) m, there, kept) refl)
  ]
]

expired-Moves :
    (older : ℤ) (k : SubmitId) (m : Map PendingSubmit)
    → IsMap m
    → Moves k Event.drops_claims
        (stage (lookup k m))
        (stage (lookup k (retain (stays_pending older) m)))
expired-Moves older k m keys = elim (retain-stage (stays_pending older) k m keys) [
  | inl kept ↦ inl kept
  | inr (v, there, gone, none_left) ↦
      inr (ap stage there ∙ ap some (pending_only v.status (ground (arith, gone))), none_left)
]

scope-Moves :
    (p : SubmitId → PendingSubmit → Bool) (k : SubmitId) (m : Map PendingSubmit)
    → IsMap m
    → Moves k Event.leaves_scope (stage (lookup k m)) (stage (lookup k (retain p m)))
scope-Moves p k m keys = elim (retain-stage p k m keys) [
  | inl kept ↦ inl kept
  | inr (v, there, gone, none_left) ↦ inr none_left
]

bound_stage :
    (t : UserTrade) (p : PendingSubmit) (final : Bool)
    → stage (if final then none else some (bind_trade t p))
      ≡ (if final then none else some accepted)
bound_stage t p true = refl
bound_stage t p false = refl

apart :
    (t : UserTrade) (id k : SubmitId) (m : Map PendingSubmit)
    → text_eq id k ≡ false
    → (final : Bool)
    → stage (
        lookup k
          (if final then remove id (update id (bind_trade t) m) else update id (bind_trade t) m))
      ≡ stage (lookup k m)
apart t id k m other true =
    rw
      (
        lookup-remove id k (update id (bind_trade t) m),
        other,
        lookup-update id k (bind_trade t) m,
        other,
      )
      refl
apart t id k m other false = rw (lookup-update id k (bind_trade t) m, other) refl

trade-Moves :
    (inv : Inventory) (t : UserTrade) (k : SubmitId)
    → IsValid inv
    → Moves k
        (event_of_trade (matched_id inv t) t)
        (stage_of inv k)
        (stage_of (apply_user_trade inv t).0 k)
unfolding apply_user_trade match_pending_submit
trade-Moves inv t k v = elim (Option-cases (matched_id inv t)) [
  | inl unbound ↦ rw unbound (
      if_both (λ m. stage (lookup k m) ≡ stage_of inv k) (terminal t.status) inv.pending inv.pending
        refl refl)
  | inr (id, bound) ↦ elim (Bool-cases (text_eq id k)) [
    | inl own ↦
        let same : id ≡ k = (text_eq_iff id k).0 own in
        let (p, there, _) = matched_submit_fits inv t id v bound in
        let after = matched_submit_after inv t id p there bound in
        rw (bound, own, ← same)
          (
            p.status,
            ap stage there,
            rw bound at (ap stage after ∙ bound_stage t p (terminal t.status)),
          )
    | inr other ↦ rw (bound, other) (apart t id k inv.pending other (terminal t.status))
  ]
]

Step-Moves :
    {inv inv' : Inventory}
    → (s : Step inv inv') → IsValid inv
    → inv.next_submit_id < 2 ^ 64 - 1
    → (k : SubmitId) → Moves k (event_of s) (stage_of inv k) (stage_of inv' k)
unfolding mark_submit_accepted mark_submit_unknown release_claim expire_unknowns expire_pending
    release_market_scope
Step-Moves {inv} (Step.trust b) v small k = refl
Step-Moves {inv} (Step.claim token side size now) v small k =
    claim-Moves inv token side size now k v small
Step-Moves {inv} (Step.accept id order now) v small k =
    update-stage id k _ accepted inv.pending (λ p. refl)
Step-Moves {inv} (Step.lose id now) v small k = update-stage id k _ unknown inv.pending (λ p. refl)
Step-Moves {inv} (Step.release id) v small k = remove-stage id k inv.pending
Step-Moves {inv} (Step.expire_lost older) v small k = expire-Moves older k inv.pending
Step-Moves {inv} (Step.expire_claims older) v small k =
    expired-Moves older k inv.pending v.pending_keys
Step-Moves {inv} (Step.trade t h) v small k = trade-Moves inv t k v
Step-Moves {inv} (Step.scope active) v small k =
    scope-Moves (λ _ p. is_active active p.token) k inv.pending v.pending_keys
Step-Moves {inv} {inv'} (Step.reorder _ r) v small k = ap stage (r.same_pending.1 k)

Step-ids : {inv inv' : Inventory} → Step inv inv' → inv.next_submit_id ≤ inv'.next_submit_id
unfolding claim_entry mark_submit_accepted mark_submit_unknown release_claim expire_unknowns
    expire_pending release_market_scope apply_user_trade match_pending_submit
Step-ids (Step.trust b) = omega arith
Step-ids (Step.claim token side size now) = ground arith
Step-ids (Step.accept id order now) = omega arith
Step-ids (Step.lose id now) = omega arith
Step-ids (Step.release id) = omega arith
Step-ids (Step.expire_lost older) = omega arith
Step-ids (Step.expire_claims older) = omega arith
Step-ids (Step.trade t h) = omega arith
Step-ids (Step.scope active) = omega arith
Step-ids (Step.reorder _ r) = omega (arith, r.same_ids)

-- For any sequence of operations that leaves ids, the status under every id is that of a run of the
-- machine of submits on the events of just these operations: a claim opens its id, which was free;
-- an acceptance, a loss or a release changes only the submit of its id; a trade binds only one that
-- is there, and drops it if it is final; a sweep gives up only lost ones, or drops only pending
-- ones; leaving a market drops some; all else stays.
pub Reach-Follows :
    {inv : Inventory} (r : Reach inv)
    → inv.next_submit_id < 2 ^ 64 - 1
    → (k : SubmitId) → Follows k (events r) (stage_of inv k)
unfolding lookup
Reach-Follows Reach.start small k = refl
Reach-Follows {inv} (Reach.next {inv = before} r s) small k =
    let room : before.next_submit_id < 2 ^ 64 - 1 = omega (arith, Step-ids s) in
    (stage_of before k, Step-Moves s (Reach-IsValid r) room k, Reach-Follows r room k)
