-- ===== src/Runtime/Outcomes/Effects.antt =====
-- The life of one claim in runtime.rs: what each outcome leaves of it, and until when it blocks.
use polyrust.Prelude.{◌≡◌, ◌&&◌, Option, none, some, arith, if◌then◌else◌}
use polyrust.Prelude.Int.{ℤ, pos, leb_ℤ}
use polyrust.Prelude.Words.{saturating_sub}
use polyrust.Prelude.Text.{text_eq}
use polyrust.Prelude.Map.{lookup, lookup-remove, lookup-update}
use polyrust.Types.{OrderId}
use polyrust.Inventory.{
  Inventory, SubmitId, PendingSubmit, claim_entry, claimed, submit_id, next_id,
  mark_submit_accepted, mark_submit_unknown, release_claim, expire_unknowns, expire_pending,
  is_unknown, is_pending, expire_one,
}
use polyrust.Inventory.SubmitStatus.{expired_unknown}
use polyrust.Inventory.Claims.{lookup-expire_unknowns, lookup-expire_pending}
use polyrust.Inventory.Valid.{IsValid}
use polyrust.Inventory.Valid.Submits.{expire_unknowns-IsValid}
use polyrust.Submit.{SubmitOutcome}
use polyrust.Submit.SubmitOutcome.{accepted, rejected, unknown}
use polyrust.Runtime.Outcomes.{record_buy_submit_outcome, expire_stale_entry_claims}

abbrev accepted_as : OrderId → ℤ → PendingSubmit → PendingSubmit
accepted_as order_id now p = record p {
  order_id = some order_id;
  status = polyrust.Inventory.SubmitStatus.accepted;
  updated_ts_us = now;
}

abbrev unknown_at : ℤ → PendingSubmit → PendingSubmit
unknown_at now p = record p {
  status = polyrust.Inventory.SubmitStatus.unknown;
  updated_ts_us = now;
}

-- What an outcome leaves of the submit it is about.
abbrev pub after_outcome : SubmitOutcome → ℤ → PendingSubmit → Option PendingSubmit
after_outcome (accepted order_id _) now p = some (accepted_as order_id now p)
after_outcome (unknown _ _) now p = some (unknown_at now p)
after_outcome (rejected _ _) now p = none

-- A rejection removes the submit, an acceptance gives it the order id, an unknown outcome keeps it
-- for the trade that may still come, and every other submit stays as it was.
outcome_effect :
    (inv : Inventory) (id k : SubmitId) (outcome : SubmitOutcome) (now : ℤ) (p : PendingSubmit)
    → lookup k inv.pending ≡ some p
    → lookup k (record_buy_submit_outcome inv id outcome now).pending
      ≡ (if text_eq id k then after_outcome outcome now p else some p)
unfolding record_buy_submit_outcome mark_submit_accepted mark_submit_unknown release_claim
outcome_effect inv id k (accepted o _) now p e =
    ground (arith, e, lookup-update id k (accepted_as o now) inv.pending)
outcome_effect inv id k (unknown _ _) now p e =
    ground (arith, e, lookup-update id k (unknown_at now) inv.pending)
outcome_effect inv id k (rejected _ _) now p e = ground (arith, e, lookup-remove id k inv.pending)

-- A sweep drops a claim that never reported for a minute, gives up an unknown one that is five
-- seconds old, and leaves every other submit, in a valid inventory.
pub stale_sweep :
    (inv : Inventory) (now : ℤ) (k : SubmitId) (p : PendingSubmit)
    → IsValid inv
    → lookup k inv.pending ≡ some p
    → lookup k (expire_stale_entry_claims inv now).pending ≡ (
        if is_pending p.status && leb_ℤ p.created_ts_us (saturating_sub now (pos 60_000_000))
        then none
        else some (expire_one (saturating_sub now (pos 5_000_000)) p))
unfolding expire_stale_entry_claims
stale_sweep inv now k p v e =
    let swept = expire_one (saturating_sub now (pos 5_000_000)) p in
    let kept : lookup k (expire_unknowns inv (saturating_sub now (pos 5_000_000))).pending
        ≡ some swept =
      lookup-expire_unknowns inv (saturating_sub now (pos 5_000_000)) k p e in
    ground (
      arith,
      lookup-expire_pending (expire_unknowns inv (saturating_sub now (pos 5_000_000)))
          (saturating_sub now (pos 60_000_000)) k swept
          (expire_unknowns-IsValid inv (saturating_sub now (pos 5_000_000)) v) kept,
    )
