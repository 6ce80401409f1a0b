-- ===== src/Runtime/Outcomes.antt =====
-- What runtime.rs does to the inventory when a submit's outcome is known, and when a claim has become
-- stale.
pub mod Effects
use polyrust.Prelude.Int.{ℤ, pos}
use polyrust.Prelude.Words.{saturating_sub}
use polyrust.Inventory.{
  Inventory, SubmitId, mark_submit_accepted, mark_submit_unknown, release_claim, expire_unknowns,
  expire_pending,
}
use polyrust.Submit.{SubmitOutcome}
use polyrust.Submit.SubmitOutcome.{accepted, rejected, unknown}

abbrev pub unknown_submit_expire_us : ℤ
unknown_submit_expire_us = pos 5_000_000

abbrev pub pending_submit_expire_us : ℤ
pending_submit_expire_us = pos 60_000_000

unfoldable pub record_buy_submit_outcome : Inventory → SubmitId → SubmitOutcome → ℤ → Inventory
record_buy_submit_outcome inv id (accepted order_id _) now =
    mark_submit_accepted inv id order_id now
record_buy_submit_outcome inv id (unknown _ _) now = mark_submit_unknown inv id now
record_buy_submit_outcome inv id (rejected _ _) now = release_claim inv id

unfoldable pub expire_stale_entry_claims : Inventory → ℤ → Inventory
expire_stale_entry_claims inv now =
    expire_pending (expire_unknowns inv (saturating_sub now unknown_submit_expire_us))
      (saturating_sub now pending_submit_expire_us)
