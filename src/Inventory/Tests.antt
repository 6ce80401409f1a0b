-- ===== src/Inventory/Tests.antt =====
-- Runs of inventory.rs: one claim, and the events of one trade.
use polyrust.Prelude.{
  ◌≡◌, ◌≢◌, ◌⊎◌, refl, inl, true, none, some, [], ◌∷◌, arith, unwrap_or, if◌then◌else◌,
}
use polyrust.Prelude.Int.{pos, ◌+ℤ◌, ◌-ℤ◌}
use polyrust.Prelude.Words.{clamp64}
use polyrust.Prelude.Text.{codes, text_eq}
use polyrust.Prelude.Map.{lookup, insert, find_key, lookup-insert_self}
use polyrust.Types.{TokenId, OrderId}
use polyrust.Types.OrderSide.{buy, sell}
use polyrust.Inventory.{
  Inventory, UserTrade, TradeStatus, PendingSubmit, TradeRecord, new, claim_entry, claimed,
  submit_id,
}
use polyrust.Inventory.TradeStatus.{matched, confirmed, failed}
use polyrust.Inventory.Trades.{
  apply_user_trade, match_pending_submit, settle, apply_delta_once, reverse_if_failed,
  apply_inventory_delta,
}
use polyrust.Inventory.Valid.{IsValid}
use polyrust.Inventory.Valid.Submits.{new-IsValid, claim_entry-IsValid}
use polyrust.Inventory.Steps.{Reach, Step, Reach-IsValid}
use polyrust.Inventory.Claims.{claim_entry_fresh, matched_submit_fits}
use polyrust.Inventory.Lifecycle.{apply_all, held, moved, trade_counts_once, final_trade_inert}
use polyrust.Inventory.Lifecycle.Failure.{failed_restores, failed_then_matched_counts}
use polyrust.Inventory.Stages.{Follows, events, stage_of}
use polyrust.Inventory.Stages.Refines.{Reach-Follows}

abbrev token_a : TokenId
token_a = codes "a"

abbrev trade_with : TradeStatus → UserTrade
trade_with status = record {
  trade_id = codes "t";
  token = token_a;
  taker_order_id = none;
  side = buy;
  size_atoms = pos 20_000;
  price = pos 40;
  status = status;
  ts_us = pos 9;
}

trade_counts_once_example :
    held (apply_all new (trade_with matched ∷ trade_with confirmed ∷ [])) token_a ≡ (
      if text_eq token_a token_a
      then moved buy (pos 20_000) (held new token_a)
      else held new token_a)
unfolding lookup ◌+ℤ◌
trade_counts_once_example =
    trade_counts_once new (trade_with matched) (trade_with confirmed ∷ []) refl (inl refl)
      ((refl, λ e. cc e), tt) (omega arith, omega arith) token_a

abbrev final_record : TradeRecord
final_record = record {
  token = token_a;
  side = buy;
  size_atoms = pos 20_000;
  applied = true;
  finalized = true;
}

abbrev final_inventory : Inventory
final_inventory = record new { trades = (codes "t", final_record) ∷ [] }

final_trade_inert_example :
    (apply_all final_inventory (trade_with failed ∷ trade_with matched ∷ [])).owned_by_token ≡ []
unfolding lookup text_eq
final_trade_inert_example =
    final_trade_inert final_inventory (codes "t") final_record
      (trade_with failed ∷ trade_with matched ∷ []) refl refl refl (refl, (refl, tt))

failed_restores_example :
    unwrap_or
      (lookup token_a (apply_all new (trade_with matched ∷ trade_with failed ∷ [])).owned_by_token)
      (pos 0)
    ≡ unwrap_or (lookup token_a []) (pos 0)
unfolding lookup ◌+ℤ◌
failed_restores_example =
    failed_restores new (trade_with matched) (trade_with failed) refl refl refl refl refl refl
      (omega arith, omega arith) (omega arith, omega arith) token_a

failed_then_matched_counts_example :
    (apply_all new (trade_with failed ∷ trade_with matched ∷ trade_with failed ∷ [])).owned_by_token
    ≡ apply_inventory_delta [] token_a buy (pos 20_000)
unfolding lookup
failed_then_matched_counts_example =
    failed_then_matched_counts new (trade_with failed) (trade_with matched) (trade_with failed ∷ [])
      refl refl refl refl (refl, tt)

-- The inventory after one claim of the token.
abbrev one_claim : Inventory
one_claim = (claim_entry new token_a buy (pos 20_000) (pos 5)).0

abbrev first_submit : PendingSubmit
first_submit = claimed (submit_id 1) token_a buy (pos 20_000) (pos 5)

one_claim-IsValid : IsValid one_claim
one_claim-IsValid = claim_entry-IsValid new token_a buy (pos 20_000) (pos 5) new-IsValid

first_submit_there : lookup (submit_id 1) one_claim.pending ≡ some first_submit
unfolding claim_entry
first_submit_there = lookup-insert_self (submit_id 1) first_submit []

abbrev two_steps : Reach (apply_user_trade one_claim (trade_with matched)).0
two_steps =
    Reach.next (Reach.next Reach.start (Step.claim token_a buy (pos 20_000) (pos 5)))
      (Step.trade (trade_with matched) refl)

Reach-IsValid_example : IsValid (apply_user_trade one_claim (trade_with matched)).0
Reach-IsValid_example = Reach-IsValid two_steps

Reach-Follows_example :
    Follows
      (submit_id 1)
      (events two_steps)
      (stage_of (apply_user_trade one_claim (trade_with matched)).0 (submit_id 1))
unfolding apply_user_trade claim_entry match_pending_submit
Reach-Follows_example = Reach-Follows two_steps (omega arith) (submit_id 1)

claim_entry_fresh_example :
    (submit_id 1 ≢ (claim_entry one_claim token_a buy (pos 20_000) (pos 6)).1)
    × (lookup (submit_id 1) (claim_entry one_claim token_a buy (pos 20_000) (pos 6)).0.pending
        ≡ some first_submit)
unfolding claim_entry
claim_entry_fresh_example =
    claim_entry_fresh one_claim token_a buy (pos 20_000) (pos 6) one_claim-IsValid (omega arith)
      (submit_id 1) first_submit first_submit_there

-- The submit is found by its token and side, since the trade names no order.
first_submit_matched :
    (apply_user_trade one_claim (trade_with matched)).1.matched_submit ≡ some (submit_id 1)
unfolding apply_user_trade match_pending_submit claim_entry insert find_key text_eq
first_submit_matched = refl

matched_submit_fits_example :
    (p : PendingSubmit) × (lookup (submit_id 1) one_claim.pending ≡ some p)
    × (((o : OrderId) × (p.order_id ≡ some o) × ((trade_with matched).taker_order_id ≡ some o))
        ⊎ ((p.token ≡ token_a) × (p.side ≡ buy)))
matched_submit_fits_example =
    matched_submit_fits one_claim (trade_with matched) (submit_id 1) one_claim-IsValid
      first_submit_matched

-- A SELL of more than the balance that fails leaves more than there was.
abbrev big_sell : TradeStatus → UserTrade
big_sell status = record (trade_with status) { side = sell }

failed_sell_inflates :
    lookup token_a
      (apply_all
        (record new { owned_by_token = (token_a, pos 10_000) ∷ [] })
        (big_sell matched ∷ big_sell failed ∷ [])).owned_by_token
    ≡ some (pos 20_000)
unfolding apply_all apply_user_trade match_pending_submit settle apply_delta_once reverse_if_failed
    apply_inventory_delta lookup insert find_key text_eq clamp64 ◌+ℤ◌ ◌-ℤ◌
failed_sell_inflates = refl
