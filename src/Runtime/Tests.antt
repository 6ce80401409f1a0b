-- ===== src/Runtime/Tests.antt =====
-- Runs of runtime.rs: an entry, and the gates before it, on a core that holds little of one token. The
-- child has the exits, the outcomes and the intake.
mod After
mod Engine
use polyrust.Prelude.{
  ℕ, ◌+◌, ◌*◌, ◌≤◌, ◌<◌, ◌≡◌, ◌≢◌, ◌⊎◌, refl, true, Option, none, some, [], ◌∷◌, arith,
}
use polyrust.Prelude.Int.{ℤ, pos, ◌≤ℤ◌, ◌<ℤ◌, ◌*ℤ◌, ◌+ℤ◌, ◌-ℤ◌, tdiv}
use polyrust.Prelude.Words.{clamp64, wrap64, wrap32, clamp32}
use polyrust.Prelude.Text.{codes, text_eq}
use polyrust.Prelude.Map.{lookup, insert, any_value, lookup-insert_self}
use polyrust.Types.{TokenId}
use polyrust.Types.OrderSide.{buy}
use polyrust.Types.OutcomeSide.{yes_side}
use polyrust.Inventory.{
  Inventory, PendingSubmit, claim_entry, claimed, submit_id, has_entry_exposure_or_pending,
  owned_atoms,
}
use polyrust.Inventory.SubmitStatus.{expired_unknown}
use polyrust.State.{
  RuntimeState, MarketContext, Quote, token_for_side, side_for_token, quote_for_side,
  quote_for_token, quote_history_oldest_since, oldest_since,
}
use polyrust.State.Depth.{empty_depth}
use polyrust.Signal.{BuyIntent}
use polyrust.Runtime.{
  RuntimeCore, EntryGateConfig, next_ewma, required_drift, drift_of, entry_gate_block, rtt_gate,
  drift_gates, drift_up_gate, drift_down_gate, edge_gate, intent_unless_exposed, on_sample,
  on_binance_sample,
}
use polyrust.Runtime.Gates.{ewma_between, entry_gate_passed}
use polyrust.Runtime.Entry.{entry_is_clear, entry_submits_given_up, claimed_token_refused}

abbrev pub token_y : TokenId
token_y = codes "y"

abbrev quote_at : ℤ → ℤ → Quote
quote_at bid ask = record {
  bid = some bid;
  ask = some ask;
  ask_depth = empty_depth;
  tick = pos 1;
  ts_us = pos 900;
}

abbrev pub quoted_state : RuntimeState
quoted_state = record {
  market = some (record {
    slug = codes "m";
    condition_id = codes "c";
    yes_token = token_y;
    no_token = codes "n";
    end_ts = pos 900;
    slug_ts = pos 0;
  });
  quotes = (token_y, quote_at (pos 40) (pos 42)) ∷ (codes "n", quote_at (pos 58) (pos 60)) ∷ [];
  quote_history =
      (
        token_y,
        record { ts_us = pos 500; bid_ticks = some (pos 40); ask_ticks = some (pos 42) } ∷ [],
      )
      ∷ [];
  trading_active = true;
}

-- A submit of the token that has been given up.
abbrev given_up : PendingSubmit
given_up = record (claimed (submit_id 1) token_y buy (pos 20_000) (pos 5)) {
  status = expired_unknown;
}

abbrev pub inventory_of : ℤ → Inventory
inventory_of owned = record {
  user_wss_trusted = true;
  next_submit_id = 1;
  owned_by_token = (token_y, owned) ∷ [];
  trades = [];
  pending = (submit_id 1, given_up) ∷ [];
}

abbrev gates : EntryGateConfig
gates = record {
  rtt_ceiling_us = pos 300;
  poly_drift_window_us = pos 600;
  poly_drift_block_up_ticks = pos 3;
  poly_drift_block_down_ticks = pos 3;
  poly_drift_safety_bps = pos 10_000;
  poly_drift_min_clean_edge_ticks = pos 1;
}

abbrev pub core_with : ℤ → RuntimeCore
core_with owned = record {
  state = quoted_state;
  inventory = inventory_of owned;
  buy_policy = record {
    target_maker_cents = pos 101;
    min_size_taker_units = pos 100;
    min_maker_cents = pos 100;
    max_overrun_cents = pos 1;
    max_overrun_bps = pos 0;
  };
  sell_slippage_ticks = pos 2;
  exit_drop_ticks = pos 2;
  exit_arm_ticks = pos 4;
  exit_stop_ticks = pos 5;
  exit_edge_ticks = pos 1;
  exit_hold_us = pos 1_000;
  exit_trackers = [];
  entry_gates = gates;
  rtt_ewma_us = pos 200;
}

abbrev some_intent : BuyIntent
some_intent = record {
  side = yes_side;
  token = token_y;
  limit = pos 42;
  edge_price = pos 44;
  edge_ticks = pos 5;
}

abbrev same_intent : MarketContext → Quote → Quote → Option BuyIntent
same_intent market yes_quote no_quote = some some_intent

no_drift : drift_of (core_with (pos 0)) some_intent (pos 1_000) ≡ some (pos 0, pos 500)
unfolding quote_history_oldest_since quote_for_token side_for_token oldest_since lookup text_eq ◌-ℤ◌
    wrap64 wrap32
no_drift = refl

passes : entry_gate_block (core_with (pos 0)) some_intent (pos 1_000) ≡ none
unfolding entry_gate_block rtt_gate drift_gates drift_up_gate drift_down_gate edge_gate
    required_drift quote_history_oldest_since quote_for_token side_for_token oldest_since lookup
    text_eq ◌-ℤ◌ ◌+ℤ◌ ◌*ℤ◌ tdiv wrap64 wrap32 clamp64 clamp32
passes = refl

entry_gate_passed_example :
    ((pos 300 ≤ℤ pos 0) ⊎ (pos 200 ≤ℤ pos 300))
    × ((pos 3 ≤ℤ pos 0) ⊎ (pos 0 <ℤ pos 3))
    × ((pos 3 ≡ pos 0) ⊎ (pos 0 <ℤ pos 0 +ℤ pos 3))
entry_gate_passed_example =
    entry_gate_passed (core_with (pos 0)) some_intent (pos 1_000) (pos 0) (pos 500) no_drift
      (omega arith) (omega arith) (omega arith) passes

enters : on_binance_sample (core_with (pos 0)) same_intent (pos 1_000) ≡ some some_intent
unfolding on_binance_sample on_sample intent_unless_exposed has_entry_exposure_or_pending
    owned_atoms any_value quote_for_side token_for_side entry_gate_block rtt_gate drift_gates
    drift_up_gate drift_down_gate edge_gate required_drift quote_history_oldest_since
    quote_for_token side_for_token oldest_since lookup text_eq ◌-ℤ◌ ◌+ℤ◌ ◌*ℤ◌ tdiv wrap64 wrap32
    clamp64 clamp32
enters = refl

given_up_there : lookup (submit_id 1) (inventory_of (pos 0)).pending ≡ some given_up
unfolding lookup insert text_eq submit_id
given_up_there = lookup-insert_self (submit_id 1) given_up []

claimed_token_refused_example :
    on_binance_sample
      (record (core_with (pos 0)) {
        inventory = (claim_entry (inventory_of (pos 0)) token_y buy (pos 20_000) (pos 1_000)).0;
      })
      same_intent
      (pos 1_001)
    ≢ some some_intent
claimed_token_refused_example =
    claimed_token_refused (core_with (pos 0)) same_intent (pos 1_001) token_y buy (pos 20_000)
      (pos 1_000) some_intent refl
