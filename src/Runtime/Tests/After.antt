-- ===== src/Runtime/Tests/After.antt =====
-- Runs of runtime.rs: the exits, the outcomes of a submit, and a message of the user channel.
use polyrust.Prelude.{Option, ◌/◌, ◌≡◌, ◌⊎◌, refl, none, some, [], ◌∷◌, arith}
use polyrust.Prelude.Int.{pos, ◌≤ℤ◌, ◌<ℤ◌, ◌*ℤ◌, ◌+ℤ◌, ◌-ℤ◌, ediv, tdiv}
use polyrust.Prelude.Words.{wrap64, wrap32, clamp64}
use polyrust.Prelude.Text.{text_eq, codes, trim}
use polyrust.Prelude.Map.{lookup, lookup-insert_self}
use polyrust.Types.{checked}
use polyrust.Types.OutcomeSide.{yes_side}
use polyrust.Types.OrderSide.{buy}
use polyrust.Orders.{canonical_sell_params, floor_from_shares4}
use polyrust.Inventory.{
  Inventory, PendingSubmit, SubmitId, claim_entry, claimed, submit_id,
  has_entry_exposure_or_pending, owned_atoms, sellable, position, is_pending, expire_one,
}
use polyrust.Inventory.SubmitStatus.{expired_unknown}
use polyrust.Inventory.Valid.{IsValid}
use polyrust.Inventory.Valid.Submits.{new-IsValid, claim_entry-IsValid}
use polyrust.Prelude.Json.{Value, Fields, get_field}
use polyrust.State.Quotes.{IsTidy, set_market-IsTidy}
use polyrust.Market.{
  parse_market_events, parse_one, parse_object, apply_market_events, apply_event,
  resolution_matches_active_market, optional_text,
}
use polyrust.State.{
  MarketContext, RuntimeState, new, set_market, mark_market_inactive, side_for_token,
  quote_for_token,
}
use polyrust.Runtime.{RuntimeCore, ExitTracker}
use polyrust.Runtime.Exits.{
  SellPlan, ExitDecision, SignalView, plan_exit, plan_sell_at_bid, sell_plan, bid_of,
}
use polyrust.Runtime.Exits.Rules.{sell_plan_sound}
use polyrust.Runtime.Exits.Sells.{held_position_sold}
use polyrust.Prelude.Result.{done, ok}
use polyrust.Prelude.Attempt.{◌>>=◌}
use polyrust.User.{UserMessage}
use polyrust.User.Tests.{trade_event, one_trade, trade_event_parsed}
use polyrust.Runtime.Intake.{take_message, apply_market_raw, apply_user_raw_with_states}
use polyrust.Runtime.Intake.Keeps.{user_message_keeps, market_message_keeps}
use polyrust.Runtime.Tests.{token_y, quoted_state, inventory_of, core_with}

abbrev tracker : ExitTracker
tracker = record {
  entry_price = pos 42;
  entry_bid = pos 50;
  peak_bid = pos 50;
  fill_ts_us = pos 100;
}

abbrev sale : SellPlan
sale = record { token = token_y; price = pos 38; size = pos 2 }

bid_there : bid_of quoted_state token_y ≡ some (pos 40)
unfolding quote_for_token side_for_token lookup text_eq
bid_there = refl

owned_there : owned_atoms (inventory_of (pos 25_000)) token_y ≡ pos 25_000
unfolding owned_atoms lookup text_eq
owned_there = refl

sells : plan_sell_at_bid token_y quoted_state (inventory_of (pos 25_000)) (pos 2) ≡ some sale
unfolding plan_sell_at_bid sell_plan position sellable owned_atoms checked canonical_sell_params
    floor_from_shares4 quote_for_token side_for_token lookup text_eq ◌-ℤ◌ ◌*ℤ◌ tdiv ediv wrap32
    wrap64
sells = refl

sell_plan_sound_example :
    (sale.token ≡ token_y)
    × (sale.size ≡ sellable (inventory_of (pos 25_000)) token_y)
    × (pos 0 <ℤ sale.size)
    × (sale.size *ℤ pos 10_000 ≤ℤ owned_atoms (inventory_of (pos 25_000)) token_y)
    × (pos 1 ≤ℤ sale.price)
    × ((sale.price ≤ℤ pos 40) ⊎ (sale.price ≡ pos 1))
sell_plan_sound_example =
    sell_plan_sound token_y quoted_state (inventory_of (pos 25_000)) (pos 2) (pos 40) 25_000 sale
      bid_there (omega arith) (omega arith) (omega arith) (omega arith) owned_there (omega arith)
      sells

abbrev the_market : MarketContext
the_market = record {
  slug = codes "m";
  condition_id = codes "c";
  yes_token = token_y;
  no_token = codes "n";
  end_ts = pos 900;
  slug_ts = pos 0;
}

-- A core that owns shares for long, with an engine that values them at the bid and the edge.
abbrev long_held : RuntimeCore
long_held = record (core_with (pos 25_000)) { exit_trackers = (token_y, tracker) ∷ [] }

abbrev engine_view : SignalView
engine_view = record { fair_ticks_for_side = λ _ _. some (pos 41); opposes_side = λ _. none }

held_position_sold_example :
    (x : ExitDecision) × ((plan_exit long_held engine_view the_market
        (pos 5_100)
        token_y
        yes_side).1
      ≡ x ∷ [])
    × (x.plan.token ≡ token_y)
    × (x.plan.size ≡ pos (25_000 / 10_000))
unfolding lookup text_eq ◌+ℤ◌ ◌-ℤ◌ clamp64
held_position_sold_example =
    held_position_sold long_held engine_view the_market (pos 5_100) token_y yes_side tracker
      (pos 40) 25_000 owned_there (omega arith) (omega arith) bid_there (omega arith) (omega arith)
      (omega arith) (omega arith) (omega arith) (omega arith) refl (omega arith) (omega arith)

abbrev one_claim : Inventory
one_claim = (claim_entry polyrust.Inventory.new token_y buy (pos 20_000) (pos 5)).0

abbrev first_submit : PendingSubmit
first_submit = claimed (submit_id 1) token_y buy (pos 20_000) (pos 5)

first_submit_there : lookup (submit_id 1) one_claim.pending ≡ some first_submit
unfolding claim_entry
first_submit_there = lookup-insert_self (submit_id 1) first_submit []

abbrev claimed_core : RuntimeCore
claimed_core = record (core_with (pos 0)) { inventory = one_claim }

abbrev the_message : UserMessage
the_message = UserMessage.trades (one_trade ∷ [])

message_taken :
    apply_user_raw_with_states claimed_core trade_event (pos 7)
    ≡ done (
        ok (
          (take_message claimed_core the_message).0,
          (the_message, (take_message claimed_core the_message).1),
        ))
unfolding apply_user_raw_with_states ◌>>=◌
message_taken = rw trade_event_parsed refl

user_message_keeps_example : IsValid (take_message claimed_core the_message).0.inventory
user_message_keeps_example =
    user_message_keeps claimed_core (take_message claimed_core the_message).0 trade_event (pos 7)
      (the_message, (take_message claimed_core the_message).1) message_taken
      (claim_entry-IsValid polyrust.Inventory.new token_y buy (pos 20_000) (pos 5) new-IsValid)

-- The resolution of the market that is traded.
abbrev resolution : Option Value
resolution = some (
    Value.object (
      Fields.field (codes "event_type") (Value.string (codes "market_resolved"))
        (Fields.field (codes "market") (Value.string (codes "c")) Fields.no_fields)))

abbrev traded : RuntimeState
traded = set_market new the_market

abbrev traded_core : RuntimeCore
traded_core = record (core_with (pos 0)) { state = traded }

abbrev resolved_core : RuntimeCore
resolved_core = record (core_with (pos 0)) { state = mark_market_inactive traded }

resolution_taken : apply_market_raw traded_core resolution (pos 7) ≡ done (ok (resolved_core, 0))
unfolding apply_market_raw parse_market_events parse_one parse_object apply_market_events
    apply_event resolution_matches_active_market set_market mark_market_inactive get_field text_eq
    optional_text trim ◌>>=◌
resolution_taken = refl

market_message_keeps_example :
    IsTidy resolved_core.state
    × (resolved_core ≡ record traded_core { state = resolved_core.state })
market_message_keeps_example =
    market_message_keeps traded_core resolved_core resolution (pos 7) 0 resolution_taken
      (set_market-IsTidy new the_market)
