-- ===== src/Market/Effects.antt =====
-- What the events of market.rs may do to the market state.
use polyrust.Prelude.{Bool-cases, inl, inr, List, [], ◌∷◌}
use polyrust.Types.{TsUs}
use polyrust.State.{RuntimeState}
use polyrust.State.Quotes.{IsTidy, mark_market_inactive-IsTidy, update_quote-IsTidy}
use polyrust.Market.{
  MarketEvent, apply_event, apply_market_events, resolution_matches_active_market,
}

apply_event-IsTidy :
    (s : RuntimeState) (e : MarketEvent) (ts_us : TsUs)
    → IsTidy s
    → IsTidy (apply_event s e ts_us).0
unfolding apply_event
apply_event-IsTidy s (MarketEvent.quote q) ts_us v =
    update_quote-IsTidy s q.token q.bid q.ask q.ask_depth q.tick ts_us v
apply_event-IsTidy s (MarketEvent.resolved id) ts_us v =
    elim (Bool-cases (resolution_matches_active_market id s)) [
      | inl own ↦ rw own (mark_market_inactive-IsTidy s)
      | inr foreign ↦ rw foreign v
    ]

-- Events of the market channel keep it so that quotes are held only while trading is active, and
-- only of the two tokens of the market.
pub apply_market_events-IsTidy :
    (s : RuntimeState) (es : List MarketEvent) (ts_us : TsUs)
    → IsTidy s
    → IsTidy (apply_market_events s es ts_us).0
unfolding apply_market_events
apply_market_events-IsTidy s [] ts_us v = v
apply_market_events-IsTidy s (e ∷ es) ts_us v =
    apply_market_events-IsTidy (apply_event s e ts_us).0 es ts_us (apply_event-IsTidy s e ts_us v)
