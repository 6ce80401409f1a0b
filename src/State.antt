-- ===== src/State.antt =====
-- state.rs: the active market, the latest quotes and their recent history. State/Depth is the ask
-- depth of a book.
pub mod Depth
pub mod Rings
pub mod Quotes
mod Tests
use polyrust.Prelude.{
  ℕ, Bool, true, false, not, ◌&&◌, Option, none, some, List, [], ◌∷◌, ◌++◌, find, length, leb,
  and_then, unwrap_or, if◌then◌else◌,
}
use polyrust.Prelude.Int.{ℤ, leb_ℤ}
use polyrust.Prelude.Text.{Text, text_eq}
use polyrust.Prelude.Map.{Map, lookup, insert}
use polyrust.Types.{TokenId, ConditionId, OutcomeSide, PriceTick, TsUs}
use polyrust.Types.OutcomeSide.{yes_side, no_side}
use Depth.{BookDepth, empty_depth, cutoff_for_buy_cents}

pub record MarketContext : Type 0 where
  pub slug : Text
  pub condition_id : ConditionId
  pub yes_token : TokenId
  pub no_token : TokenId
  pub end_ts : ℤ
  pub slug_ts : ℤ

pub record Quote : Type 0 where
  pub bid : Option PriceTick
  pub ask : Option PriceTick
  pub ask_depth : BookDepth
  pub tick : PriceTick
  pub ts_us : TsUs

-- `Option::or`.
abbrev or {ℓ} : {A : Type ℓ} → Option A → Option A → Option A
or none b = b
or (some a) b = some a

unfoldable pub buy_cutoff_for_cents : Quote → ℤ → Option PriceTick
buy_cutoff_for_cents q target_cents = or (cutoff_for_buy_cents q.ask_depth target_cents) q.ask

pub record QuoteHistorySample : Type 0 where
  pub ts_us : TsUs
  pub bid_ticks : Option ℤ
  pub ask_ticks : Option ℤ

-- `QuoteRing`: its samples, oldest first.
abbrev pub QuoteRing : Type 0
QuoteRing = List QuoteHistorySample

abbrev pub quote_history_cap : ℕ
quote_history_cap = 64

-- `while samples.len() >= CAP { samples.pop_front(); }`
unfoldable pub pop_to_cap {ℓ} : {A : Type ℓ} → ℕ → List A → List A
pop_to_cap cap [] = []
pop_to_cap cap (x ∷ r) =
    let rest = pop_to_cap cap r in if leb cap (length (x ∷ r)) then rest else x ∷ r

unfoldable pub push_ring : QuoteRing → QuoteHistorySample → QuoteRing
push_ring ring sample = pop_to_cap quote_history_cap ring ++ sample ∷ []

unfoldable pub oldest_since : QuoteRing → ℤ → Option QuoteHistorySample
oldest_since ring cutoff_us = find (λ s. leb_ℤ cutoff_us s.ts_us) ring

pub record RuntimeState : Type 0 where
  pub market : Option MarketContext
  pub quotes : Map Quote
  pub quote_history : Map QuoteRing
  pub trading_active : Bool

abbrev pub new : RuntimeState
new = record { market = none; quotes = []; quote_history = []; trading_active = false }

unfoldable pub set_market : RuntimeState → MarketContext → RuntimeState
set_market s market = record s {
  market = some market;
  quotes = [];
  quote_history = [];
  trading_active = true;
}

unfoldable pub mark_market_inactive : RuntimeState → RuntimeState
mark_market_inactive s = record s { trading_active = false; quotes = []; quote_history = [] }

abbrev pub token_of : MarketContext → OutcomeSide → TokenId
token_of m yes_side = m.yes_token
token_of m no_side = m.no_token

unfoldable pub token_for_side : RuntimeState → OutcomeSide → Option TokenId
token_for_side s side = and_then s.market (λ m. some (token_of m side))

abbrev pub side_in : TokenId → MarketContext → Option OutcomeSide
side_in token m =
    if text_eq token m.yes_token
    then some yes_side
    else if text_eq token m.no_token
    then some no_side
    else none

unfoldable pub side_for_token : RuntimeState → TokenId → Option OutcomeSide
side_for_token s token = and_then s.market (side_in token)

abbrev pub is_none {ℓ} : {A : Type ℓ} → Option A → Bool
is_none none = true
is_none (some _) = false

-- The two insertions of an accepted quote.
unfoldable pub with_quote : RuntimeState → TokenId → Quote → RuntimeState
with_quote s token quote =
    let sample : QuoteHistorySample = record {
      ts_us = quote.ts_us;
      bid_ticks = quote.bid;
      ask_ticks = quote.ask;
    } in
    record s {
      quote_history =
          insert token (push_ring (unwrap_or (lookup token s.quote_history) []) sample)
            s.quote_history;
      quotes = insert token quote s.quotes;
    }

abbrev pub takes_quote : RuntimeState → TokenId → Bool
takes_quote s token = s.trading_active && not (is_none (side_for_token s token))

unfoldable pub update_quote_with_depth :
    RuntimeState
    → TokenId
    → Option PriceTick
    → Option PriceTick
    → BookDepth
    → PriceTick
    → TsUs
    → RuntimeState × Bool
update_quote_with_depth s token bid ask ask_depth tick ts_us =
    let quote : Quote = record {
      bid = bid;
      ask = ask;
      ask_depth = ask_depth;
      tick = tick;
      ts_us = ts_us;
    } in
    if takes_quote s token then (with_quote s token quote, true) else (s, false)

unfoldable pub update_quote :
    RuntimeState
    → TokenId
    → Option PriceTick
    → Option PriceTick
    → PriceTick
    → TsUs
    → RuntimeState × Bool
update_quote s token bid ask tick ts_us =
    update_quote_with_depth s token bid ask empty_depth tick ts_us

unfoldable pub quote_for_side : RuntimeState → OutcomeSide → Option Quote
unfolding token_for_side
quote_for_side s side = and_then (token_for_side s side) (λ token. lookup token s.quotes)

unfoldable pub quote_for_token : RuntimeState → TokenId → Option Quote
quote_for_token s token = and_then (side_for_token s token) (λ _. lookup token s.quotes)

unfoldable pub quote_history_oldest_since : RuntimeState → TokenId → ℤ → Option QuoteHistorySample
quote_history_oldest_since s token cutoff_us =
    and_then (lookup token s.quote_history) (λ ring. oldest_since ring cutoff_us)
