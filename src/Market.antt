-- ===== src/Market.antt =====
-- market.rs: the events of the market channel and their effect on the market state. A message arrives
-- as the JSON value that serde_json makes of it, or none.
pub mod Best
pub mod Effects
mod Tests
use polyrust.Prelude.{
  ℕ, ◌+◌, Bool, true, false, ◌&&◌, Option, none, some, List, [], ◌∷◌, ◌++◌, and_then, or_else,
  unwrap_or, if◌then◌else◌,
}
use polyrust.Prelude.Int.{ℤ, pos, ltb_ℤ, leb_ℤ}
use polyrust.Prelude.Text.{Text, codes, text_eq, trim, eq_ignore_ascii_case}
use polyrust.Prelude.Json.{Value, Values, get}
use polyrust.Prelude.Result.{
  Result, ok, err, Run, done, panic, Fallible, lift, ok_value, map_run, ◌>>=◌,
}
use polyrust.Types.{TokenId, ConditionId, PriceTick, SharesAtoms, TsUs}
use polyrust.Types.Decimal.{parse_price, parse_shares}
use polyrust.State.{
  RuntimeState, MarketContext, mark_market_inactive, update_quote_with_depth, is_none,
}
use polyrust.State.Depth.{BookLevel, BookDepth, empty_depth, from_levels, best_price}

pub record QuoteUpdate : Type 0 where
  pub token : TokenId
  pub bid : Option PriceTick
  pub ask : Option PriceTick
  pub ask_depth : BookDepth
  pub tick : PriceTick

pub data MarketEvent : Type 0 where
  quote : QuoteUpdate → MarketEvent
  resolved : Option ConditionId → MarketEvent

-- Without the text of the parser.
pub data MarketParseError : Type 0 where
  invalid_json : MarketParseError

abbrev pub value_to_string : Value → Option Text
value_to_string (Value.string s) = some (trim s)
value_to_string (Value.number text n) = some text
value_to_string _ = none

-- The first key whose value is a text or a number and not empty.
abbrev nonempty_or : Option Text → Option Text → Option Text
nonempty_or (some (c ∷ s)) rest = some (c ∷ s)
nonempty_or _ rest = rest

unfoldable pub optional_text : Value → List Text → Option Text
optional_text v [] = none
optional_text v (k ∷ ks) = nonempty_or (and_then (get v k) value_to_string) (optional_text v ks)

abbrev pub token_keys : List Text
token_keys = codes "asset_id" ∷ codes "assetId" ∷ codes "token_id" ∷ codes "tokenId" ∷ []

unfoldable pub parse_token : Value → Option TokenId
parse_token v = optional_text v token_keys

abbrev price_of : Text → Fallible PriceTick
price_of raw = map_run ok_value (parse_price raw)

abbrev shares_of : Text → Fallible SharesAtoms
shares_of raw = map_run ok_value (parse_shares raw)

abbrev or_default : Option PriceTick → PriceTick
or_default o = unwrap_or o (pos 1)

unfoldable pub parse_tick : Value → Run PriceTick
parse_tick v =
    map_run or_default
      (lift (optional_text v (codes "tick_size" ∷ codes "tickSize" ∷ [])) >>= price_of)

-- The first key whose value is a text or a number is the one that is parsed.
unfoldable pub optional_price : Value → List Text → Fallible PriceTick
optional_price v [] = done none
optional_price v (k ∷ ks) = elim (and_then (get v k) value_to_string) [
  | some raw ↦ price_of raw
  | none ↦ optional_price v ks
]

abbrev level_of : Option Value → Option Value → Fallible BookLevel
level_of price_value size_value = do
  price_raw ← lift (and_then price_value value_to_string)
  size_raw ← lift (and_then size_value value_to_string)
  price ← price_of price_raw
  size ← shares_of size_raw
  lift (some (record { price = price; size_atoms = size }))

abbrev nth_value : Values → Bool → Option Value
nth_value Values.no_values second = none
nth_value (Values.value v vs) false = some v
nth_value (Values.value v Values.no_values) true = none
nth_value (Values.value v (Values.value w vs)) true = some w

unfoldable pub parse_level : Value → Fallible BookLevel
parse_level (Value.array arr) = level_of (nth_value arr false) (nth_value arr true)
parse_level v = level_of (get v (codes "price")) (get v (codes "size"))

-- `filter_map(parse_level)`.
abbrev keep_level : Option BookLevel → List BookLevel → List BookLevel
keep_level none ls = ls
keep_level (some l) ls = l ∷ ls

abbrev with_rest : Option BookLevel → Run (List BookLevel) → Run (List BookLevel)
with_rest o rest = map_run (keep_level o) rest

unfoldable pub parse_levels : Values → Run (List BookLevel)
parse_levels Values.no_values = done []
parse_levels (Values.value v vs) =
    let rest = parse_levels vs in elim (parse_level v) [ done o ↦ with_rest o rest | panic ↦ panic ]

-- An array of levels, or none.
abbrev levels_of : Option Value → Run (List BookLevel)
levels_of (some (Value.array levels)) = parse_levels levels
levels_of _ = done []

unfoldable pub book_depth : Option Value → Bool → Run BookDepth
book_depth v want_bid = map_run (λ ls. from_levels ls want_bid) (levels_of v)

abbrev pub beats : Bool → ℤ → ℤ → Bool
beats true price prev = ltb_ℤ prev price
beats false price prev = ltb_ℤ price prev

abbrev pub better_of : Bool → Option PriceTick → PriceTick → Option PriceTick
better_of want_bid none price = some price
better_of want_bid (some prev) price = if beats want_bid price prev then some price else some prev

-- The loop of `best_book_price`.
unfoldable pub best_of : Bool → Option PriceTick → List BookLevel → Option PriceTick
best_of want_bid best [] = best
best_of want_bid best (l ∷ ls) =
    best_of want_bid (if leb_ℤ l.size_atoms (pos 0) then best else better_of want_bid best l.price)
      ls

unfoldable pub best_book_price : Option Value → Bool → Run (Option PriceTick)
best_book_price v want_bid = map_run (best_of want_bid none) (levels_of v)

-- A quote with neither price is dropped before its tick is read.
unfoldable pub update_of :
    Value → TokenId → Option PriceTick → Option PriceTick → BookDepth → Fallible QuoteUpdate
update_of v token bid ask depth =
    let build : PriceTick → Option QuoteUpdate = λ tick.
      some (record { token = token; bid = bid; ask = ask; ask_depth = depth; tick = tick }) in
    if is_none bid && is_none ask then done none else map_run build (parse_tick v)

-- A value that a call returns, kept as it is by `?`.
abbrev kept {ℓ} : {A : Type ℓ} → Run A → Fallible A
kept r = map_run some r

unfoldable pub quote_from_book : Value → Fallible QuoteUpdate
quote_from_book v = do
  token ← lift (parse_token v)
  ask_depth ← kept (book_depth (get v (codes "asks")) false)
  bid ← kept (best_book_price (get v (codes "bids")) true)
  update_of v token bid (best_price ask_depth) ask_depth

unfoldable pub quote_from_dict : Value → Fallible QuoteUpdate
quote_from_dict v = do
  token ← lift (parse_token v)
  bid ← kept (optional_price v (codes "best_bid" ∷ codes "bestBid" ∷ codes "bid" ∷ []))
  ask ← kept (optional_price v (codes "best_ask" ∷ codes "bestAsk" ∷ codes "ask" ∷ []))
  update_of v token bid ask empty_depth

abbrev event_of : Option QuoteUpdate → List MarketEvent
event_of none = []
event_of (some u) = MarketEvent.quote u ∷ []

abbrev append_run : Run (List MarketEvent) → Run (List MarketEvent) → Run (List MarketEvent)
append_run (done xs) (done ys) = done (xs ++ ys)
append_run panic _ = panic
append_run (done xs) panic = panic

unfoldable pub parse_changes : Values → Run (List MarketEvent)
parse_changes Values.no_values = done []
parse_changes (Values.value v vs) =
    append_run (map_run event_of (quote_from_dict v)) (parse_changes vs)

abbrev array_of : Option Value → Option Values
array_of (some (Value.array vs)) = some vs
array_of _ = none

abbrev changes_of : Value → Option Values
changes_of v = array_of (or_else (get v (codes "price_changes")) (get v (codes "priceChanges")))

-- `parse_one` of an object.
unfoldable pub parse_object : Value → Run (List MarketEvent)
parse_object v =
    let event_type =
      unwrap_or (optional_text v (codes "event_type" ∷ codes "eventType" ∷ codes "type" ∷ [])) [] in
    let condition =
      optional_text v (codes "market" ∷ codes "condition_id" ∷ codes "conditionId" ∷ []) in
    let plain : Run (List MarketEvent) = elim (changes_of v) [
      | some changes ↦ parse_changes changes
      | none ↦ map_run event_of (quote_from_dict v)
    ] in
    if eq_ignore_ascii_case event_type (codes "market_resolved")
    then done (MarketEvent.resolved condition ∷ [])
    else if eq_ignore_ascii_case event_type (codes "book")
    then map_run event_of (quote_from_book v)
    else plain

unfoldable pub parse_one : Value → Run (List MarketEvent)
parse_one (Value.object fields) = parse_object (Value.object fields)
parse_one v = done []

unfoldable pub parse_all : Values → Run (List MarketEvent)
parse_all Values.no_values = done []
parse_all (Values.value v vs) = append_run (parse_one v) (parse_all vs)

unfoldable pub parse_market_events : Option Value → Run (Result MarketParseError (List MarketEvent))
parse_market_events none = done (err MarketParseError.invalid_json)
parse_market_events (some (Value.array items)) = map_run ok (parse_all items)
parse_market_events (some v) = map_run ok (parse_one v)

unfoldable pub resolution_matches_active_market : Option ConditionId → RuntimeState → Bool
resolution_matches_active_market none s = false
resolution_matches_active_market (some id) s =
    unwrap_or (and_then s.market (λ (m : MarketContext). some (text_eq m.condition_id id))) false

-- One event, and whether it counts as applied.
unfoldable pub apply_event : RuntimeState → MarketEvent → TsUs → RuntimeState × Bool
apply_event s (MarketEvent.quote q) ts_us =
    update_quote_with_depth s q.token q.bid q.ask q.ask_depth q.tick ts_us
apply_event s (MarketEvent.resolved id) ts_us =
    (if resolution_matches_active_market id s then mark_market_inactive s else s, false)

unfoldable pub apply_market_events : RuntimeState → List MarketEvent → TsUs → RuntimeState × ℕ
apply_market_events s [] ts_us = (s, 0)
apply_market_events s (e ∷ es) ts_us =
    let (s', counts) = apply_event s e ts_us in
    let (s'', n) = apply_market_events s' es ts_us in (s'', if counts then n + 1 else n)
