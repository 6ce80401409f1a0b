-- ===== src/User.antt =====
-- user.rs: the messages of the user channel. A message arrives as the JSON value that serde_json makes
-- of it, or none.
pub mod Trades
pub mod Tests
use polyrust.Prelude.{
  Bool, ◌||◌, Option, none, some, List, [], ◌∷◌, and_then, is_some_and, unwrap_or, if◌then◌else◌,
}
use polyrust.Prelude.Int.{ℤ}
use polyrust.Prelude.Text.{Text, codes, text_eq, trim, to_ascii_uppercase, eq_ignore_ascii_case}
use polyrust.Prelude.Json.{Value, Values, get, get_str}
use polyrust.Prelude.Result.{done, ok, err}
use polyrust.Prelude.Attempt.{Attempt, ◌>>=◌, pure, require_some, map_err}
use polyrust.Types.{OrderSide, TypeError}
use polyrust.Types.OrderSide.{buy, sell}
use polyrust.Types.Decimal.{parse_i64, parse_shares, parse_price}
use polyrust.Inventory.{UserTrade, from_venue}

pub data UserMessage : Type 0 where
  trades : List UserTrade → UserMessage
  auth_success : UserMessage
  auth_error : Text → UserMessage
  other_message : UserMessage

pub data UserParseError : Type 0 where
  invalid_json missing_field invalid_side : Text → UserParseError
  invalid_price invalid_size : TypeError → UserParseError

abbrev pub drop_empty : Option Text → Option Text
drop_empty none = none
drop_empty (some []) = none
drop_empty (some (c ∷ s)) = some (c ∷ s)

-- The first key whose value is a text.
abbrev pub first_str : Value → List Text → Option Text
first_str v [] = none
first_str v (k ∷ ks) = elim (get_str v k) [ some s ↦ some s | none ↦ first_str v ks ]

unfoldable pub optional_str : Value → List Text → Option Text
optional_str v keys = drop_empty (first_str v keys)

abbrev pub int_of : Value → Option ℤ
int_of (Value.number text (some n)) = some n
int_of (Value.string s) = parse_i64 s
int_of _ = none

unfoldable pub optional_i64 : Value → List Text → Option ℤ
optional_i64 v [] = none
optional_i64 v (k ∷ ks) = elim (and_then (get v k) int_of) [
  | some n ↦ some n
  | none ↦ optional_i64 v ks
]

abbrev pub required_str : Value → List Text → Text → Attempt UserParseError Text
required_str v keys name = require_some (optional_str v keys) (UserParseError.missing_field name)

unfoldable pub parse_side : Text → Attempt UserParseError OrderSide
parse_side raw =
    let t = to_ascii_uppercase (trim raw) in
    if text_eq t (codes "BUY")
    then done (ok buy)
    else if text_eq t (codes "SELL")
    then done (ok sell)
    else done (err (UserParseError.invalid_side raw))

unfoldable pub is_trade_event : Value → Bool
is_trade_event v =
    is_some_and (optional_str v (codes "event_type" ∷ codes "eventType" ∷ codes "type" ∷ []))
      (λ s. eq_ignore_ascii_case s (codes "trade"))

abbrev order_keys : List Text
order_keys =
    codes "taker_order_id"
    ∷ codes "takerOrderId"
    ∷ codes "order_id"
    ∷ codes "orderId"
    ∷ codes "orderID"
    ∷ []

-- `parse_trade_value` of a trade event.
unfoldable pub parse_trade : Value → ℤ → Attempt UserParseError UserTrade
parse_trade v fallback_ts_us = do
  trade_id ←
      required_str v (codes "trade_id" ∷ codes "tradeId" ∷ codes "id" ∷ []) (codes "trade_id")
  token ←
      required_str v (codes "asset_id" ∷ codes "assetId" ∷ codes "token_id" ∷ codes "tokenId" ∷ [])
        (codes "asset_id")
  side_raw ← required_str v (codes "side" ∷ []) (codes "side")
  side ← parse_side side_raw
  size_raw ← required_str v (codes "size" ∷ codes "amount" ∷ []) (codes "size")
  price_raw ← required_str v (codes "price" ∷ []) (codes "price")
  size ← map_err UserParseError.invalid_size (parse_shares size_raw)
  price ← map_err UserParseError.invalid_price (parse_price price_raw)
  pure (record {
    trade_id = trade_id;
    token = token;
    taker_order_id = optional_str v order_keys;
    side = side;
    size_atoms = size;
    price = price;
    status = from_venue (unwrap_or (optional_str v (codes "status" ∷ [])) (codes "MATCHED"));
    ts_us =
        unwrap_or (optional_i64 v (codes "ts_us" ∷ codes "timestamp_us" ∷ codes "timestampUs" ∷ []))
          fallback_ts_us;
  })

unfoldable pub parse_trade_value : Value → ℤ → Attempt UserParseError (Option UserTrade)
parse_trade_value v ts_us =
    if is_trade_event v then (parse_trade v ts_us >>= λ t. pure (some t)) else pure none

abbrev pub push : Option UserTrade → List UserTrade → List UserTrade
push none ts = ts
push (some t) ts = t ∷ ts

-- The items of an array, in order, up to the first error.
unfoldable pub parse_items : Values → ℤ → Attempt UserParseError (List UserTrade)
parse_items Values.no_values ts_us = pure []
parse_items (Values.value v vs) ts_us = do
  item ← parse_trade_value v ts_us
  rest ← parse_items vs ts_us
  pure (push item rest)

unfoldable pub parse_trades : Value → ℤ → Attempt UserParseError (List UserTrade)
parse_trades (Value.array items) ts_us = parse_items items ts_us
parse_trades v ts_us = parse_trade_value v ts_us >>= λ item. pure (push item [])

abbrev pub message_of : List UserTrade → UserMessage
message_of [] = UserMessage.other_message
message_of (t ∷ ts) = UserMessage.trades (t ∷ ts)

abbrev message_keys : List Text
message_keys = codes "message" ∷ codes "msg" ∷ []

-- The answers to the authentication, by the event and the status.
abbrev pub auth_status : Value → Option Text → UserMessage
auth_status v none = UserMessage.other_message
auth_status v (some s) =
    if eq_ignore_ascii_case s (codes "SUCCESS")
    then UserMessage.auth_success
    else if eq_ignore_ascii_case s (codes "ERROR") || eq_ignore_ascii_case s (codes "FAILURE")
    then UserMessage.auth_error (unwrap_or (optional_str v message_keys) s)
    else UserMessage.other_message

unfoldable pub auth_message : Value → Option Text → Option UserMessage
auth_message v none = none
auth_message v (some event) =
    if eq_ignore_ascii_case event (codes "auth")
    then some (auth_status v (optional_str v (codes "status" ∷ [])))
    else if eq_ignore_ascii_case event (codes "error")
    then some
        (UserMessage.auth_error (unwrap_or (optional_str v message_keys) (codes "unknown error")))
    else if eq_ignore_ascii_case event (codes "success")
    then some UserMessage.auth_success
    else none

abbrev pub event_keys : List Text
event_keys = codes "event_type" ∷ codes "eventType" ∷ codes "event" ∷ codes "type" ∷ []

unfoldable pub parse_user_message : Option Value → ℤ → Attempt UserParseError UserMessage
parse_user_message none ts_us = pure UserMessage.other_message
parse_user_message (some v) ts_us = elim (auth_message v (optional_str v event_keys)) [
  | some m ↦ pure m
  | none ↦ parse_trades v ts_us >>= λ ts. pure (message_of ts)
]
