-- ===== src/User/Trades.antt =====
-- What user.rs lets into the inventory: trades of sizes that are not negative, at tradeable prices.
use mathlib.Core.Path.{subst}
use polyrust.Prelude.{
  ◌≡◌, ◌≢◌, ap, ◌∙◌, Bool-cases, Option-cases, inl, inr, Option, none, some, List, [], ◌∷◌, All,
  arith,
}
use polyrust.Prelude.Int.{ℤ, pos, ◌≤ℤ◌}
use polyrust.Prelude.Text.{Text, codes}
use polyrust.Prelude.Json.{Value, Values}
use polyrust.Prelude.Result.{ok, Run, done, panic, map_run}
use polyrust.Prelude.Attempt.{◌>>=◌, pure, bind_ok, map_err_ok, pure_ok}
use polyrust.Types.{PriceTick, SharesAtoms, checked}
use polyrust.Types.Decimal.{parse_shares, parse_price, to_atoms, to_tick}
use polyrust.Inventory.{UserTrade}
use polyrust.Inventory.Valid.{IsNonneg}
use polyrust.User.{
  UserMessage, parse_trade, parse_trade_value, parse_items, parse_trades, parse_user_message,
  auth_message, optional_str, is_trade_event, push, message_of, auth_status, event_keys,
}

-- A size that is not negative and a price that can be traded.
abbrev pub IsSound : UserTrade → Type 0
IsSound t = IsNonneg t.size_atoms × (pos 1 ≤ℤ t.price) × (t.price ≤ℤ pos 99)

shares-IsNonneg :
    (r : Run (Option ℤ)) (a : SharesAtoms) → map_run to_atoms r ≡ done (ok a) → IsNonneg a
shares-IsNonneg (done none) a e = absurd (ground arith)
shares-IsNonneg (done (some z)) a e = ground arith
shares-IsNonneg panic a e = absurd (ground arith)

price_in_range :
    (r : Run (Option ℤ)) (p : PriceTick)
    → map_run to_tick r ≡ done (ok p)
    → (pos 1 ≤ℤ p) × (p ≤ℤ pos 99)
unfolding checked
price_in_range (done none) p e = absurd (ground arith)
price_in_range (done (some z)) p e = ground arith
price_in_range panic p e = absurd (ground arith)

parse_trade-IsSound :
    (v : Value) (ts_us : ℤ) (t : UserTrade) → parse_trade v ts_us ≡ done (ok t) → IsSound t
unfolding parse_trade parse_shares parse_price
parse_trade-IsSound v ts_us t e =
    let (_, _, e1) = bind_ok _ _ t e in
    let (_, _, e2) = bind_ok _ _ t e1 in
    let (_, _, e3) = bind_ok _ _ t e2 in
    let (_, _, e4) = bind_ok _ _ t e3 in
    let (_, _, e5) = bind_ok _ _ t e4 in
    let (_, _, e6) = bind_ok _ _ t e5 in
    let (size, es, e7) = bind_ok _ _ t e6 in
    let (price, ep, e8) = bind_ok _ _ t e7 in
    let built = pure_ok _ t e8 in
    let z : size ≡ t.size_atoms = ap (λ (x : UserTrade). x.size_atoms) built in
    let q : price ≡ t.price = ap (λ (x : UserTrade). x.price) built in
    let (lo, hi) = price_in_range _ price (map_err_ok _ _ price ep) in
    (
      subst IsNonneg z (shares-IsNonneg _ size (map_err_ok _ _ size es)),
      subst (λ p. pos 1 ≤ℤ p) q lo,
      subst (λ p. p ≤ℤ pos 99) q hi,
    )

abbrev OptionSound : Option UserTrade → Type 0
OptionSound none = Unit
OptionSound (some t) = IsSound t

push-IsSound :
    (o : Option UserTrade) (ts : List UserTrade)
    → OptionSound o
    → All IsSound ts
    → All IsSound (push o ts)
push-IsSound none ts h k = k
push-IsSound (some t) ts h k = (h, k)

parse_trade_value-IsSound :
    (v : Value) (ts_us : ℤ) (o : Option UserTrade)
    → parse_trade_value v ts_us ≡ done (ok o)
    → OptionSound o
unfolding parse_trade_value
parse_trade_value-IsSound v ts_us o e = elim (Bool-cases (is_trade_event v)) [
  | inl is ↦
      let (t, et, e1) = bind_ok _ _ o (rw is at e) in
      let same : some t ≡ o = pure_ok _ o e1 in
      subst OptionSound same (parse_trade-IsSound v ts_us t et)
  | inr is_not ↦
      let same : none ≡ o = pure_ok _ o (rw is_not at e) in
      let nothing : OptionSound none = tt in subst OptionSound same nothing
]

parse_items-IsSound :
    (vs : Values) (ts_us : ℤ) (ts : List UserTrade)
    → parse_items vs ts_us ≡ done (ok ts)
    → All IsSound ts
unfolding parse_items
parse_items-IsSound Values.no_values ts_us ts e =
    let same : [] ≡ ts = pure_ok _ ts e in
    let nothing : All IsSound [] = tt in subst (All IsSound) same nothing
parse_items-IsSound (Values.value v vs) ts_us ts e =
    let (item, ei, e1) = bind_ok _ _ ts e in
    let (rest, er, e2) = bind_ok _ _ ts e1 in
    let same : push item rest ≡ ts = pure_ok _ ts e2 in
    subst (All IsSound) same (
      push-IsSound item rest (parse_trade_value-IsSound v ts_us item ei)
        (parse_items-IsSound vs ts_us rest er))

one :
    (v : Value) (ts_us : ℤ) (ts : List UserTrade)
    → (parse_trade_value v ts_us >>= λ item. pure (push item [])) ≡ done (ok ts)
    → All IsSound ts
one v ts_us ts e =
    let (item, ei, e1) = bind_ok _ _ ts e in
    let same : push item [] ≡ ts = pure_ok _ ts e1 in
    subst (All IsSound) same (push-IsSound item [] (parse_trade_value-IsSound v ts_us item ei) tt)

parse_trades-IsSound :
    (v : Value) (ts_us : ℤ) (ts : List UserTrade)
    → parse_trades v ts_us ≡ done (ok ts)
    → All IsSound ts
unfolding parse_trades
parse_trades-IsSound (Value.array items) ts_us ts e = parse_items-IsSound items ts_us ts e
parse_trades-IsSound Value.null ts_us ts e = one Value.null ts_us ts e
parse_trades-IsSound (Value.boolean b) ts_us ts e = one (Value.boolean b) ts_us ts e
parse_trades-IsSound (Value.number s n) ts_us ts e = one (Value.number s n) ts_us ts e
parse_trades-IsSound (Value.string s) ts_us ts e = one (Value.string s) ts_us ts e
parse_trades-IsSound (Value.object f) ts_us ts e = one (Value.object f) ts_us ts e

auth_status-no_trades :
    (v : Value) (o : Option Text) (ts : List UserTrade) → auth_status v o ≢ UserMessage.trades ts
auth_status-no_trades v none ts e = cc
auth_status-no_trades v (some s) ts e = ground (arith, e)

auth_message-no_trades :
    (v : Value) (o : Option Text) (ts : List UserTrade)
    → auth_message v o ≢ some (UserMessage.trades ts)
unfolding auth_message
auth_message-no_trades v none ts e = cc
auth_message-no_trades v (some s) ts e =
    ground (arith, e, auth_status-no_trades v (optional_str v (codes "status" ∷ [])) ts)

message_of-trades : (ts us : List UserTrade) → message_of ts ≡ UserMessage.trades us → ts ≡ us
message_of-trades [] us e = cc
message_of-trades (t ∷ ts) us e = ground (arith, e)

-- Each trade of a parsed message has a size that is not negative and a price of 1 to 99 ticks.
pub parsed_trades-IsSound :
    (v : Option Value) (ts_us : ℤ) (ts : List UserTrade)
    → parse_user_message v ts_us ≡ done (ok (UserMessage.trades ts))
    → All IsSound ts
unfolding parse_user_message
parsed_trades-IsSound none ts_us ts e = absurd (ground (arith, e))
parsed_trades-IsSound (some v) ts_us ts e =
    elim (Option-cases (auth_message v (optional_str v event_keys))) [
      | inl silent ↦
          let (us, eu, e1) =
            bind_ok _ _ (UserMessage.trades ts) (rw (parse_user_message, silent) at e) in
          let same = message_of-trades us ts (pure_ok _ (UserMessage.trades ts) e1) in
          subst (All IsSound) same (parse_trades-IsSound v ts_us us eu)
      | inr (m, answer) ↦ absurd (
          auth_message-no_trades v (optional_str v event_keys) ts (
            answer
            ∙ ap some (pure_ok m (UserMessage.trades ts) (rw (parse_user_message, answer) at e))))
    ]
