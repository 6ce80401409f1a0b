-- ===== src/State/Quotes.antt =====
-- The quotes of state.rs: which are accepted, and which market they belong to.
use polyrust.Prelude.{
  ◌≡◌, refl, true, false, ◌&&◌, ◌&&◌, Bool-cases, inl, inr, Option, some, arith, if◌then◌else◌,
}
use polyrust.Prelude.Text.{text_eq, text_eq→eq}
use polyrust.Prelude.Map.{lookup, lookup-insert}
use polyrust.Types.{TokenId, PriceTick, TsUs}
use polyrust.State.{
  RuntimeState, MarketContext, Quote, is_none, takes_quote, with_quote, new, set_market,
  mark_market_inactive, side_for_token, update_quote_with_depth,
}
use polyrust.State.Depth.{BookDepth}

-- Quotes are held of the tokens of the market being traded, and of no other.
abbrev pub IsTidy : RuntimeState → Type 0
IsTidy s =
    (t : TokenId) (q : Quote)
    → lookup t s.quotes ≡ some q
    → (s.trading_active ≡ true) × (is_none (side_for_token s t) ≡ false)

pub new-IsTidy : IsTidy new
unfolding lookup
new-IsTidy t q e = cc

pub set_market-IsTidy : (s : RuntimeState) (m : MarketContext) → IsTidy (set_market s m)
unfolding set_market lookup
set_market-IsTidy s m t q e = cc

pub mark_market_inactive-IsTidy : (s : RuntimeState) → IsTidy (mark_market_inactive s)
unfolding mark_market_inactive lookup
mark_market_inactive-IsTidy s t q e = cc

with_quote-side :
    (s : RuntimeState) (token : TokenId) (quote : Quote) (t : TokenId)
    → side_for_token (with_quote s token quote) t ≡ side_for_token s t
unfolding with_quote side_for_token
with_quote-side s token quote t = refl

with_quote-active :
    (s : RuntimeState) (token : TokenId) (quote : Quote)
    → (with_quote s token quote).trading_active ≡ s.trading_active
unfolding with_quote
with_quote-active s token quote = refl

with_quote-lookup :
    (s : RuntimeState) (token : TokenId) (quote : Quote) (t : TokenId)
    → lookup t (with_quote s token quote).quotes
      ≡ (if text_eq token t then some quote else lookup t s.quotes)
unfolding with_quote
with_quote-lookup s token quote t = lookup-insert token t quote s.quotes

with_quote-IsTidy :
    (s : RuntimeState) (token : TokenId) (quote : Quote)
    → takes_quote s token ≡ true
    → IsTidy s
    → IsTidy (with_quote s token quote)
unfolding side_for_token
with_quote-IsTidy s token quote takes v t q e = elim (Bool-cases (text_eq token t)) [
  | inl same ↦
      let st : token ≡ t = text_eq→eq token t same in
      rw (with_quote-active s token quote, with_quote-side s token quote t, ← st)
        (ground arith, ground arith)
  | inr differs ↦
      let old = v t q (ground (arith, e, with_quote-lookup s token quote t)) in
      rw (with_quote-active s token quote, with_quote-side s token quote t) old
]

module _ (s : RuntimeState) (token : TokenId) (bid ask : Option PriceTick) (depth : BookDepth)
    (tick : PriceTick) (ts_us : TsUs) where
  pub update_quote-IsTidy :
      IsTidy s → IsTidy (update_quote_with_depth s token bid ask depth tick ts_us).0
  unfolding update_quote_with_depth
  update_quote-IsTidy v = elim (Bool-cases (takes_quote s token)) [
    | inl takes ↦ rw takes (with_quote-IsTidy s token _ takes v)
    | inr leaves ↦ rw leaves v
  ]

  -- A quote is taken in exactly when trading is active and the token is one of the market's; it is
  -- then the token's quote, and no other token's quote changes.
  update_quote_effect :
      (t : TokenId)
      → ((update_quote_with_depth s token bid ask depth tick ts_us).1 ≡ takes_quote s token)
        × (lookup t (update_quote_with_depth s token bid ask depth tick ts_us).0.quotes ≡ (
            if takes_quote s token && text_eq token t
            then some
                (record { bid = bid; ask = ask; ask_depth = depth; tick = tick; ts_us = ts_us })
            else lookup t s.quotes))
  unfolding update_quote_with_depth
  update_quote_effect t = elim (Bool-cases (takes_quote s token)) [
    | inl takes ↦ rw takes (refl, with_quote-lookup s token _ t)
    | inr leaves ↦ rw leaves (refl, refl)
  ]

-- What main.rs and market.rs do to the state.
pub data Step : RuntimeState → RuntimeState → Type 0 where
  starts : (s : RuntimeState) (m : MarketContext) → Step s (set_market s m)
  ends : (s : RuntimeState) → Step s (mark_market_inactive s)
  quotes :
      (s : RuntimeState) (token : TokenId) (bid ask : Option PriceTick) (depth : BookDepth)
      (tick : PriceTick) (ts_us : TsUs)
      → Step s (update_quote_with_depth s token bid ask depth tick ts_us).0

pub data Reach : RuntimeState → RuntimeState → Type 0 where
  stop : (s : RuntimeState) → Reach s s
  next : (r s t : RuntimeState) → Step r s → Reach s t → Reach r t

pub Step-IsTidy : (s t : RuntimeState) → Step s t → IsTidy s → IsTidy t
Step-IsTidy s t (starts _ m) v = set_market-IsTidy s m
Step-IsTidy s t (ends _) v = mark_market_inactive-IsTidy s
Step-IsTidy s t (quotes _ token bid ask depth tick ts_us) v =
    update_quote-IsTidy s token bid ask depth tick ts_us v

Reach-IsTidy : (s t : RuntimeState) → Reach s t → IsTidy s → IsTidy t
Reach-IsTidy s t (stop _) v = v
Reach-IsTidy r t (next _ s _ k h) v = Reach-IsTidy s t h (Step-IsTidy r s k v)

-- In every state reached from the first one, quotes are held only while trading is active, and only
-- of the two tokens of the market.
pub reached_quotes-IsTidy : (s : RuntimeState) → Reach new s → IsTidy s
reached_quotes-IsTidy s h = Reach-IsTidy new s h new-IsTidy
