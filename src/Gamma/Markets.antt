-- ===== src/Gamma/Markets.antt =====
-- The market that gamma.rs finds in an event.
use mathlib.Core.Path.{subst}
use polyrust.Prelude.{
  ◌≡◌, ◌≢◌, refl, true, false, not, ◌&&◌, Bool-cases, inl, inr, Option, Option-cases, none, some,
  List, [], ◌∷◌, and_then, find, find-holds, arith,
}
use polyrust.Prelude.Int.{ℤ, ◌<ℤ◌, leb_ℤ}
use polyrust.Prelude.Text.{Text, codes, text_eq, text_eq_iff}
use polyrust.Prelude.Json.{Value, get, get_str, as_array}
use polyrust.State.{MarketContext}
use polyrust.Gamma.{
  end_of, nonempty, parse_clob_tokens, JsonReader, ClobToken, select_yes_no, has_keyword,
  yes_keywords, no_keywords, is_trading, market_context, first_market, discover_event, flag,
}

-- The two tokens have different ids, and an outcome of their side.
abbrev pub IsPair : ClobToken → ClobToken → Type 0
IsPair y n =
    (has_keyword yes_keywords y ≡ true)
    × (has_keyword no_keywords n ≡ true)
    × (n.token_id ≢ y.token_id)

select_yes_no-IsPair :
    (tokens : List ClobToken) (y n : ClobToken) → select_yes_no tokens ≡ some (y, n) → IsPair y n
unfolding select_yes_no
select_yes_no-IsPair tokens y n e = elim (Option-cases (find (has_keyword yes_keywords) tokens)) [
  | inl no_yes ↦ absurd (ground arith)
  | inr (y', found) ↦
      elim (Option-cases
        (find (λ t. has_keyword no_keywords t && not (text_eq t.token_id y'.token_id)) tokens)) [
          | inl no_no ↦ absurd (ground arith)
          | inr (n', found') ↦
              let both =
                find-holds (λ t. has_keyword no_keywords t && not (text_eq t.token_id y'.token_id))
                  tokens n' found' in
              let yes_one = find-holds (has_keyword yes_keywords) tokens y' found in
              let same_yes : y' ≡ y = ground arith in
              let same_no : n' ≡ n = ground arith in
              let pair : IsPair y' n' = (
                yes_one,
                ground arith,
                λ same. ground (arith, same, text_eq_iff n'.token_id y'.token_id),
              ) in
              subst (λ z. IsPair z n) same_yes (subst (IsPair y') same_no pair)
        ]
]

-- A market of the slug with an id and two different tokens.
abbrev pub IsContext : Text → ℤ → MarketContext → Type 0
IsContext slug ts ctx =
    (ctx.slug ≡ slug)
    × (ctx.slug_ts ≡ ts)
    × (ctx.no_token ≢ ctx.yes_token)
    × (ctx.condition_id ≢ [])

nonempty_lem : (o : Option Text) (c : Text) → and_then o nonempty ≡ some c → c ≢ []
nonempty_lem none c e = absurd cc
nonempty_lem (some []) c e = absurd cc
nonempty_lem (some (x ∷ s)) c e = λ h. ground (arith, e, h)

market_context-IsContext :
    (r : JsonReader) (slug : Text) (ts w : ℤ) (market : Value) (ctx : MarketContext)
    → market_context r slug ts w market ≡ some ctx
    → IsContext slug ts ctx
unfolding market_context
market_context-IsContext r slug ts w market ctx e =
    elim (Option-cases (and_then (get_str market (codes "conditionId")) nonempty)) [
      | inl no_id ↦ absurd (ground arith)
      | inr (c, at_c) ↦ elim (Option-cases (get market (codes "clobTokenIds"))) [
        | inl no_ids ↦ absurd (ground arith)
        | inr (ids, at_ids) ↦
            elim (Option-cases (parse_clob_tokens r ids (get market (codes "outcomes")))) [
              | inl no_tokens ↦ absurd (ground arith)
              | inr (tokens, at_tokens) ↦ elim (Option-cases (select_yes_no tokens)) [
                | inl no_pair ↦ absurd (ground arith)
                | inr ((y, n), chosen) ↦
                    let made : MarketContext = record {
                      slug = slug;
                      condition_id = c;
                      yes_token = y.token_id;
                      no_token = n.token_id;
                      end_ts = end_of market ts w;
                      slug_ts = ts;
                    } in
                    let same : made ≡ ctx = ground arith in
                    subst (IsContext slug ts) same (
                      refl,
                      refl,
                      (select_yes_no-IsPair tokens y n chosen).2,
                      nonempty_lem (get_str market (codes "conditionId")) c at_c,
                    )
              ]
            ]
      ]
    ]

-- It is open: its end is after now.
abbrev pub IsOpen : Text → ℤ → ℤ → MarketContext → Type 0
IsOpen slug ts now ctx = IsContext slug ts ctx × (now <ℤ ctx.end_ts)

first_market-IsOpen :
    (r : JsonReader) (slug : Text) (ts w now : ℤ) (markets : List Value) (ctx : MarketContext)
    → first_market r slug ts w now markets ≡ some ctx
    → IsOpen slug ts now ctx
unfolding first_market
first_market-IsOpen r slug ts w now [] ctx e = absurd cc
first_market-IsOpen r slug ts w now (m ∷ ms) ctx e = elim (Bool-cases (not (is_trading m))) [
  | inl idle ↦ first_market-IsOpen r slug ts w now ms ctx (rw idle at e)
  | inr trades ↦ elim (Option-cases (market_context r slug ts w m)) [
    | inl unread ↦ absurd (ground arith)
    | inr (found, at_found) ↦ elim (Bool-cases (leb_ℤ found.end_ts now)) [
      | inl over ↦ first_market-IsOpen r slug ts w now ms ctx (ground arith)
      | inr running ↦
          let same : found ≡ ctx = ground arith in
          let context = market_context-IsContext r slug ts w m found at_found in
          subst (IsOpen slug ts now) same (context, ground arith)
    ]
  ]
]

-- A market is found only in an event that is active and not closed; it has the slug and start asked
-- for, an id, two tokens with different ids, and an end after now.
pub discovered_market-IsOpen :
    (r : JsonReader) (slug : Text) (ts w now : ℤ) (event : Value) (ctx : MarketContext)
    → discover_event r slug ts w now event ≡ some ctx
    → (flag event (codes "active") ≡ true)
      × (flag event (codes "closed") ≡ false)
      × IsOpen slug ts now ctx
unfolding discover_event
discovered_market-IsOpen r slug ts w now event ctx e =
    elim (Option-cases (and_then (get event (codes "markets")) as_array)) [
      | inl no_markets ↦ absurd (ground arith)
      | inr (ms, listed) ↦
          (ground arith, ground arith, first_market-IsOpen r slug ts w now ms ctx (ground arith))
    ]
