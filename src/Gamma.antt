-- ===== src/Gamma.antt =====
-- gamma.rs: the discovery of the active market. The answers of the two services are arguments: the
-- body of the clock, and the event as the JSON value that serde_json makes of it. So are the clock of
-- the system and what serde_json reads of a text, as a list of values or of strings.
pub mod Dates
pub mod Markets
pub mod Slugs
mod Tests
use polyrust.Prelude.{
  ℕ, suc, Bool, true, false, not, ◌&&◌, ◌||◌, Option, none, some, List, [], ◌∷◌, ◌++◌, and_then,
  or_else, any, find, get_elem?, unwrap_or, ◌==◌, if◌then◌else◌, length,
}
use polyrust.Prelude.Int.{ℤ, pos, negsuc, ltb_ℤ, leb_ℤ, eqb_ℤ, tdiv, emod, magnitude}
use polyrust.Prelude.Words.{add64, sub64, i64_min}
use polyrust.Prelude.Text.{
  Text, codes, text_eq, trim, to_ascii_lowercase, contains, is_prefix, show_ℕ,
}
use polyrust.Prelude.Json.{Value, get, get_str, as_bool, as_str, as_array, is_object}
use polyrust.Prelude.Result.{Run, done, panic, map_run}
use polyrust.Types.{TokenId}
use polyrust.Types.Decimal.{parse_i64}
use polyrust.State.{MarketContext, is_none}
use polyrust.Config.{show_ℤ}
use polyrust.Gamma.Dates.{parse_gamma_iso8601}

pub record ClobToken : Type 0 where
  pub token_id : TokenId
  pub outcome : Text

-- `serde_json::from_str` as a list of values and as a list of strings.
pub record JsonReader : Type 0 where
  pub read_values : Text → Option (List Value)
  pub read_strings : Text → Option (List Text)

-- `get_clob_time` from the body on: a time in milliseconds is one above 10 ^ 10.
unfoldable pub clob_time : Text → Option ℤ
clob_time body =
    and_then (parse_i64 (trim body))
      (λ raw. some (if ltb_ℤ (pos 10_000_000_000) raw then tdiv raw (pos 1_000) else raw))

-- `rem_euclid` panics by zero, and of the least number by -1.
abbrev pub no_remainder : ℤ → ℤ → Bool
no_remainder window_s server_ts =
    magnitude window_s == 0 || (eqb_ℤ server_ts i64_min && eqb_ℤ window_s (negsuc 0))

unfoldable pub slug_ts : ℤ → ℤ → Run ℤ
slug_ts window_s server_ts =
    if no_remainder window_s server_ts
    then panic
    else done (sub64 server_ts (pos (emod server_ts (magnitude window_s))))

-- `slug_fmt.replace("{ts}", …)`.
skip : ℕ → Text → Text
skip ℕ.zero s = s
skip (suc n) [] = []
skip (suc n) (c ∷ s) = skip n s

replace_from : ℕ → Text → Text → Text
replace_from n value [] = []
replace_from (suc n) value (c ∷ s) = replace_from n value s
replace_from ℕ.zero value (c ∷ s) =
    let found = replace_from 3 value s in
    let rest = replace_from 0 value s in
    if is_prefix (codes "{ts}") (c ∷ s) then value ++ found else c ∷ rest

unfoldable pub slug_of : Text → ℤ → Text
unfolding replace_from
slug_of slug_fmt ts = replace_from 0 (show_ℤ ts) slug_fmt

unfoldable pub filter_map {ℓ κ} : {A : Type ℓ} {B : Type κ} → (A → Option B) → List A → List B
filter_map g [] = []
filter_map g (x ∷ xs) = elim (g x) [ none ↦ filter_map g xs | some y ↦ y ∷ filter_map g xs ]

abbrev pub nonempty : Text → Option Text
nonempty [] = none
nonempty (c ∷ s) = some (c ∷ s)

unfoldable pub token_object : Value → Option ClobToken
token_object obj =
    let id =
      or_else (get obj (codes "id"))
        (or_else (get obj (codes "tokenId")) (get obj (codes "token_id"))) in
    let outcome = and_then (or_else (get obj (codes "outcome")) (get obj (codes "label"))) as_str in
    and_then (and_then (and_then id as_str) nonempty)
      (λ i. some (record { token_id = i; outcome = unwrap_or outcome [] }))

abbrev pub parse_token_objects : List Value → List ClobToken
parse_token_objects = filter_map token_object

abbrev starts_with_object : List Value → Bool
starts_with_object [] = false
starts_with_object (v ∷ vs) = is_object v

abbrev objects_of : Option (List Value) → Option (List ClobToken)
objects_of none = none
objects_of (some vs) = if starts_with_object vs then some (parse_token_objects vs) else none

unfoldable pub string_array : JsonReader → Value → Option (List Text)
string_array r v = elim (as_array v) [
  | some arr ↦ some (filter_map as_str arr)
  | none ↦ and_then (as_str v) r.read_strings
]

-- The i-th id with the i-th outcome.
unfoldable pub pair_tokens : List Text → List Text → List ClobToken
pair_tokens [] outs = []
pair_tokens (i ∷ ids) [] = record { token_id = i; outcome = [] } ∷ pair_tokens ids []
pair_tokens (i ∷ ids) (o ∷ outs) = record { token_id = i; outcome = o } ∷ pair_tokens ids outs

unfoldable pub parse_clob_tokens : JsonReader → Value → Option Value → Option (List ClobToken)
parse_clob_tokens r value outcomes =
    let outs = unwrap_or (and_then outcomes (string_array r)) [] in
    or_else (objects_of (as_array value)) (
      or_else (objects_of (and_then (as_str value) r.read_values))
        (and_then (string_array r value) (λ ids. some (pair_tokens ids outs))))

abbrev pub has_keyword : List Text → ClobToken → Bool
has_keyword words t = any (contains (to_ascii_lowercase t.outcome)) words

abbrev pub yes_keywords : List Text
yes_keywords = codes "yes" ∷ codes "up" ∷ codes "above" ∷ codes "higher" ∷ []

abbrev pub no_keywords : List Text
no_keywords = codes "no" ∷ codes "down" ∷ codes "below" ∷ codes "lower" ∷ []

unfoldable pub select_yes_no : List ClobToken → Option (ClobToken × ClobToken)
select_yes_no tokens = and_then (find (has_keyword yes_keywords) tokens) (λ yes_tok.
    and_then
      (find (λ t. has_keyword no_keywords t && not (text_eq t.token_id yes_tok.token_id)) tokens)
      (λ no_tok. some (yes_tok, no_tok)))

abbrev pub flag : Value → Text → Bool
flag v key = unwrap_or (and_then (get v key) as_bool) false

-- A market that trades: it is active, accepts orders, and is not closed.
abbrev pub is_trading : Value → Bool
is_trading market =
    flag market (codes "active")
    && flag market (codes "acceptingOrders")
    && not (flag market (codes "closed"))

abbrev pub end_of : Value → ℤ → ℤ → ℤ
end_of market ts window_s =
    unwrap_or (parse_gamma_iso8601 (unwrap_or (get_str market (codes "endDate")) []))
      (add64 ts window_s)

-- The fields of a trading market; none ends the search.
unfoldable pub market_context : JsonReader → Text → ℤ → ℤ → Value → Option MarketContext
market_context r slug ts window_s market =
    and_then (and_then (get_str market (codes "conditionId")) nonempty) (λ condition_id.
      and_then (get market (codes "clobTokenIds")) (λ ids.
        and_then (parse_clob_tokens r ids (get market (codes "outcomes"))) (λ tokens.
          and_then (select_yes_no tokens) (λ chosen. some (record {
            slug = slug;
            condition_id = condition_id;
            yes_token = chosen.0.token_id;
            no_token = chosen.1.token_id;
            end_ts = end_of market ts window_s;
            slug_ts = ts;
          })))))

-- The loop over the markets of an event.
unfoldable pub first_market : JsonReader → Text → ℤ → ℤ → ℤ → List Value → Option MarketContext
first_market r slug ts window_s now [] = none
first_market r slug ts window_s now (market ∷ rest) =
    let later = first_market r slug ts window_s now rest in
    if not (is_trading market) then later else elim (market_context r slug ts window_s market) [
      | none ↦ none
      | some ctx ↦ if leb_ℤ ctx.end_ts now then later else some ctx
    ]

-- `try_discover_slug` from the event on.
unfoldable pub discover_event : JsonReader → Text → ℤ → ℤ → ℤ → Value → Option MarketContext
discover_event r slug ts window_s now event =
    if not (flag event (codes "active")) || flag event (codes "closed")
    then none
    else and_then (and_then (get event (codes "markets")) as_array)
        (first_market r slug ts window_s now)

-- `discover_for_ts` and `discover`, over the events of the service by their slugs.
unfoldable pub discover_for_ts :
    JsonReader → Text → ℤ → ℤ → (Text → Option Value) → ℤ → Option MarketContext
discover_for_ts r slug_fmt window_s now events ts =
    let slug = slug_of slug_fmt ts in and_then (events slug) (discover_event r slug ts window_s now)

unfoldable pub discover :
    JsonReader → Text → ℤ → ℤ → (Text → Option Value) → Text → Run (Option MarketContext)
discover r slug_fmt window_s now events clock = elim (clob_time clock) [
  | none ↦ done none
  | some server_ts ↦
      map_run (discover_for_ts r slug_fmt window_s now events) (slug_ts window_s server_ts)
]
