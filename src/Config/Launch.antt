-- ===== src/Config/Launch.antt =====
-- config.rs, `LaunchConfig::from_lookup`, and `load_env_file` from the text of the file on.
use polyrust.Prelude.{
  ℕ, ◌+◌, Bool, false, ◌&&◌, ◌||◌, Option, none, some, List, [], ◌∷◌, ◌++◌, any, ◌==◌,
  if◌then◌else◌, unwrap_or,
}
use polyrust.Prelude.Int.{ℤ, pos}
use polyrust.Prelude.Text.{
  trim_char, Text, codes, trim, text_eq, to_ascii_lowercase, to_ascii_uppercase,
}
use polyrust.Prelude.Map.{Map, lookup, insert}
use polyrust.Prelude.Result.{Run, done, panic}
use polyrust.Prelude.Fallible.{and_run}
use polyrust.Prelude.Attempt.{Attempt, ◌>>=◌, pure, throw}
use polyrust.State.{is_none}
use polyrust.Config.{Env, ConfigError, invalid, env_i64, env_text, required_string, to_positive}

pub data SignatureKind : Type 0 where
  eoa poly_proxy poly_gnosis_safe : SignatureKind

pub record LaunchConfig : Type 0 where
  pub binance_ws_url : Text
  pub poly_market_ws_url : Text
  pub poly_user_ws_url : Text
  pub market_slug_fmt : Text
  pub market_window_s : ℤ
  pub clob_url : Text
  pub gamma_url : Text
  pub poly_signature_kind : SignatureKind
  pub poly_funder : Option Text

unfoldable pub signature_kind : Text → Attempt ConfigError SignatureKind
signature_kind value =
    if text_eq value (codes "EOA")
    then pure SignatureKind.eoa
    else if text_eq value (codes "POLYGON_GNO_SAFE") || text_eq value (codes "POLY_GNOSIS_SAFE")
    then pure SignatureKind.poly_gnosis_safe
    else if text_eq value (codes "POLY_PROXY")
    then pure SignatureKind.poly_proxy
    else throw (invalid (codes "POLY_SIGNATURE_KIND") (codes "unsupported value=" ++ value))

unfoldable pub launch_from_lookup : Env → Attempt ConfigError LaunchConfig
launch_from_lookup env = do
  let text_or : Text → Text → Text = λ name d. unwrap_or (env_text env name) d
  name ← required_string env (codes "MINIRUST_BINANCE_SYMBOL")
  let symbol = to_ascii_lowercase name
  let window_name = codes "MINIRUST_MARKET_WINDOW_S"
  window ← to_positive window_name (unwrap_or (env_i64 env window_name) (pos 300))
  kind ← signature_kind (to_ascii_uppercase (text_or (codes "POLY_SIGNATURE_KIND") (codes "EOA")))
  pure (record {
    binance_ws_url =
        text_or (codes "MINIRUST_BINANCE_WS_URL")
          (codes "wss://stream-sbe.binance.com:9443/ws/" ++ symbol ++ codes "@bestBidAsk");
    poly_market_ws_url =
        text_or (codes "MINIRUST_POLY_MARKET_WS_URL")
          (codes "wss://ws-subscriptions-clob.polymarket.com/ws/market");
    poly_user_ws_url =
        text_or (codes "MINIRUST_POLY_USER_WS_URL")
          (codes "wss://ws-subscriptions-clob.polymarket.com/ws/user");
    market_slug_fmt = text_or (codes "MINIRUST_MARKET_SLUG_FMT") (codes "btc-updown-5m-{ts}");
    market_window_s = window;
    clob_url = text_or (codes "MINIRUST_CLOB_URL") (codes "https://clob.polymarket.com");
    gamma_url = text_or (codes "MINIRUST_GAMMA_URL") (codes "https://gamma-api.polymarket.com");
    poly_signature_kind = kind;
    poly_funder = env_text env (codes "POLY_FUNDER");
  })

-- `str::lines`: a line ends at a line feed, which a carriage return may precede; what follows the
-- last line feed is a line unless it is empty.
abbrev add_to_first : ℕ → List Text → List Text
add_to_first c [] = (c ∷ []) ∷ []
add_to_first c (l ∷ ls) = (c ∷ l) ∷ ls

abbrev starts_line_feed : Text → Bool
starts_line_feed [] = false
starts_line_feed (c ∷ s) = c == b'\n'

unfoldable pub lines : Text → List Text
lines [] = []
lines (c ∷ s) =
    let rest = lines s in
    if c == b'\n'
    then [] ∷ rest
    else if c == 13 && starts_line_feed s
    then rest
    else add_to_first c rest

-- `split_once('=')`.
unfoldable pub split_once : Text → Option (Text × Text)
split_once [] = none
split_once (c ∷ s) =
    let rest = split_once s in
    if c == b'=' then some ([], s) else elim rest [ none ↦ none | some r ↦ some (c ∷ r.0, r.1) ]

abbrev pub unquoted : Text → Text
unquoted value = trim_char b'\'' (trim_char b'"' (trim value))

abbrev pub has_nul : Text → Bool
has_nul s = any (λ c. c == 0) s

-- `env::set_var`, which panics on a NUL.
abbrev pub set_var : Map Text → Text → Text → Run (Map Text)
set_var env key value = if has_nul key || has_nul value then panic else done (insert key value env)

-- A line of the file without its blanks, on the environment and the number of variables set.
abbrev pub Loading : Type 0
Loading = Map Text × ℕ

unfoldable pub set_entry : Loading → Text → Text → Run Loading
set_entry (env, loaded) [] value = done (env, loaded)
set_entry (env, loaded) (c ∷ k) value =
    if is_none (lookup (c ∷ k) env)
    then and_run (set_var env (c ∷ k) (unquoted value)) (λ env'. done (env', loaded + 1))
    else done (env, loaded)

unfoldable pub load_line : Loading → Text → Run Loading
load_line st [] = done st
load_line st (c ∷ s) = if c == b'#' then done st else elim (split_once (c ∷ s)) [
  | none ↦ done st
  | some (key, value) ↦ set_entry st (trim key) value
]

unfoldable pub load_lines : Loading → List Text → Run Loading
load_lines st [] = done st
load_lines st (l ∷ ls) = and_run (load_line st (trim l)) (λ st'. load_lines st' ls)

unfoldable pub load_env_text : Map Text → Text → Run Loading
load_env_text env text = load_lines (env, 0) (lines text)
