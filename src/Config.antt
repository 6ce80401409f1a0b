-- ===== src/Config.antt =====
-- config.rs: what is read of an environment. An environment is the function that gives the value of a
-- variable, if it is set. Config/Load is the configuration of the core, Config/Launch that of the
-- process and the file of variables.
pub mod Load
pub mod Core
pub mod Launch
pub mod Valid
pub mod Ready
pub mod Files
mod Tests
use polyrust.Prelude.{
  ℕ, suc, ◌+◌, Bool, true, not, ◌&&◌, ◌||◌, Option, none, some, [], ◌∷◌, ◌++◌, all, leb, ◌==◌,
  if◌then◌else◌, and_then,
}
use polyrust.Prelude.Int.{ℤ, pos, negsuc, ltb_ℤ, leb_ℤ}
use polyrust.Prelude.Words.{in_i32, add64, mul64}
use polyrust.Prelude.Text.{Text, codes, trim, to_ascii_lowercase, text_eq, byte_len, show_ℕ}
use polyrust.Prelude.Result.{Run, done, panic, Fallible, lift}
use polyrust.Prelude.Fallible.{◌>>=◌, and_run}
use polyrust.Prelude.Attempt.{Attempt, pure, throw}
use polyrust.Prelude.Float.{F64}
use polyrust.Types.Decimal.{parse_i64, split_at, split_point}

pub data ConfigError : Type 0 where
  missing : Text → ConfigError
  invalid : Text → Text → ConfigError
  band_incoherent : ℤ → ℤ → ConfigError

abbrev pub Env : Type 0
Env = Text → Option Text

-- `Display` of an i64.
abbrev pub show_ℤ : ℤ → Text
show_ℤ (pos n) = show_ℕ n
show_ℤ (negsuc n) = b'-' ∷ show_ℕ (suc n)

or_zero : Text → Option ℤ
or_zero [] = some (pos 0)
or_zero (c ∷ s) = parse_i64 (c ∷ s)

-- The cents of a fraction of three bytes or more: digits beyond the second have to be zeros.
long_fraction : Text → Fallible ℤ
long_fraction frac =
    and_run (split_at 2 frac)
      (λ r. if all (λ c. c == b'0') r.1 then done (parse_i64 r.0) else done none)

unfoldable pub fraction_cents : Text → Fallible ℤ
unfolding long_fraction
fraction_cents frac =
    if byte_len frac == 0
    then done (some (pos 0))
    else if byte_len frac == 1
    then done (and_then (parse_i64 frac) (λ n. some (mul64 n (pos 10))))
    else if byte_len frac == 2
    then done (parse_i64 frac)
    else long_fraction frac

unfoldable pub signed_cents : ℤ → Text → Fallible ℤ
unfolding or_zero
signed_cents sign body = do
  let (whole_str, frac_str) = split_point body
  whole ← lift (or_zero whole_str)
  frac ← fraction_cents frac_str
  done (some (mul64 sign (add64 (mul64 whole (pos 100)) frac)))

unfoldable pub parse_dec_cents : Text → Fallible ℤ
parse_dec_cents [] = done none
parse_dec_cents (c ∷ s) =
    if c == b'-'
    then signed_cents (negsuc 0) s
    else if c == b'+'
    then signed_cents (pos 1) s
    else signed_cents (pos 1) (c ∷ s)

unfoldable pub env_dec_cents : Env → Text → Fallible ℤ
env_dec_cents env name = elim (env name) [
  | none ↦ done none
  | some raw ↦ parse_dec_cents (trim raw)
]

unfoldable pub env_i64 : Env → Text → Option ℤ
env_i64 env name = and_then (env name) (λ raw. parse_i64 (trim raw))

unfoldable pub env_bool : Env → Text → Option Bool
env_bool env name = and_then (env name) (λ raw.
    let s = to_ascii_lowercase (trim raw) in
    some (
      text_eq s (codes "1")
      || text_eq s (codes "true")
      || text_eq s (codes "yes")
      || text_eq s (codes "on")))

unfoldable pub env_f64 : (f : F64) → Env → Text → Option f.Num
env_f64 f env name =
    and_then (env name)
      (λ raw. and_then (f.parse_f64 (trim raw)) (λ n. if f.is_finite n then some n else none))

is_blank : Text → Bool
is_blank [] = Bool.true
is_blank (c ∷ s) = Bool.false

-- `lookup(name).filter(|s| !s.trim().is_empty())`.
unfoldable pub env_text : Env → Text → Option Text
unfolding is_blank
env_text env name = and_then (env name) (λ s. if is_blank (trim s) then none else some s)

unfoldable pub required_string : Env → Text → Attempt ConfigError Text
unfolding is_blank
required_string env name = elim (env name) [
  | none ↦ throw (missing name)
  | some s ↦ if is_blank (trim s) then throw (missing name) else pure (trim s)
]

-- A call that returns an option, and what to use for none.
abbrev pub or_default : Fallible ℤ → ℤ → Attempt ConfigError ℤ
or_default m d = and_run m (λ o. elim o [ none ↦ pure d | some a ↦ pure a ])

abbrev pub or_missing : Fallible ℤ → Text → Attempt ConfigError ℤ
or_missing m name = and_run m (λ o. elim o [ none ↦ throw (missing name) | some a ↦ pure a ])

-- `try_into().map_err(…)`.
unfoldable pub to_i32 : Text → ℤ → Attempt ConfigError ℤ
to_i32 name v = if in_i32 v then pure v else throw (invalid name (codes "out_of_range"))

unfoldable pub to_positive : Text → ℤ → Attempt ConfigError ℤ
to_positive name v =
    if leb_ℤ v (pos 0)
    then throw (invalid name (codes "non_positive value=" ++ show_ℤ v))
    else pure v

unfoldable pub to_nonneg : Text → ℤ → Attempt ConfigError ℤ
to_nonneg name v =
    if ltb_ℤ v (pos 0) then throw (invalid name (codes "negative value=" ++ show_ℤ v)) else pure v
