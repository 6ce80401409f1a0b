-- ===== src/Gamma/Dates.antt =====
-- The dates of gamma.rs, `parse_gamma_iso8601`.
use polyrust.Prelude.{
  ℕ, Bool, ◌||◌, Option, none, some, List, [], ◌∷◌, and_then, ◌==◌, if◌then◌else◌,
}
use polyrust.Prelude.Int.{ℤ, pos, tdiv}
use polyrust.Prelude.Words.{add64, sub64, mul64}
use polyrust.Prelude.Text.{Text, codes, trim, trim_char, text_eq}
use polyrust.Types.Decimal.{parse_i64}

-- `strip_suffix`.
unfoldable pub strip_suffix : Text → Text → Option Text
strip_suffix suffix [] = if text_eq suffix [] then some [] else none
strip_suffix suffix (c ∷ s) =
    let rest = strip_suffix suffix s in
    if text_eq suffix (c ∷ s) then some [] else and_then rest (λ r. some (c ∷ r))

-- The text before its first point.
unfoldable pub before_point : Text → Text
before_point [] = []
before_point (c ∷ s) = let rest = before_point s in if c == b'.' then [] else c ∷ rest

abbrev is_separator : ℕ → Bool
is_separator c = c == b'-' || c == b'T' || c == b':'

abbrev add_to_first : ℕ → List Text → List Text
add_to_first c [] = (c ∷ []) ∷ []
add_to_first c (p ∷ ps) = (c ∷ p) ∷ ps

-- `split(&['-', 'T', ':'])`.
unfoldable pub split_parts : Text → List Text
split_parts [] = [] ∷ []
split_parts (c ∷ s) =
    let rest = split_parts s in if is_separator c then [] ∷ rest else add_to_first c rest

-- The days from 1970-01-01 to a date.
unfoldable pub epoch_days : ℤ → ℤ → ℤ → ℤ
epoch_days year month day =
    let a = tdiv (sub64 (pos 14) month) (pos 12) in
    let y = sub64 (add64 year (pos 4_800)) a in
    let m = sub64 (add64 month (mul64 (pos 12) a)) (pos 3) in
    let with_months = add64 day (tdiv (add64 (mul64 (pos 153) m) (pos 2)) (pos 5)) in
    let with_years = add64 with_months (mul64 (pos 365) y) in
    let with_leaps =
      add64 (sub64 (add64 with_years (tdiv y (pos 4))) (tdiv y (pos 100))) (tdiv y (pos 400)) in
    sub64 (sub64 with_leaps (pos 32_045)) (pos 2_440_588)

unfoldable pub epoch_seconds : ℤ → ℤ → ℤ → ℤ → ℤ → ℤ → ℤ
epoch_seconds year month day hour min sec =
    add64
      (add64 (add64 (mul64 (epoch_days year month day) (pos 86_400)) (mul64 hour (pos 3_600)))
        (mul64 min (pos 60)))
      sec

unfoldable pub seconds_of : List Text → Option ℤ
seconds_of (a ∷ b ∷ c ∷ d ∷ e ∷ f ∷ r) = and_then (parse_i64 a) (λ year.
    and_then (parse_i64 b) (λ month. and_then (parse_i64 c) (λ day. and_then (parse_i64 d) (λ hour.
      and_then (parse_i64 e) (λ min.
        and_then (parse_i64 f) (λ sec. some (epoch_seconds year month day hour min sec)))))))
seconds_of _ = none

abbrev without_zone : Text → Text
without_zone body = elim (strip_suffix (codes "Z") body) [
  | some b ↦ b
  | none ↦ elim (strip_suffix (codes "+00:00") body) [ some b ↦ b | none ↦ body ]
]

unfoldable pub parse_gamma_iso8601 : Text → Option ℤ
parse_gamma_iso8601 raw =
    seconds_of (split_parts (before_point (without_zone (trim_char b'"' (trim raw)))))
