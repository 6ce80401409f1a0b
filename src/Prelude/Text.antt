-- ===== src/Prelude/Text.antt =====
-- Rust's `str` as the list of its Unicode scalar values, with the operations that the code uses:
-- `len` and slicing count bytes of UTF-8, `trim` drops the characters of `char::is_whitespace`.
use Prim.Native.Char.{code}
use Prim.Native.String.{String}
use mathlib.Core.List.{reverse}
use polyrust.Prelude.{
  ℕ, zero, suc, ◌+◌, ◌-◌, ◌*◌, ◌/◌, ◌%◌, ◌<◌, ◌≡◌, refl, ◌↔◌, Bool, true, false, ◌&&◌, ◌||◌, List,
  [], ◌∷◌, ◌++◌, map, arith, ltb, leb, ◌==◌, if◌then◌else◌,
}

abbrev pub Text : Type 0
Text = List ℕ

-- A literal of the source.
abbrev pub codes : String → Text
codes String.[] = []
codes (String.◌∷◌ c s) = code c ∷ codes s

unfoldable pub text_eq : Text → Text → Bool
text_eq [] [] = true
text_eq (x ∷ xs) (y ∷ ys) = x == y && text_eq xs ys
text_eq _ _ = false

pub text_eq_refl : (s : Text) → text_eq s s ≡ true
unfolding text_eq
text_eq_refl [] = refl
text_eq_refl (x ∷ xs) = ground (arith, text_eq_refl xs)

pub text_eq→eq : (s t : Text) → text_eq s t ≡ true → s ≡ t
unfolding text_eq
text_eq→eq [] [] h = refl
text_eq→eq [] (y ∷ ys) h = cc
text_eq→eq (x ∷ xs) [] h = cc
text_eq→eq (x ∷ xs) (y ∷ ys) h = ground (arith, text_eq→eq xs ys)

pub text_eq_iff : (s t : Text) → (text_eq s t ≡ true) ↔ (s ≡ t)
text_eq_iff s t = (text_eq→eq s t, λ e. ground (arith, e, text_eq_refl t))

-- The characters of the Unicode property White_Space.
unfoldable pub is_whitespace : ℕ → Bool
is_whitespace c =
    (leb 9 c && leb c 13)
    || c == 32
    || c == 0x85
    || c == 0xa0
    || c == 0x1680
    || (leb 0x2000 c && leb c 0x200a)
    || c == 0x2028
    || c == 0x2029
    || c == 0x202f
    || c == 0x205f
    || c == 0x3000

unfoldable pub trim_start : Text → Text
unfolding is_whitespace
trim_start [] = []
trim_start (c ∷ s) = let rest = trim_start s in if is_whitespace c then rest else c ∷ s

unfoldable pub trim : Text → Text
unfolding trim_start
trim s = reverse (trim_start (reverse (trim_start s)))

abbrev drop_char : ℕ → Text → Text
drop_char q [] = []
drop_char q (c ∷ s) = let rest = drop_char q s in if c == q then rest else c ∷ s

-- `trim_matches(q)`.
abbrev pub trim_char : ℕ → Text → Text
trim_char q s = reverse (drop_char q (reverse (drop_char q s)))

abbrev pub to_ascii_upper : ℕ → ℕ
to_ascii_upper c = if leb b'a' c && leb c b'z' then c - 32 else c

abbrev pub to_ascii_lower : ℕ → ℕ
to_ascii_lower c = if leb b'A' c && leb c b'Z' then c + 32 else c

abbrev pub to_ascii_uppercase : Text → Text
to_ascii_uppercase = map to_ascii_upper

abbrev pub to_ascii_lowercase : Text → Text
to_ascii_lowercase = map to_ascii_lower

-- `str::eq_ignore_ascii_case`.
abbrev pub eq_ignore_ascii_case : Text → Text → Bool
eq_ignore_ascii_case s t = text_eq (to_ascii_lowercase s) (to_ascii_lowercase t)

-- `str::contains` for a text.
unfoldable pub is_prefix : Text → Text → Bool
is_prefix [] t = true
is_prefix (x ∷ xs) [] = false
is_prefix (x ∷ xs) (y ∷ ys) = x == y && is_prefix xs ys

unfoldable pub contains : Text → Text → Bool
unfolding is_prefix
contains [] pat = is_prefix pat []
contains (c ∷ s) pat = is_prefix pat (c ∷ s) || contains s pat

-- The bytes that a character takes in UTF-8, and `str::len`.
abbrev pub utf8_len : ℕ → ℕ
utf8_len c = if ltb c 0x80 then 1 else if ltb c 0x800 then 2 else if ltb c 0x10000 then 3 else 4

abbrev pub byte_len : Text → ℕ
byte_len [] = 0
byte_len (c ∷ s) = utf8_len c + byte_len s

-- The decimal digits of a number, as `format!("{}", n)` writes them.
abbrev digit : ℕ → ℕ
digit n = b'0' + n % 10

digits : ℕ → ℕ → Text
digits zero n = []
digits (suc f) n =
    let rest = digits f (n / 10) in if ltb n 10 then digit n ∷ [] else rest ++ digit n ∷ []

unfoldable pub show_ℕ : ℕ → Text
unfolding digits
show_ℕ n = digits (suc n) n

-- The number that digits write.
unfoldable pub read_from : ℕ → Text → ℕ
read_from acc [] = acc
read_from acc (c ∷ s) = read_from (acc * 10 + (c - b'0')) s

pub read_from-append :
    (acc : ℕ) (s : Text) (c : ℕ) → read_from acc (s ++ c ∷ []) ≡ read_from acc s * 10 + (c - b'0')
unfolding read_from
read_from-append acc [] c = refl
read_from-append acc (x ∷ s) c = read_from-append (acc * 10 + (x - b'0')) s c

read_from-digits : (f n : ℕ) → n < f → read_from 0 (digits f n) ≡ n
unfolding digits read_from
read_from-digits zero n h = elim h [ ]
read_from-digits (suc f) n h =
    ground (arith, read_from-digits f (n / 10), read_from-append 0 (digits f (n / 10)) (digit n))

pub read_from-show_ℕ : (n : ℕ) → read_from 0 (show_ℕ n) ≡ n
unfolding show_ℕ
read_from-show_ℕ n = read_from-digits (suc n) n (omega arith)
