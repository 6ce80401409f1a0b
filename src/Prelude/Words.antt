-- ===== src/Prelude/Words.antt =====
-- The machine integers: an i32 or an i64 is a ℤ, and each operation says what it does out of range.
-- Plain `+`, `-` and `*` wrap, as in the release profile of Cargo.toml, which leaves overflow checks
-- off; `saturating_*` clamp; `checked_*` return an `Option`.
use polyrust.Prelude.{
  ℕ, ◌-◌, ◌%◌, ◌^◌, ◌≤◌, ◌<◌, ◌≡◌, Bool, ◌&&◌, Option, none, some, arith, ltb, leb, if◌then◌else◌,
}
use polyrust.Prelude.Int.{ℤ, pos, negsuc, pos_part, neg_part, ◌+ℤ◌, ◌-ℤ◌, ◌*ℤ◌, ◌≤ℤ◌}

-- The values of i64 and of i32.
abbrev pub InI64 : ℤ → Type 0
InI64 a = (pos_part a < 2 ^ 63) × (neg_part a ≤ 2 ^ 63)

abbrev pub InI32 : ℤ → Type 0
InI32 a = (pos_part a < 2 ^ 31) × (neg_part a ≤ 2 ^ 31)

abbrev pub in_i64 : ℤ → Bool
in_i64 a = ltb (pos_part a) (2 ^ 63) && leb (neg_part a) (2 ^ 63)

abbrev pub in_i32 : ℤ → Bool
in_i32 a = ltb (pos_part a) (2 ^ 31) && leb (neg_part a) (2 ^ 31)

abbrev pub i64_max : ℤ
i64_max = pos (2 ^ 63 - 1)

abbrev pub i64_min : ℤ
i64_min = negsuc (2 ^ 63 - 1)

abbrev pub i32_max : ℤ
i32_max = pos (2 ^ 31 - 1)

abbrev pub i32_min : ℤ
i32_min = negsuc (2 ^ 31 - 1)

-- The number that a bit pattern of 64 bits stands for, and the low 64 bits of an integer.
signed64 : ℕ → ℤ
signed64 w = if ltb w (2 ^ 63) then pos w else negsuc (2 ^ 64 - 1 - w)

low64 : ℤ → ℕ
low64 (pos n) = n % 2 ^ 64
low64 (negsuc n) = 2 ^ 64 - 1 - n % 2 ^ 64

unfoldable pub wrap64 : ℤ → ℤ
unfolding signed64 low64
wrap64 a = signed64 (low64 a)

signed32 : ℕ → ℤ
signed32 w = if ltb w (2 ^ 31) then pos w else negsuc (2 ^ 32 - 1 - w)

low32 : ℤ → ℕ
low32 (pos n) = n % 2 ^ 32
low32 (negsuc n) = 2 ^ 32 - 1 - n % 2 ^ 32

unfoldable pub wrap32 : ℤ → ℤ
unfolding signed32 low32
wrap32 a = signed32 (low32 a)

unfoldable pub clamp64 : ℤ → ℤ
clamp64 a =
    if ltb (pos_part a) (2 ^ 63) then if leb (neg_part a) (2 ^ 63) then a else i64_min else i64_max

unfoldable pub clamp32 : ℤ → ℤ
clamp32 a =
    if ltb (pos_part a) (2 ^ 31) then if leb (neg_part a) (2 ^ 31) then a else i32_min else i32_max

abbrev pub add64 : ℤ → ℤ → ℤ
add64 a b = wrap64 (a +ℤ b)

abbrev pub sub64 : ℤ → ℤ → ℤ
sub64 a b = wrap64 (a -ℤ b)

abbrev pub mul64 : ℤ → ℤ → ℤ
mul64 a b = wrap64 (a *ℤ b)

abbrev pub add32 : ℤ → ℤ → ℤ
add32 a b = wrap32 (a +ℤ b)

abbrev pub sub32 : ℤ → ℤ → ℤ
sub32 a b = wrap32 (a -ℤ b)

abbrev pub saturating_add : ℤ → ℤ → ℤ
saturating_add a b = clamp64 (a +ℤ b)

abbrev pub saturating_sub : ℤ → ℤ → ℤ
saturating_sub a b = clamp64 (a -ℤ b)

abbrev pub saturating_mul : ℤ → ℤ → ℤ
saturating_mul a b = clamp64 (a *ℤ b)

abbrev pub checked_mul : ℤ → ℤ → Option ℤ
checked_mul a b = if in_i64 (a *ℤ b) then some (a *ℤ b) else none

-- In range the operations are exact.
pub wrap64_self : (a : ℤ) → InI64 a → wrap64 a ≡ a
unfolding wrap64
wrap64_self a h = ground arith

pub wrap32_self : (a : ℤ) → InI32 a → wrap32 a ≡ a
unfolding wrap32
wrap32_self a h = ground arith

pub clamp64_self : (a : ℤ) → InI64 a → clamp64 a ≡ a
unfolding clamp64
clamp64_self a h = ground arith

pub wrap64-InI64 : (a : ℤ) → InI64 (wrap64 a)
unfolding wrap64
wrap64-InI64 a = ground arith

pub clamp64-InI64 : (a : ℤ) → InI64 (clamp64 a)
unfolding clamp64
clamp64-InI64 a = ground arith

pub clamp64_mono : (a b : ℤ) → a ≤ℤ b → clamp64 a ≤ℤ clamp64 b
unfolding clamp64
clamp64_mono a b h = ground arith
