-- ===== src/Prelude/Float.antt =====
-- What the code uses of f64: the operations of IEEE 754 and of the platform's mathematics, which no
-- file of the repository defines, are the fields of an interface. The functions of std that are
-- written in terms of them are definitions.
pub mod Decimals
use polyrust.Prelude.{ℕ, Bool, true, false, Option, ◌≡◌, List, [], ◌∷◌, if◌then◌else◌}
use polyrust.Prelude.Int.{ℤ, pos}
use polyrust.Prelude.Text.{Text}
use polyrust.Prelude.Result.{Run, done, panic}

pub record F64 : Type 1 where
  pub Num : Type 0
  -- `literal m e` is the number nearest to m / 10^e.
  pub literal : ℤ → ℕ → Num
  -- `as f64` of an i64, `f64::from` of an i32.
  pub of_int : ℤ → Num
  pub nan : Num
  pub add : Num → Num → Num
  pub sub : Num → Num → Num
  pub mul : Num → Num → Num
  pub div : Num → Num → Num
  pub max : Num → Num → Num
  pub neg : Num → Num
  pub abs : Num → Num
  pub sqrt : Num → Num
  pub exp : Num → Num
  pub ln : Num → Num
  pub floor : Num → Num
  pub powi : Num → ℤ → Num
  pub lt : Num → Num → Bool
  pub le : Num → Num → Bool
  pub is_finite : Num → Bool
  pub as_i32 : Num → ℤ
  -- `str::parse::<f64>().ok()`.
  pub parse_f64 : Text → Option Num

abbrev pub literal_millionth : (f : F64) → f.Num
literal_millionth f = f.literal (pos 1) 6

module _ (f : F64) where
  abbrev pub zero_f : f.Num
  zero_f = f.literal (pos 0) 0

  abbrev pub one_f : f.Num
  one_f = f.literal (pos 1) 0

  -- `f64::clamp`, which panics unless `lo <= hi`.
  unfoldable pub clamp : f.Num → f.Num → f.Num → Run f.Num
  clamp x lo hi =
      let x' = if f.lt x lo then lo else x in
      if f.le lo hi then done (if f.lt hi x' then hi else x') else panic

  -- What the code relies on: `<` is false of a number and itself, never holds both ways, and is the
  -- reverse of `<=` (all are false with a NaN); of two finite numbers one is at most the other; and the constants of the code
  -- are finite and in their order.
  pub record IsF64 : Type 0 where
    pub lt_irrefl : (a : f.Num) → f.lt a a ≡ false
    pub lt_asym : (a b : f.Num) → f.lt a b ≡ true → f.lt b a ≡ false
    pub le_not_lt : (a b : f.Num) → f.le a b ≡ true → f.lt b a ≡ false
    pub le_total :
        (a b : f.Num)
        → f.is_finite a ≡ true
        → f.is_finite b ≡ true
        → f.lt b a ≡ false
        → f.le a b ≡ true
    pub zero_finite : f.is_finite zero_f ≡ true
    pub one_finite : f.is_finite one_f ≡ true
    pub zero-le-one : f.le zero_f one_f ≡ true
    pub margin_ordered : f.le (literal_millionth f) (f.sub one_f (literal_millionth f)) ≡ true

  -- `iter().sum()`.
  unfoldable pub sum_from : f.Num → List f.Num → f.Num
  sum_from acc [] = acc
  sum_from acc (x ∷ xs) = sum_from (f.add acc x) xs
