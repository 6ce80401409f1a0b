-- ===== src/Prelude/Result.antt =====
-- Results and panics. `Result E A` is Rust's `Result`; `Run A` is a call that may panic (with
-- `panic = "abort"` the process ends there), and `Fallible A` a call that returns an `Option` or
-- panics, with the bind of `?`.
use polyrust.Prelude.{Bool, true, false, Option, none, some}

pub data Result {ℓ κ} (E : Type ℓ) (A : Type κ) : Type (ℓ ⊔ κ) where
  ok : A → Result E A
  err : E → Result E A

pub data Run {ℓ} (A : Type ℓ) : Type ℓ where
  done : A → Run A
  panic : Run A

abbrev pub Fallible {ℓ} : Type ℓ → Type ℓ
Fallible A = Run (Option A)

-- `Option::ok_or` and `Result::ok`.
abbrev pub ok_or {ℓ κ} : {A : Type ℓ} {E : Type κ} → Option A → E → Result E A
ok_or none e = err e
ok_or (some a) e = ok a

abbrev pub ok_value {ℓ κ} : {A : Type ℓ} {E : Type κ} → Result E A → Option A
ok_value (ok a) = some a
ok_value (err e) = none

abbrev pub lift {ℓ} : {A : Type ℓ} → Option A → Fallible A
lift o = done o

infixl 5 ◌>>=◌ ◌>>◌
abbrev pub ◌>>=◌ {ℓ κ} : {A : Type ℓ} {B : Type κ} → Fallible A → (A → Fallible B) → Fallible B
done (some a) >>= f = f a
done none >>= f = done none
panic >>= f = panic

abbrev pub ◌>>◌ {ℓ} : {B : Type ℓ} → Fallible (Unit {0}) → Fallible B → Fallible B
m >> k = m >>= λ _. k

-- `if !b { return None; }`
abbrev pub require : Bool → Fallible (Unit {0})
require true = done (some tt)
require false = done none

abbrev pub map_run {ℓ κ} : {A : Type ℓ} {B : Type κ} → (A → B) → Run A → Run B
map_run f (done a) = done (f a)
map_run f panic = panic
