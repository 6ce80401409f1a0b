-- ===== src/Prelude/Attempt.antt =====
-- A call that may panic and whose result is a `Result`, with the bind of `?`.
use polyrust.Prelude.{Option, none, some, ◌≡◌, refl, arith}
use polyrust.Prelude.Result.{Result, ok, err, Run, done, panic}

abbrev pub Attempt {ℓ κ} : Type ℓ → Type κ → Type (ℓ ⊔ κ)
Attempt E A = Run (Result E A)

infixl 5 ◌>>=◌
unfoldable pub ◌>>=◌ {ℓ κ μ} :
    {E : Type ℓ} {A : Type κ} {B : Type μ} → Attempt E A → (A → Attempt E B) → Attempt E B
done (ok a) >>= f = f a
done (err e) >>= f = done (err e)
panic >>= f = panic

abbrev pub pure {ℓ κ} : {E : Type ℓ} {A : Type κ} → A → Attempt E A
pure a = done (ok a)

abbrev pub throw {ℓ κ} : {E : Type ℓ} {A : Type κ} → E → Attempt E A
throw e = done (err e)

-- `ok_or` and `map_err`.
abbrev pub require_some {ℓ κ} : {E : Type ℓ} {A : Type κ} → Option A → E → Attempt E A
require_some none e = done (err e)
require_some (some a) e = done (ok a)

abbrev pub map_err {ℓ κ μ} :
    {E : Type ℓ} {F : Type κ} {A : Type μ} → (E → F) → Attempt E A → Attempt F A
map_err f (done (ok a)) = done (ok a)
map_err f (done (err e)) = done (err (f e))
map_err f panic = panic

-- A call that returns ends its first part with a value.
pub bind_ok {ℓ κ μ} :
    {E : Type ℓ} {A : Type κ} {B : Type μ} (m : Attempt E A) (f : A → Attempt E B) (b : B)
    → (m >>= f) ≡ done (ok b)
    → (a : A) × (m ≡ done (ok a)) × (f a ≡ done (ok b))
unfolding ◌>>=◌
bind_ok (done (ok a)) f b e = (a, refl, e)
bind_ok (done (err x)) f b e = cc
bind_ok panic f b e = cc

pub map_err_ok {ℓ κ μ} :
    {E : Type ℓ} {F : Type κ} {A : Type μ} (g : E → F) (m : Attempt E A) (a : A)
    → map_err g m ≡ done (ok a)
    → m ≡ done (ok a)
map_err_ok g (done (ok x)) a e = ground arith
map_err_ok g (done (err x)) a e = cc
map_err_ok g panic a e = cc

pub pure_ok {ℓ κ} : {E : Type ℓ} {A : Type κ} (a b : A) → pure {E = E} a ≡ done (ok b) → a ≡ b
pure_ok a b e = ground (arith, e)
