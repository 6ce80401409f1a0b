-- ===== src/Prelude/Fallible.antt =====
-- Calls that return an `Option` or panic, with a bind of `?` that proofs take apart step by step.
use polyrust.Prelude.{Bool, true, false, none, some, ◌≡◌, refl}
use polyrust.Prelude.Result.{Run, done, panic, Fallible, require}

infixl 5 ◌>>=◌ ◌>>◌
unfoldable pub ◌>>=◌ {ℓ κ} : {A : Type ℓ} {B : Type κ} → Fallible A → (A → Fallible B) → Fallible B
done (some a) >>= f = f a
done none >>= f = done none
panic >>= f = panic

unfoldable pub ◌>>◌ {ℓ} : {B : Type ℓ} → Fallible (Unit {0}) → Fallible B → Fallible B
m >> k = m >>= λ _. k

-- The next call, after one that has no early return.
unfoldable pub and_run {ℓ κ} : {A : Type ℓ} {B : Type κ} → Run A → (A → Run B) → Run B
and_run (done a) f = f a
and_run panic f = panic

pub bind_some {ℓ κ} :
    {A : Type ℓ} {B : Type κ} (m : Fallible A) (f : A → Fallible B) (b : B)
    → (m >>= f) ≡ done (some b)
    → (a : A) × (m ≡ done (some a)) × (f a ≡ done (some b))
unfolding ◌>>=◌
bind_some (done (some a)) f b e = (a, refl, e)
bind_some (done none) f b e = cc
bind_some panic f b e = cc

pub require_some {ℓ} :
    {B : Type ℓ} (c : Bool) (k : Fallible B) (b : B)
    → (require c >> k) ≡ done (some b)
    → (c ≡ true) × (k ≡ done (some b))
unfolding ◌>>◌ ◌>>=◌
require_some true k b e = (refl, e)
require_some false k b e = cc

pub and_run_done {ℓ κ} :
    {A : Type ℓ} {B : Type κ} (m : Run A) (f : A → Run B) (b : B)
    → and_run m f ≡ done b
    → (a : A) × (m ≡ done a) × (f a ≡ done b)
unfolding and_run
and_run_done (done a) f b e = (a, refl, e)
and_run_done panic f b e = cc

pub and_run-done {ℓ κ} :
    {A : Type ℓ} {B : Type κ} (m : Run A) (f : A → Run B) (a : A) (b : B)
    → m ≡ done a
    → f a ≡ done b
    → and_run m f ≡ done b
unfolding and_run
and_run-done m f a b e h = rw e h

-- It comes to an end, without a panic.
abbrev pub Returns {ℓ} : {A : Type ℓ} → Run A → Type ℓ
Returns {A} m = (a : A) × (m ≡ done a)

pub bind-Returns {ℓ κ} :
    {A : Type ℓ} {B : Type κ} (m : Fallible A) (f : A → Fallible B)
    → Returns m
    → ((a : A) → Returns (f a))
    → Returns (m >>= f)
unfolding ◌>>=◌
bind-Returns m f (some a, e) h = let (r, at_r) = h a in (r, rw e at_r)
bind-Returns m f (none, e) h = (none, rw e refl)

pub require-Returns {ℓ} :
    {B : Type ℓ} (c : Bool) (k : Fallible B) → Returns k → Returns (require c >> k)
unfolding ◌>>◌ ◌>>=◌
require-Returns true k h = h
require-Returns false k h = (none, refl)

pub and_run-Returns {ℓ κ} :
    {A : Type ℓ} {B : Type κ} (m : Run A) (f : A → Run B)
    → Returns m
    → ((a : A) → Returns (f a))
    → Returns (and_run m f)
unfolding and_run
and_run-Returns m f (a, e) h = let (b, at_b) = h a in (b, rw e at_b)
