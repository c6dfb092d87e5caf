-- ===== src/Common/Results.antt =====
-- What a Go function that returns an error gives back: a value, an error, or a run-time panic.
use mathlib.Core.Path.{◌≡◌, refl}
use mathlib.Core.Option.{Option, none, some}

pub data Result {ℓ κ} (E : Type ℓ) (A : Type κ) : Type (ℓ ⊔ κ) where
  ok : A → Result E A
  err : E → Result E A
  panic : Result E A

infixl 5 ◌>>=◌
abbrev pub ◌>>=◌ {ℓ κ μ} :
    {E : Type ℓ} {A : Type κ} {B : Type μ} → Result E A → (A → Result E B) → Result E B
ok a >>= f = f a
err e >>= f = err e
panic >>= f = panic

abbrev pub or_fail {ℓ κ} : {E : Type ℓ} {A : Type κ} → Option A → E → Result E A
or_fail none e = err e
or_fail (some a) e = ok a

-- To split on a computed result and keep the equation.
pub data Seen {ℓ κ} {E : Type ℓ} {A : Type κ} (r : Result E A) : Type (ℓ ⊔ κ) where
  is_ok : (a : A) → r ≡ ok a → Seen r
  is_err : (e : E) → r ≡ err e → Seen r
  is_panic : r ≡ panic → Seen r

pub see {ℓ κ} : {E : Type ℓ} {A : Type κ} (r : Result E A) → Seen r
see (ok a) = is_ok a refl
see (err e) = is_err e refl
see panic = is_panic refl

-- A chain that succeeds, taken apart.
pub bind-ok {ℓ κ μ} :
    {E : Type ℓ} {A : Type κ} {B : Type μ} (r : Result E A) (f : A → Result E B) (b : B)
    → (r >>= f) ≡ ok b
    → (a : A) × (r ≡ ok a) × (f a ≡ ok b)
bind-ok (ok a) f b e = (a, refl, e)
bind-ok (err x) f b e = cc
bind-ok panic f b e = cc

or_fail-ok {ℓ κ} :
    {E : Type ℓ} {A : Type κ} (o : Option A) (x : E) (a : A) → or_fail o x ≡ ok a → o ≡ some a
or_fail-ok none x a e = cc
or_fail-ok (some b) x a e = cc
