-- ===== src/Base/Errors.antt =====
-- What a call that may throw comes to: its value, or the error.
use mathlib.Core.Path.{◌≡◌, refl}
use native.Mathlib.Omega.{arith}

pub data Result {ℓ κ} (E : Type ℓ) (A : Type κ) : Type (ℓ ⊔ κ) where
  ok : A → Result E A
  failed : E → Result E A

infixl 5 ◌>>=◌
abbrev pub ◌>>=◌ {ℓ κ κ'} :
    {E : Type ℓ} {A : Type κ} {B : Type κ'} → Result E A → (A → Result E B) → Result E B
failed e >>= f = failed e
ok a >>= f = f a

-- A chain that comes to a value has come to one at its first call.
pub bind-ok {ℓ κ κ'} :
    {E : Type ℓ} {A : Type κ} {B : Type κ'} (r : Result E A) (f : A → Result E B) (b : B)
    → (r >>= f) ≡ ok b
    → (a : A) × (r ≡ ok a) × (f a ≡ ok b)
bind-ok (failed x) f b e = ground arith
bind-ok (ok a) f b e = (a, refl, e)
