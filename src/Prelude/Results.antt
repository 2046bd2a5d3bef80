-- ===== src/Prelude/Results.antt =====
-- A computation that may raise: the result of a Python call, exceptions as values.
use mathlib.Core.Path.{◌≡◌, refl}

pub data Result {ℓ} (E A : Type ℓ) : Type ℓ where
  err : E → Result E A
  ok : A → Result E A

infixl 5 ◌>>=◌
abbrev pub ◌>>=◌ {ℓ} : {E A B : Type ℓ} (m : Result E A) (k : A → Result E B) → Result E B
err e >>= k = err e
ok a >>= k = k a

-- A bind that succeeds has a first part that does, and goes on from its value.
pub >>=-eq-ok {ℓ} :
    {E A B : Type ℓ} (m : Result E A) (k : A → Result E B) {b : B} (h : (m >>= k) ≡ ok b)
    → (a : A) × (m ≡ ok a) × (k a ≡ ok b)
>>=-eq-ok (err e) k h = cc
>>=-eq-ok (ok a) k h = (a, refl, h)
