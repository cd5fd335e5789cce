-- ===== src/Common/Attempts.antt =====
-- What a JavaScript function does that may throw: it returns a value, or throws an error.
use mathlib.Core.Path.{◌≡◌, refl}
use mathlib.Core.Bool.{Bool, true, false}

pub data Attempt {ℓ} (E : Type 0) (A : Type ℓ) : Type ℓ where
  returned : A → Attempt E A
  thrown : E → Attempt E A

infixl 5 ◌>>=◌
abbrev pub ◌>>=◌ {ℓ κ} :
    {E : Type 0} {A : Type ℓ} {B : Type κ} → Attempt E A → (A → Attempt E B) → Attempt E B
returned a >>= f = f a
thrown e >>= f = thrown e

-- `if (!test) throw e`
infixl 5 ◌>>◌
abbrev pub ◌>>◌ {ℓ} : {E : Type 0} {B : Type ℓ} → Attempt E (Unit {0}) → Attempt E B → Attempt E B
m >> k = m >>= λ _. k

abbrev pub ensure : {E : Type 0} → Bool → E → Attempt E (Unit {0})
ensure true e = returned tt
ensure false e = thrown e

pub >>=-eq-returned {ℓ κ} :
    {E : Type 0} {A : Type ℓ} {B : Type κ} (m : Attempt E A) (f : A → Attempt E B) {b : B}
    → (m >>= f) ≡ returned b
    → (a : A) × (m ≡ returned a) × (f a ≡ returned b)
>>=-eq-returned (returned a) f h = (a, refl, h)
>>=-eq-returned (thrown e) f h = cc

pub ensure-eq-returned {ℓ} :
    {E : Type 0} {B : Type ℓ} (t : Bool) (e : E) (k : Attempt E B) {b : B}
    → (ensure t e >> k) ≡ returned b
    → (t ≡ true) × (k ≡ returned b)
ensure-eq-returned true e k h = (refl, h)
ensure-eq-returned false e k h = cc
