-- ===== src/Outcome.antt =====
-- A call that returns or throws: the value, or the error that is thrown.
use xpi_p2p_ts.Base.{◌≡◌, refl, Bool, true, false, Option, none, some}

pub data Result {ℓ} (E A : Type ℓ) : Type ℓ where
  err : E → Result E A
  ok : A → Result E A

infixl 5 ◌>>=◌
abbrev pub ◌>>=◌ {ℓ} : {E A B : Type ℓ} → Result E A → (A → Result E B) → Result E B
err thrown >>= next = err thrown
ok value >>= next = next value

-- `if (!test) throw e`
abbrev pub require : {E : Type 0} → Bool → E → Result E (Unit {0})
require true e = ok tt
require false e = err e

infixl 5 ◌>>◌
abbrev pub ◌>>◌ {ℓ} : {E B : Type ℓ} → Result E (Unit {ℓ}) → Result E B → Result E B
checks >> rest = checks >>= λ _. rest

-- What a library call returns, or `e` in place of what it throws.
abbrev pub returned {ℓ} : {E A : Type ℓ} → E → Option A → Result E A
returned e none = err e
returned e (some a) = ok a

-- `try { m } catch { throw e }`
abbrev pub rethrow {ℓ} : {E A : Type ℓ} → E → Result E A → Result E A
rethrow e (ok a) = ok a
rethrow e (err _) = err e

abbrev pub is_ok {ℓ} : {E A : Type ℓ} → Result E A → Bool
is_ok (ok _) = true
is_ok (err _) = false

-- The parts of a chain that returned.
pub >>=-eq-ok {ℓ} :
    {E A B : Type ℓ} (first : Result E A) (next : A → Result E B) {last : B}
    → (first >>= next) ≡ ok last
    → (value : A) × (first ≡ ok value) × (next value ≡ ok last)
>>=-eq-ok (err thrown) next chain = cc
>>=-eq-ok (ok value) next chain = (value, refl, chain)
