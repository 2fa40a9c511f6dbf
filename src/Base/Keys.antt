-- ===== src/Base/Keys.antt =====
-- Keys of a map: a type with a decision of equality.
use Prim.Native.Nat.{ℕ}
use Prim.Native.String.{String}
use mathlib.Core.Path.{◌≡◌, refl}
use mathlib.Core.Bool.{Bool, true, false}
use native.Mathlib.Decide.{ℕ_discrete}
use text.Mathlib.Text.{◌==◌}
use text.Mathlib.TextEquality.{eq_iff}

pub record Key {ℓ} (K : Type ℓ) : Type ℓ where
  pub dec : Discrete K

decide_text : (s t : String) (b : Bool) → (s == t) ≡ b → Dec (s ≡ t)
decide_text s t true e = yes ((eq_iff s t).0 e)
decide_text s t false e = no (λ p. different s t e p)
  where
    different : (s t : String) → (s == t) ≡ false → s ≡ t → ⊥
    different s t e p = cc ((eq_iff s t).1 p)

unfoldable pub String_discrete : Discrete String
unfolding decide_text
String_discrete s t = decide_text s t (s == t) refl

instance abbrev pub string_key : Key String
string_key = record { dec = String_discrete }

instance abbrev pub nat_key : Key ℕ
nat_key = record { dec = ℕ_discrete }
