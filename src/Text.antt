-- ===== src/Text.antt =====
-- JavaScript's texts, as lists of code units, and the bytes of a Node.js `Buffer`.
pub mod Hex
pub mod Decimal
pub mod Utf8
use Prim.Native.Char.{code}
use xpi_p2p_ts.Base.{
  ℕ, ◌<◌, ◌≡◌, refl, subst, ◌==◌, ◌&&◌, String, Bool, true, false, List, [], ◌∷◌, All, Key, arith,
}

abbrev pub Text : Type 0
Text = List ℕ

-- A text that is written in the source.
abbrev pub literal : String → Text
literal String.[] = []
literal (String.◌∷◌ c s) = code c ∷ literal s

unfoldable pub is_same : Text → Text → Bool
is_same [] [] = true
is_same [] (d ∷ t) = false
is_same (c ∷ s) [] = false
is_same (c ∷ s) (d ∷ t) = c == d && is_same s t

pub is_same-eq : (s t : Text) → is_same s t ≡ true → s ≡ t
unfolding is_same
is_same-eq [] [] h = refl
is_same-eq [] (d ∷ t) h = cc
is_same-eq (c ∷ s) [] h = cc
is_same-eq (c ∷ s) (d ∷ t) h = ground (arith, is_same-eq s t)

pub is_same_refl : (s : Text) → is_same s s ≡ true
unfolding is_same
is_same_refl [] = refl
is_same_refl (c ∷ s) = ground (arith, is_same_refl s)

decide_text : (s t : Text) (b : Bool) → is_same s t ≡ b → Dec (s ≡ t)
decide_text s t true e = yes (is_same-eq s t e)
decide_text s t false e =
    no (λ p.
      let same : is_same s t ≡ true = subst (λ u. is_same s u ≡ true) p (is_same_refl s) in cc)

unfoldable pub Text_discrete : Discrete Text
unfolding decide_text is_same
Text_discrete s t = decide_text s t (is_same s t) refl

instance abbrev pub text_key : Key Text
text_key = record { dec = Text_discrete }

abbrev pub IsByte : ℕ → Type 0
IsByte b = b < 256

abbrev pub AreBytes : List ℕ → Type 0
AreBytes = All IsByte
