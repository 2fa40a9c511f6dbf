-- ===== src/Election/Sorting.antt =====
-- The sorting of lib/musig2/election.ts.
use text.Mathlib.TextEquality.{Char-path}
use Prim.Native.Char.{code}
use xpi_p2p_ts.Election.{bytes_le, codes, text_le}
use xpi_p2p_ts.Sorting.{IsOrder}
use xpi_p2p_ts.Base.{ℕ, ◌≡◌, refl, String, true, false, List, [], ◌∷◌, arith}

bytes_le-total : (a b : List ℕ) → bytes_le a b ≡ false → bytes_le b a ≡ true
unfolding bytes_le
bytes_le-total [] b h = absurd (ground arith)
bytes_le-total (x ∷ a) [] h = refl
bytes_le-total (x ∷ a) (y ∷ b) h = ground (arith, bytes_le-total a b)

bytes_le_trans : (a b c : List ℕ) → bytes_le a b ≡ true → bytes_le b c ≡ true → bytes_le a c ≡ true
unfolding bytes_le
bytes_le_trans [] b c h k = refl
bytes_le_trans (x ∷ a) [] c h k = absurd (ground arith)
bytes_le_trans (x ∷ a) (y ∷ b) [] h k = absurd (ground arith)
bytes_le_trans (x ∷ a) (y ∷ b) (z ∷ c) h k = ground (arith, bytes_le_trans a b c)

bytes_le-antisym : (a b : List ℕ) → bytes_le a b ≡ true → bytes_le b a ≡ true → a ≡ b
unfolding bytes_le
bytes_le-antisym [] [] h k = refl
bytes_le-antisym [] (y ∷ b) h k = absurd (ground arith)
bytes_le-antisym (x ∷ a) [] h k = absurd (ground arith)
bytes_le-antisym (x ∷ a) (y ∷ b) h k = ground (arith, bytes_le-antisym a b)

-- An order by what a function reads, if the function forgets nothing.
pub by-IsOrder :
    {A : Type 0} (read : A → List ℕ)
    → ((a b : A) → read a ≡ read b → a ≡ b)
    → IsOrder (λ (a : A) (b : A). bytes_le (read a) (read b))
by-IsOrder read injective = record {
  total = λ a b. bytes_le-total (read a) (read b);
  trans = λ a b c. bytes_le_trans (read a) (read b) (read c);
  antisym = λ a b h k. injective a b (bytes_le-antisym (read a) (read b) h k);
}

codes-injective : (s t : String) → codes s ≡ codes t → s ≡ t
unfolding codes
codes-injective String.[] String.[] h = refl
codes-injective String.[] (String.◌∷◌ d t) h = absurd (ground arith)
codes-injective (String.◌∷◌ c s) String.[] h = absurd (ground arith)
codes-injective (String.◌∷◌ c s) (String.◌∷◌ d t) h =
    let first : code c ≡ code d = cc in
    let rest : codes s ≡ codes t = cc in
    λ i. String.◌∷◌ (Char-path c d first i) (codes-injective s t rest i)

pub text_le-IsOrder : IsOrder text_le
unfolding text_le
text_le-IsOrder = by-IsOrder codes codes-injective
