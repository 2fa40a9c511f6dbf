-- ===== src/Text/Hex.antt =====
-- `buffer.toString('hex')`, `Buffer.from(text, 'hex')` and `/^[0-9a-fA-F]*$/` of Node.js.
use xpi_p2p_ts.Text.{Text, AreBytes}
use xpi_p2p_ts.Base.{
  ℕ, suc, ◌+◌, ◌-◌, ◌*◌, ◌/◌, ◌%◌, ◌<◌, ◌≡◌, ◌≢◌, refl, inl, inr, every-cons, Option-cases, ltb,
  leb, if◌then◌else◌, ◌&&◌, ◌||◌, Bool, true, Option, none, some, List, [], ◌∷◌, length, every,
  arith,
}

-- The value of a hexadecimal digit, of either case.
unfoldable pub hex_value : ℕ → Option ℕ
hex_value c =
    if leb b'0' c && leb c b'9'
    then some (c - b'0')
    else if leb b'a' c && leb c b'f'
    then some (c - b'a' + 10)
    else if leb b'A' c && leb c b'F'
    then some (c - b'A' + 10)
    else none

abbrev pub is_hex_digit : ℕ → Bool
is_hex_digit c =
    (leb b'0' c && leb c b'9') || (leb b'a' c && leb c b'f') || (leb b'A' c && leb c b'F')

unfoldable pub is_hex : Text → Bool
is_hex = every is_hex_digit

unfoldable pub hex_digit : ℕ → ℕ
hex_digit n = if ltb n 10 then n + b'0' else n - 10 + b'a'

unfoldable pub to_hex : List ℕ → Text
to_hex [] = []
to_hex (b ∷ bs) = hex_digit (b / 16) ∷ hex_digit (b % 16) ∷ to_hex bs

-- Decoding ends before the first pair that is not hexadecimal, and drops a digit without partner.
unfoldable pub from_hex : Text → List ℕ
from_hex [] = []
from_hex (c ∷ []) = []
from_hex (c ∷ d ∷ rest) =
    let bytes = from_hex rest in
    elim (hex_value c) [
      | none ↦ []
      | some h ↦ elim (hex_value d) [ none ↦ [] | some l ↦ (h * 16 + l) ∷ bytes ]
    ]

hex_value-digit : (n : ℕ) → n < 16 → hex_value (hex_digit n) ≡ some n
unfolding hex_value hex_digit
hex_value-digit n h = ground arith

is_hex_digit-digit : (n : ℕ) → n < 16 → is_hex_digit (hex_digit n) ≡ true
unfolding hex_digit
is_hex_digit-digit n h = ground arith

pub is_hex-to_hex : (bs : List ℕ) → AreBytes bs → is_hex (to_hex bs) ≡ true
unfolding is_hex to_hex
is_hex-to_hex [] a = refl
is_hex-to_hex (b ∷ bs) a =
    let high = is_hex_digit-digit (b / 16) (omega arith) in
    let low = is_hex_digit-digit (b % 16) (omega arith) in
    ground (arith, high, low, is_hex-to_hex bs a.1)

pub length-to_hex : (bs : List ℕ) → length (to_hex bs) ≡ length bs * 2
unfolding to_hex
length-to_hex [] = refl
length-to_hex (b ∷ bs) = omega (arith, length-to_hex bs)

-- What was written in hexadecimal is read back.
pub from_hex-to_hex : (bs : List ℕ) → AreBytes bs → from_hex (to_hex bs) ≡ bs
unfolding from_hex to_hex
from_hex-to_hex [] a = refl
from_hex-to_hex (b ∷ bs) a =
    let high = hex_value-digit (b / 16) (omega arith) in
    let low = hex_value-digit (b % 16) (omega arith) in
    ground (arith, high, low, from_hex-to_hex bs a.1)

hex_value-ne-none : (c : ℕ) → is_hex_digit c ≡ true → hex_value c ≢ none
unfolding hex_value
hex_value-ne-none c h e = ground arith

pub hex_value-lt : (c v : ℕ) → hex_value c ≡ some v → v < 16
unfolding hex_value
hex_value-lt c v h = ground arith

pub hex_value-shown : (c : ℕ) → is_hex_digit c ≡ true → (v : ℕ) × (hex_value c ≡ some v) × (v < 16)
hex_value-shown c h = elim (Option-cases (hex_value c)) [
  | inl e ↦ absurd (hex_value-ne-none c h e)
  | inr (v, e) ↦ (v, e, hex_value-lt c v e)
]

pair_length :
    (c d : ℕ) (rest : Text)
    → hex_value c ≢ none
    → hex_value d ≢ none
    → length (from_hex (c ∷ d ∷ rest)) ≡ suc (length (from_hex rest))
unfolding from_hex
pair_length c d rest h k = ground arith

-- Every pair of digits gives a byte.
pub length-from_hex : (t : Text) → is_hex t ≡ true → length (from_hex t) ≡ length t / 2
unfolding is_hex
length-from_hex [] h = unfold from_hex in refl
length-from_hex (c ∷ []) h = unfold from_hex in refl
length-from_hex (c ∷ d ∷ rest) h =
    let (a, h') = every-cons is_hex_digit c (d ∷ rest) h in
    let (b, h'') = every-cons is_hex_digit d rest h' in
    let one = pair_length c d rest (hex_value-ne-none c a) (hex_value-ne-none d b) in
    omega (arith, one, length-from_hex rest h'')

pub from_hex-AreBytes : (t : Text) → AreBytes (from_hex t)
unfolding from_hex
from_hex-AreBytes [] = tt
from_hex-AreBytes (c ∷ []) = tt
from_hex-AreBytes (c ∷ d ∷ rest) =
    grind (arith, hex_value-lt c, hex_value-lt d, from_hex-AreBytes rest)
