-- ===== src/Text/Decimal.antt =====
-- `String(n)` and `parseInt(text)` for whole numbers, and `/^\d+$/`.
use xpi_p2p_ts.Text.{Text}
use xpi_p2p_ts.Base.{
  ℕ, zero, suc, ◌+◌, ◌-◌, ◌*◌, ◌/◌, ◌%◌, ◌<◌, ◌≡◌, refl, ap, ◌∙◌, ltb, leb, if◌then◌else◌, ◌&&◌,
  Bool, true, false, [], ◌∷◌, ◌++◌, every, arith, Bool-cases, inl, inr,
}

abbrev pub is_digit : ℕ → Bool
is_digit c = leb b'0' c && leb c b'9'

-- The digits of a number, by one unit of fuel for each.
unfoldable pub digits : ℕ → ℕ → Text
digits zero n = []
digits (suc fuel) n =
    let rest = digits fuel (n / 10) in
    if ltb n 10 then (n + b'0') ∷ [] else rest ++ ((n % 10 + b'0') ∷ [])

-- A number has fewer digits than its successor counts.
unfoldable pub decimal : ℕ → Text
unfolding digits
decimal n = digits (suc n) n

unfoldable pub parse_from : ℕ → Text → ℕ
parse_from acc [] = acc
parse_from acc (c ∷ cs) = if is_digit c then parse_from (acc * 10 + (c - b'0')) cs else acc

-- The digits at the beginning of the text, which here has no sign and no white space.
unfoldable pub parse_int : Text → ℕ
unfolding parse_from
parse_int t = parse_from 0 t

unfoldable pub are_digits : Text → Bool
are_digits [] = false
are_digits (c ∷ cs) = is_digit c && every is_digit cs

every-append :
    (xs ys : Text)
    → every is_digit xs ≡ true
    → every is_digit ys ≡ true
    → every is_digit (xs ++ ys) ≡ true
every-append [] ys a b = b
every-append (x ∷ xs) ys a b = ground (arith, every-append xs ys)

parse_from-append :
    (acc : ℕ) (xs ys : Text)
    → every is_digit xs ≡ true
    → parse_from acc (xs ++ ys) ≡ parse_from (parse_from acc xs) ys
unfolding parse_from
parse_from-append acc [] ys a = refl
parse_from-append acc (x ∷ xs) ys a =
    ground (arith, parse_from-append (acc * 10 + (x - b'0')) xs ys)

every-digits : (fuel n : ℕ) → every is_digit (digits fuel n) ≡ true
unfolding digits
every-digits zero n = refl
every-digits (suc fuel) n =
    ground (
      arith,
      every-digits fuel (n / 10),
      every-append (digits fuel (n / 10)) ((n % 10 + b'0') ∷ []),
    )

parse_from-digits : (fuel n : ℕ) → n < fuel → parse_from 0 (digits fuel n) ≡ n
unfolding digits
parse_from-digits zero n h = absurd (omega arith)
parse_from-digits (suc fuel) n h = elim (Bool-cases (ltb n 10)) [
  | inl small ↦ rw small (unfold parse_from in ground arith)
  | inr large ↦ rw large (
      parse_from-append 0 (digits fuel (n / 10)) ((n % 10 + b'0') ∷ []) (every-digits fuel (n / 10))
      ∙ ap (λ m. parse_from m ((n % 10 + b'0') ∷ []))
          (parse_from-digits fuel (n / 10) (ground arith))
      ∙ unfold parse_from in ground arith)
]

-- A printed number is read back.
pub parse_int-decimal : (n : ℕ) → parse_int (decimal n) ≡ n
unfolding parse_int decimal
parse_int-decimal n = parse_from-digits (suc n) n (omega arith)

are_digits-snoc :
    (xs : Text) (c : ℕ)
    → every is_digit xs ≡ true
    → is_digit c ≡ true
    → are_digits (xs ++ (c ∷ [])) ≡ true
unfolding are_digits
are_digits-snoc [] c a b = ground arith
are_digits-snoc (x ∷ xs) c a b = ground (arith, every-append xs (c ∷ []))

pub are_digits-decimal : (n : ℕ) → are_digits (decimal n) ≡ true
unfolding are_digits decimal digits
are_digits-decimal n =
    ground (arith, every-digits n (n / 10), are_digits-snoc (digits n (n / 10)) (n % 10 + b'0'))
