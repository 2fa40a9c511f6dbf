-- ===== src/Text/Utf8.antt =====
-- `Buffer.from(text)`: the bytes of a text in UTF-8, a surrogate without partner as U+FFFD.
use xpi_p2p_ts.Text.{Text}
use xpi_p2p_ts.Base.{
  ℕ, ◌+◌, ◌-◌, ◌*◌, ◌/◌, ◌%◌, ◌<◌, ◌≡◌, refl, ltb, leb, ◌&&◌, if◌then◌else◌, Bool, true, false,
  List, [], ◌∷◌, ◌++◌, All, arith,
}

abbrev pub is_high : ℕ → Bool
is_high c = leb 0xd800 c && leb c 0xdbff

abbrev pub is_low : ℕ → Bool
is_low c = leb 0xdc00 c && leb c 0xdfff

-- The bytes of a code unit that stands alone.
unfoldable pub unit_bytes : ℕ → List ℕ
unit_bytes c =
    if ltb c 0x80
    then c ∷ []
    else if ltb c 0x800
    then (0xc0 + c / 64) ∷ (0x80 + c % 64) ∷ []
    else if leb 0xd800 c && leb c 0xdfff
    then 0xef ∷ 0xbf ∷ 0xbd ∷ []
    else (0xe0 + c / 4096) ∷ (0x80 + c / 64 % 64) ∷ (0x80 + c % 64) ∷ []

-- Those of two code units that stand for one character.
unfoldable pub pair_bytes : ℕ → ℕ → List ℕ
pair_bytes c d =
    let n = 0x10000 + (c - 0xd800) * 0x400 + (d - 0xdc00) in
    (0xf0 + n / 262144) ∷ (0x80 + n / 4096 % 64) ∷ (0x80 + n / 64 % 64) ∷ (0x80 + n % 64) ∷ []

unfoldable pub utf8 : Text → List ℕ
unfolding unit_bytes pair_bytes
utf8 [] = []
utf8 (c ∷ []) = unit_bytes c
utf8 (c ∷ d ∷ rest) =
    let pair = pair_bytes c d ++ utf8 rest in
    let unit = unit_bytes c ++ utf8 (d ∷ rest) in
    elim (is_high c && is_low d) [ true ↦ pair | false ↦ unit ]

abbrev pub AreAscii : Text → Type 0
AreAscii = All (λ c. c < 0x80)

-- A text in ASCII is encoded by itself, whatever follows.
pub utf8-append : (s t : Text) → AreAscii s → utf8 (s ++ t) ≡ s ++ utf8 t
unfolding utf8 unit_bytes
utf8-append [] t a = refl
utf8-append (c ∷ []) [] a = ground arith
utf8-append (c ∷ []) (d ∷ t) a = ground arith
utf8-append (c ∷ d ∷ s) t a = ground (arith, utf8-append (d ∷ s) t a.1)
