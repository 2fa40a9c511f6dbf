-- ===== src/Serialization/Accepted.antt =====
-- Which texts are read as points and messages (lib/musig2/serialization.ts).
use xpi_p2p_ts.Text.{Text}
use xpi_p2p_ts.Text.Hex.{
  is_hex, is_hex_digit, to_hex, from_hex, hex_value, hex_digit, hex_value-shown,
}
use xpi_p2p_ts.Outcome.{ok, err, ◌>>=◌, ◌>>◌, require, >>=-eq-ok}
use xpi_p2p_ts.Value.{text}
use xpi_p2p_ts.Serialization.{
  Bitcore, Serialized, wrong_length, not_hex, deserialization, hex_input, is_hex_number,
  point_of_bytes, deserialize_point, serialize_message, deserialize_message,
}
use xpi_p2p_ts.Base.{
  ◌<◌, ◌%◌, String, ℕ, ◌+◌, ◌*◌, ◌/◌, ◌≡◌, refl, subst, ap, ◌∙◌, ◌==◌, leb, ◌&&◌, if◌then◌else◌,
  ◌⊎◌, inl, inr, ◌↔◌, true, some, List, [], ◌∷◌, length, every-cons, arith, Bool-cases,
}

module _ {Point BN PublicKey : Type 0} (lib : Bitcore Point BN PublicKey) where
  -- The bytes of a compressed point, and the point that xpi-ts makes of them.
  pub record IsPoint (bytes : List ℕ) (p : Point) : Type 0 where
    pub prefix : ℕ
    pub x : List ℕ
    pub split : bytes ≡ prefix ∷ x
    pub size : length bytes ≡ 33
    pub parity : (prefix ≡ 2) ⊎ (prefix ≡ 3)
    pub lifted : lib.point_from_x (prefix == 3) (lib.bn_from_buffer x) ≡ some p

  hex_input-eq-ok :
      (name : String) (t u : Text)
      → hex_input name (text t) ≡ ok u
      → (is_hex_number t ≡ true) × (u ≡ t)
  unfolding hex_input
  hex_input-eq-ok name t u h = ground arith

  abbrev sized : List ℕ → Serialized Point
  sized bytes =
      require (length bytes == 33) (deserialization "point" (wrong_length (length bytes)))
      >> point_of_bytes lib bytes

  sized-IsPoint : (bytes : List ℕ) (p : Point) → sized bytes ≡ ok p → IsPoint bytes p
  unfolding point_of_bytes
  sized-IsPoint [] p h = absurd (ground arith)
  sized-IsPoint (prefix ∷ x) p h = record {
    prefix = prefix;
    x = x;
    split = refl;
    size = ground arith;
    parity = ground arith;
    lifted = ground arith;
  }

  IsPoint-sized : (bytes : List ℕ) (p : Point) → IsPoint bytes p → sized bytes ≡ ok p
  unfolding point_of_bytes
  IsPoint-sized [] p i = absurd (ground arith)
  IsPoint-sized (prefix ∷ x) p i = ground arith

  -- A text is read as a point exactly if it is hexadecimal and stands for 33 bytes, of which the
  -- first is 2 or 3 and xpi-ts makes that point of the others.
  pub deserialize_point_iff :
      (t : Text) (p : Point)
      → (deserialize_point lib (text t) ≡ ok p)
        ↔ ((is_hex_number t ≡ true) × IsPoint (from_hex t) p)
  unfolding deserialize_point
  deserialize_point_iff t p = (
    λ h.
        let (u, read, rest) = >>=-eq-ok (hex_input "point" (text t)) _ h in
        let (hex, same) = hex_input-eq-ok "point" t u read in
        (hex, sized-IsPoint (from_hex t) p (subst (λ u. sized (from_hex u) ≡ ok p) same rest)),
    λ h.
        let read : hex_input "point" (text t) ≡ ok t = unfold hex_input in rw (h.0) in
        rw read (IsPoint-sized (from_hex t) p h.1),
  )

abbrev pub lower : ℕ → ℕ
lower c = if leb b'A' c && leb c b'F' then c + 32 else c

-- The digits in lower case, without a digit that has no partner.
abbrev pub lower_pairs : Text → Text
lower_pairs [] = []
lower_pairs (c ∷ []) = []
lower_pairs (c ∷ d ∷ t) = lower c ∷ lower d ∷ lower_pairs t

hex_digit-value : (c v : ℕ) → hex_value c ≡ some v → hex_digit v ≡ lower c
unfolding hex_value hex_digit
hex_digit-value c v h = ground arith

to_hex-pair :
    (c d h l : ℕ) (t : Text)
    → hex_value c ≡ some h
    → hex_value d ≡ some l
    → l < 16
    → to_hex (from_hex (c ∷ d ∷ t)) ≡ hex_digit h ∷ hex_digit l ∷ to_hex (from_hex t)
unfolding to_hex
to_hex-pair c d h l t e e' k =
    let high : (h * 16 + l) / 16 ≡ h = omega arith in
    let low : (h * 16 + l) % 16 ≡ l = omega arith in
    let bytes : from_hex (c ∷ d ∷ t) ≡ (h * 16 + l) ∷ from_hex t =
      unfold from_hex in rw (e, e', from_hex) in
    ap to_hex bytes ∙ (λ i. hex_digit (high i) ∷ hex_digit (low i) ∷ to_hex (from_hex t))

to_hex-from_hex : (t : Text) → is_hex t ≡ true → to_hex (from_hex t) ≡ lower_pairs t
unfolding is_hex
to_hex-from_hex [] h = unfold to_hex from_hex in refl
to_hex-from_hex (c ∷ []) h = unfold to_hex from_hex in refl
to_hex-from_hex (c ∷ d ∷ t) k =
    let (a, k') = every-cons is_hex_digit c (d ∷ t) k in
    let (b, k'') = every-cons is_hex_digit d t k' in
    let (h, e, _) = hex_value-shown c a in
    let (l, e', small) = hex_value-shown d b in
    to_hex-pair c d h l t e e' small
    ∙ (λ i. hex_digit-value c h e i ∷ hex_digit-value d l e' i ∷ to_hex-from_hex t k'' i)

-- A text is read as a message exactly if it is hexadecimal. Written again, the message is the text in
-- lower case, without its last digit if their number is odd.
pub serialize_message-deserialize :
    (t : Text)
    → (deserialize_message (text t) >>= λ m. serialize_message (some m))
      ≡ (if is_hex t then ok (lower_pairs t) else err (deserialization "message" not_hex))
unfolding deserialize_message serialize_message
serialize_message-deserialize t = elim (Bool-cases (is_hex t)) [
  | inl h ↦ rw h (ap ok (to_hex-from_hex t h))
  | inr h ↦ rw h
]
