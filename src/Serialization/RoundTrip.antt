-- ===== src/Serialization/RoundTrip.antt =====
-- Points, numbers, keys, messages and signatures, written and read (lib/musig2/serialization.ts).
use xpi_p2p_ts.Text.{Text, IsByte, AreBytes, literal, Text_discrete}
use xpi_p2p_ts.Text.Hex.{to_hex, is_hex-to_hex, from_hex-to_hex}
use xpi_p2p_ts.Outcome.{ok}
use xpi_p2p_ts.Value.{Value, read, end, field, object, array, text, items}
use xpi_p2p_ts.Serialization.{
  Bitcore, SerializedSignature, array_of, is_hex_number, hex_input, serialize_point,
  deserialize_point, point_of_bytes, serialize_public_key, deserialize_public_key,
  serialize_public_keys, serialize_keys_from, deserialize_public_keys, deserialize_keys_from,
  serialize_signature, deserialize_signature,
}
use xpi_p2p_ts.Base.{
  String, ℕ, suc, ◌<◌, ◌≡◌, refl, ap, ◌∙◌, ◌==◌, ◌⊎◌, true, some, List, [], ◌∷◌, ◌++◌, map, length,
  take, drop, take-append-drop, take_all, All-take, All-drop, length-take, length-drop, arith,
}

-- What the code relies on of xpi-ts: a value is made again from the bytes that it was written to,
-- and these have the documented sizes.
pub record IsFaithful {Point BN PublicKey : Type 0} (lib : Bitcore Point BN PublicKey)
    : Type 0 where
  pub prefix : Point → ℕ
  pub x_bytes : Point → List ℕ
  pub compressed : (p : Point) → lib.point_to_compressed p ≡ some (prefix p ∷ x_bytes p)
  pub parity : (p : Point) → (prefix p ≡ 2) ⊎ (prefix p ≡ 3)
  pub x_size : (p : Point) → length (x_bytes p) ≡ 32
  pub x_AreBytes : (p : Point) → AreBytes (x_bytes p)
  pub lift_x :
      (p : Point) → lib.point_from_x (prefix p == 3) (lib.bn_from_buffer (x_bytes p)) ≡ some p
  pub key_bytes : PublicKey → List ℕ
  pub key_written : (k : PublicKey) → lib.key_to_buffer k ≡ some (key_bytes k)
  pub key_size : (k : PublicKey) → (length (key_bytes k) ≡ 33) ⊎ (length (key_bytes k) ≡ 65)
  pub key_AreBytes : (k : PublicKey) → AreBytes (key_bytes k)
  pub key_read : (k : PublicKey) → lib.key_from_buffer (key_bytes k) ≡ some k

pub hex_input-to_hex :
    (name : String) (bytes : List ℕ)
    → AreBytes bytes
    → 0 < length bytes
    → hex_input name (text (to_hex bytes)) ≡ ok (to_hex bytes)
unfolding hex_input is_hex_number to_hex
hex_input-to_hex name [] a h = absurd (omega arith)
hex_input-to_hex name (b ∷ bs) a h = rw (is_hex-to_hex (b ∷ bs) a)

module _ {Point BN PublicKey : Type 0} (lib : Bitcore Point BN PublicKey)
    (faithful : IsFaithful lib) where
  open faithful use {
    prefix, x_bytes, compressed, parity, x_size, x_AreBytes, lift_x, key_bytes, key_written,
    key_size, key_AreBytes, key_read,
  }

  abbrev pub point_bytes : Point → List ℕ
  point_bytes p = prefix p ∷ x_bytes p

  pub point_bytes-AreBytes : (p : Point) → AreBytes (point_bytes p)
  point_bytes-AreBytes p = (ground (arith, parity p), x_AreBytes p)

  pub point_bytes-size : (p : Point) → length (point_bytes p) ≡ 33
  point_bytes-size p = ap suc (x_size p)

  pub serialize_point_lem : (p : Point) → serialize_point lib p ≡ ok (to_hex (point_bytes p))
  unfolding serialize_point
  serialize_point_lem p = rw (compressed p)

  point_of_bytes_lem : (p : Point) → point_of_bytes lib (point_bytes p) ≡ ok p
  unfolding point_of_bytes
  point_of_bytes_lem p = ground (arith, parity p, lift_x p)

  pub deserialize_point-to_hex :
      (p : Point) → deserialize_point lib (text (to_hex (point_bytes p))) ≡ ok p
  unfolding deserialize_point
  deserialize_point-to_hex p =
      let a = point_bytes-AreBytes p in
      rw
        (
          hex_input-to_hex "point" (point_bytes p) a (omega arith),
          from_hex-to_hex (point_bytes p) a,
        )
        (rw (x_size p) (point_of_bytes_lem p))

  pub deserialize_public_key-to_hex :
      (k : PublicKey) → deserialize_public_key lib (text (to_hex (key_bytes k))) ≡ ok k
  unfolding deserialize_public_key
  deserialize_public_key-to_hex k =
      let a = key_AreBytes k in
      let size = key_size k in
      rw
        (
          hex_input-to_hex "publicKey" (key_bytes k) a (ground (arith, size)),
          from_hex-to_hex (key_bytes k) a,
        )
        (ground (arith, size, key_read k))

  pub serialize_public_key_lem :
      (k : PublicKey) → serialize_public_key lib (some k) ≡ ok (to_hex (key_bytes k))
  unfolding serialize_public_key
  serialize_public_key_lem k = rw (key_written k)

  abbrev key_texts : List PublicKey → List Text
  key_texts = map (λ k. to_hex (key_bytes k))

  serialize_keys_from_lem :
      (i : ℕ) (ks : List PublicKey) → serialize_keys_from lib i (map some ks) ≡ ok (key_texts ks)
  unfolding serialize_keys_from
  serialize_keys_from_lem i [] = refl
  serialize_keys_from_lem i (k ∷ ks) =
      rw (serialize_public_key_lem k, serialize_keys_from_lem (suc i) ks)

  deserialize_keys_from_lem :
      (i : ℕ) (ks : List PublicKey)
      → deserialize_keys_from lib i (items (array_of (key_texts ks))) ≡ ok ks
  unfolding deserialize_keys_from
  deserialize_keys_from_lem i [] = refl
  deserialize_keys_from_lem i (k ∷ ks) =
      rw (deserialize_public_key-to_hex k, deserialize_keys_from_lem (suc i) ks)

  -- A list of public keys, of any length, is written to a list of texts from which it is read back.
  pub deserialize_public_keys-serialize :
      (ks : List PublicKey)
      → (ts : List Text) × (serialize_public_keys lib (some (map some ks)) ≡ ok ts)
        × (deserialize_public_keys lib (array (array_of ts)) ≡ ok ks)
  unfolding serialize_public_keys deserialize_public_keys
  deserialize_public_keys-serialize ks =
      (key_texts ks, serialize_keys_from_lem 0 ks, deserialize_keys_from_lem 0 ks)

-- The object with a signature's two texts.
abbrev pub signature_object : SerializedSignature → Value
signature_object sig =
    object (field (literal "r") (text sig.r) (field (literal "s") (text sig.s) end))

read_r : (sig : SerializedSignature) → read (literal "r") (signature_object sig) ≡ text sig.r
unfolding read Text_discrete
read_r sig = refl

read_s : (sig : SerializedSignature) → read (literal "s") (signature_object sig) ≡ text sig.s
unfolding read Text_discrete
read_s sig = refl

is_hex_number-to_hex :
    (bytes : List ℕ) → AreBytes bytes → 0 < length bytes → is_hex_number (to_hex bytes) ≡ true
unfolding is_hex_number to_hex
is_hex_number-to_hex [] a h = absurd (omega arith)
is_hex_number-to_hex (b ∷ bs) a h = is_hex-to_hex (b ∷ bs) a

deserialize_halves :
    (x y : List ℕ)
    → AreBytes x
    → AreBytes y
    → length x ≡ 32
    → length y ≡ 32
    → deserialize_signature (signature_object (record { r = to_hex x; s = to_hex y })) ≡ ok (x ++ y)
unfolding deserialize_signature
deserialize_halves x y a b h k =
    let sig : SerializedSignature = record { r = to_hex x; s = to_hex y } in
    rw (
      read_r sig,
      read_s sig,
      is_hex_number-to_hex x a (omega arith),
      is_hex_number-to_hex y b (omega arith),
      from_hex-to_hex x a,
      from_hex-to_hex y b,
      h,
      k,
    )

-- A buffer of 64 bytes is written as two texts, from which it is read back.
pub deserialize_signature-serialize :
    (bytes : List ℕ)
    → AreBytes bytes
    → length bytes ≡ 64
    → (sig : SerializedSignature) × (serialize_signature (some bytes) ≡ ok sig)
      × (deserialize_signature (signature_object sig) ≡ ok bytes)
unfolding serialize_signature
deserialize_signature-serialize bytes a h =
    let halves =
      deserialize_halves (take 32 bytes) (take 32 (drop 32 bytes)) (All-take IsByte 32 bytes a)
        (All-take IsByte 32 (drop 32 bytes) (All-drop IsByte 32 bytes a))
        (omega (arith, length-take {0} 32 bytes))
        (omega (arith, length-take {0} 32 (drop 32 bytes), length-drop {0} 32 bytes)) in
    let rest : take 32 (drop 32 bytes) ≡ drop 32 bytes =
      take_all 32 (drop 32 bytes) (omega (arith, length-drop {0} 32 bytes)) in
    (
      record { r = to_hex (take 32 bytes); s = to_hex (take 32 (drop 32 bytes)) },
      rw h,
      halves ∙ ap ok (ap (λ y. take 32 bytes ++ y) rest ∙ take-append-drop 32 bytes),
    )
