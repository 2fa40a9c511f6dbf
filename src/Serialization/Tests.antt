-- ===== src/Serialization/Tests.antt =====
-- Runs of lib/musig2/serialization.ts, with one point, one key and a toy library.
use xpi_p2p_ts.Text.{Text, literal}
use xpi_p2p_ts.Text.Hex.{from_hex, is_hex, hex_value}
use xpi_p2p_ts.Outcome.{ok, err, ◌>>=◌}
use xpi_p2p_ts.Value.{object, text, number, whole}
use xpi_p2p_ts.Serialization.{
  deserialization, not_hex, not_a_text, is_hex_number, object_of, serialize_public_nonces,
  deserialize_public_nonces, deserialize_point, serialize_message, deserialize_message,
}
use xpi_p2p_ts.Serialization.Nonces.{entries, deserialize_public_nonces-serialize}
use xpi_p2p_ts.Serialization.Toy.{toy, toy-IsFaithful, two_points, swapped, swapped-Perm}
use xpi_p2p_ts.Serialization.Accepted.{
  IsPoint, deserialize_point_iff, lower_pairs, serialize_message-deserialize,
}
use xpi_p2p_ts.Base.{◌≡◌, refl, ◌↔◌, true, false, some, [], ◌∷◌, map, if◌then◌else◌, arith}

deserialize_public_nonces-serialize_example :
    (serialize_public_nonces toy (some (map some two_points))
      ≡ ok (entries toy toy-IsFaithful 0 two_points))
    × (deserialize_public_nonces toy (object (object_of swapped)) ≡ ok two_points)
deserialize_public_nonces-serialize_example =
    deserialize_public_nonces-serialize toy toy-IsFaithful two_points swapped (omega arith)
      swapped-Perm

-- 66 digits of a point, and one more, which is dropped.
abbrev point_digits : Text
point_digits = literal "020000000000000000000000000000000000000000000000000000000000000000"

abbrev odd_digits : Text
odd_digits = literal "0200000000000000000000000000000000000000000000000000000000000000007"

odd_point : deserialize_point toy (text odd_digits) ≡ ok false
unfolding deserialize_point from_hex is_hex hex_value
odd_point = refl

no_text : deserialize_point toy (number (whole 5)) ≡ err (deserialization "point" not_a_text)
unfolding deserialize_point
no_text = refl

deserialize_point_iff_example :
    (deserialize_point toy (text point_digits) ≡ ok false)
    ↔ ((is_hex_number point_digits ≡ true) × IsPoint toy (from_hex point_digits) false)
deserialize_point_iff_example = deserialize_point_iff toy point_digits false

serialize_message-deserialize_example :
    (deserialize_message (text (literal "Ab1")) >>= λ m. serialize_message (some m)) ≡ (
      if is_hex (literal "Ab1")
      then ok (lower_pairs (literal "Ab1"))
      else err (deserialization "message" not_hex))
serialize_message-deserialize_example = serialize_message-deserialize (literal "Ab1")

odd_message : deserialize_message (text (literal "Ab1")) ≡ ok (171 ∷ [])
unfolding deserialize_message from_hex is_hex hex_value
odd_message = refl
