-- ===== src/Validation/Tests.antt =====
-- Runs of lib/musig2/validation.ts on small messages.
use xpi_p2p_ts.Text.{literal, is_same, text_key, Text_discrete}
use xpi_p2p_ts.Outcome.{err}
use xpi_p2p_ts.Value.{
  Value, field, end, object, text, boolean, number, whole, property, or_undefined,
}
use xpi_p2p_ts.Serialization.{object_of, deserialize_nonces, deserialize_public_nonces}
use xpi_p2p_ts.Serialization.Toy.{toy, toy-IsFaithful, two_points, swapped, swapped-Perm}
use xpi_p2p_ts.Validation.{
  validation_error, all_well, missing_field, invalid_payload, fields_of, nonce_names,
  validate_public_nonces, validate_string, validate_timestamp, validate_boolean,
}
use xpi_p2p_ts.Validation.Payloads.{
  validate_session_join_ack_payload, validate_session_abort_payload, validate_message_payload,
}
use xpi_p2p_ts.Validation.Checks.{IsObject}
use xpi_p2p_ts.Validation.JoinAck.{IsJoinAck, validate_session_join_ack_payload_iff}
use xpi_p2p_ts.Validation.Nonces.{
  first_keys, deserialize_public_nonces-validated, validate_public_nonces-serialized,
}
use xpi_p2p_ts.Validation.Blame.{Blames}
use xpi_p2p_ts.Validation.Errors.{validate_message_payload-Blames}
use xpi_p2p_ts.Base.{ℕ, ◌≤◌, ◌≡◌, refl, ◌↔◌, true, length, arith}

-- An acknowledgment that says yes, at a time.
abbrev yes_at : ℕ → Value
yes_at t = object (
    field (literal "sessionId") (text (literal "s")) (
      field (literal "accepted") (boolean true)
        (field (literal "timestamp") (number (whole t)) end)))

accepts_yes : validate_session_join_ack_payload 1000 (yes_at 900) ≡ all_well
unfolding validate_session_join_ack_payload property Text_discrete validate_string validate_boolean
    validate_timestamp or_undefined
accepts_yes = refl

-- One millisecond over five minutes.
refuses_old :
    validate_session_join_ack_payload 300901 (yes_at 900)
    ≡ err (validation_error invalid_payload (literal "timestamp"))
unfolding validate_session_join_ack_payload property Text_discrete validate_string validate_boolean
    validate_timestamp or_undefined
refuses_old = refl

validate_session_join_ack_payload_iff_example :
    (validate_session_join_ack_payload 1000 (yes_at 900) ≡ all_well)
    ↔ (IsObject (yes_at 900) × IsJoinAck 1000 (fields_of (yes_at 900)))
validate_session_join_ack_payload_iff_example =
    validate_session_join_ack_payload_iff 1000 (yes_at 900)

validate_message_payload-Blames_example :
    Blames 1000
      (literal "sessionAbort")
      (object end)
      (validation_error missing_field (literal "sessionId"))
unfolding validate_message_payload property is_same validate_session_abort_payload
validate_message_payload-Blames_example =
    validate_message_payload-Blames 1000 (literal "sessionAbort") (object end)
      (validation_error missing_field (literal "sessionId")) refl

abbrev swapped_nonces : Value
swapped_nonces = object (object_of swapped)

validate_public_nonces-serialized_example :
    validate_public_nonces (literal "publicNonces") swapped_nonces ≡ all_well
validate_public_nonces-serialized_example =
    validate_public_nonces-serialized toy toy-IsFaithful (literal "publicNonces") two_points swapped
      (omega arith) swapped-Perm

deserialize_public_nonces-validated_example :
    (deserialize_public_nonces toy swapped_nonces
      ≡ deserialize_nonces toy swapped_nonces
          (first_keys 0 (length (nonce_names (fields_of swapped_nonces)))))
    × (2 ≤ length (nonce_names (fields_of swapped_nonces)))
deserialize_public_nonces-validated_example =
    deserialize_public_nonces-validated toy (literal "publicNonces") swapped_nonces (
      validate_public_nonces-serialized toy toy-IsFaithful (literal "publicNonces") two_points
        swapped (omega arith) swapped-Perm)
