-- ===== src/Validation/Payloads.antt =====
-- The validators of whole payloads and messages (lib/musig2/validation.ts).
use xpi_p2p_ts.Text.{Text, literal, is_same}
use xpi_p2p_ts.Text.Hex.{from_hex}
use xpi_p2p_ts.Outcome.{err, ◌>>◌, require}
use xpi_p2p_ts.Value.{Value, Fields, boolean, property, or_undefined}
use xpi_p2p_ts.Validation.{
  validation_error, Checked, all_well, invalid_length, invalid_message_type, size_limit_exceeded,
  text_of, fields_of, validate_string, validate_number, validate_timestamp, validate_hex_string,
  validate_signers_array, validate_public_nonces, validate_boolean, validate_object, validate_field,
  validate_optional, validate_final_signature,
}
use xpi_p2p_ts.Base.{none, ℕ, leb, ◌==◌, if◌then◌else◌, Bool, false, length}

abbrev pub is_true : Value → Bool
is_true (boolean b) = b
is_true _ = false

-- `payload.accepted`, which has been found to be a boolean.
abbrev pub is_accepted : Fields → Bool
is_accepted fs = is_true (or_undefined (property (literal "accepted") fs))

-- A rejection has to say why.
unfoldable pub validate_reason : Fields → Checked
validate_reason fs =
    if is_accepted fs then all_well else validate_field (literal "reason") validate_string fs

-- The bytes of `payload.partialSig`, which has been found to be hexadecimal.
abbrev pub partial_sig_size : Fields → ℕ
partial_sig_size fs =
    length (from_hex (text_of (or_undefined (property (literal "partialSig") fs))))

-- `Date.now()`, one reading for all the timestamps of a payload.
module _ (now : ℕ) where
  unfoldable pub validate_session_announcement_payload : Value → Checked
  unfolding validate_object validate_field validate_optional
  validate_session_announcement_payload v = do
    validate_object (literal "sessionAnnouncement") v
    validate_field (literal "sessionId") validate_string (fields_of v)
    validate_field (literal "requiredSigners") validate_number (fields_of v)
    validate_field (literal "coordinatorPeerId") validate_string (fields_of v)
    validate_field (literal "messageHash") (validate_hex_string none) (fields_of v)
    validate_field (literal "createdAt") (validate_timestamp now) (fields_of v)
    validate_field (literal "expiresAt") (validate_timestamp now) (fields_of v)
    validate_optional (literal "signers") validate_signers_array (fields_of v)
    validate_optional (literal "metadata") validate_object (fields_of v)

  unfoldable pub validate_session_join_payload : Value → Checked
  unfolding validate_object validate_field
  validate_session_join_payload v = do
    validate_object (literal "sessionJoin") v
    validate_field (literal "sessionId") validate_string (fields_of v)
    validate_field (literal "signerPublicKey") (validate_hex_string none) (fields_of v)
    validate_field (literal "timestamp") (validate_timestamp now) (fields_of v)

  unfoldable pub validate_session_join_ack_payload : Value → Checked
  unfolding validate_object validate_field validate_optional validate_reason
  validate_session_join_ack_payload v = do
    validate_object (literal "sessionJoinAck") v
    validate_field (literal "sessionId") validate_string (fields_of v)
    validate_field (literal "accepted") validate_boolean (fields_of v)
    validate_field (literal "timestamp") (validate_timestamp now) (fields_of v)
    validate_reason (fields_of v)
    validate_optional (literal "signerIndex") validate_number (fields_of v)

  unfoldable pub validate_nonce_share_payload : Value → Checked
  unfolding validate_object validate_field
  validate_nonce_share_payload v = do
    validate_object (literal "nonceShare") v
    validate_field (literal "sessionId") validate_string (fields_of v)
    validate_field (literal "signerIndex") validate_number (fields_of v)
    validate_field (literal "timestamp") (validate_timestamp now) (fields_of v)
    validate_field (literal "publicNonces") validate_public_nonces (fields_of v)

  unfoldable pub validate_partial_sig_share_payload : Value → Checked
  unfolding validate_object validate_field
  validate_partial_sig_share_payload v = do
    validate_object (literal "partialSigShare") v
    validate_field (literal "sessionId") validate_string (fields_of v)
    validate_field (literal "signerIndex") validate_number (fields_of v)
    validate_field (literal "timestamp") (validate_timestamp now) (fields_of v)
    validate_field (literal "partialSig") (validate_hex_string none) (fields_of v)
    require (partial_sig_size (fields_of v) == 32)
        (validation_error invalid_length (literal "partialSig"))

  unfoldable pub validate_session_abort_payload : Value → Checked
  unfolding validate_object validate_field
  validate_session_abort_payload v = do
    validate_object (literal "sessionAbort") v
    validate_field (literal "sessionId") validate_string (fields_of v)
    validate_field (literal "reason") validate_string (fields_of v)
    validate_field (literal "timestamp") (validate_timestamp now) (fields_of v)

  unfoldable pub validate_session_complete_payload : Value → Checked
  unfolding validate_object validate_field validate_optional
  validate_session_complete_payload v = do
    validate_object (literal "sessionComplete") v
    validate_field (literal "sessionId") validate_string (fields_of v)
    validate_field (literal "timestamp") (validate_timestamp now) (fields_of v)
    validate_optional (literal "finalSignature") validate_final_signature (fields_of v)

  unfoldable pub validate_message_payload : Text → Value → Checked
  validate_message_payload type v =
      if is_same type (literal "sessionAnnouncement")
      then validate_session_announcement_payload v
      else if is_same type (literal "sessionJoin")
      then validate_session_join_payload v
      else if is_same type (literal "sessionJoinAck")
      then validate_session_join_ack_payload v
      else if is_same type (literal "nonceShare")
      then validate_nonce_share_payload v
      else if is_same type (literal "partialSigShare")
      then validate_partial_sig_share_payload v
      else if is_same type (literal "sessionAbort")
      then validate_session_abort_payload v
      else if is_same type (literal "sessionComplete")
      then validate_session_complete_payload v
      else err (validation_error invalid_message_type (literal "messageType"))

-- The bytes of a value's JSON are counted by a parameter.
module _ (json_size : Value → ℕ) where
  unfoldable pub validate_message_size : ℕ → Value → Checked
  validate_message_size most v =
      require (leb (json_size v) most) (validation_error size_limit_exceeded (literal "message"))

  unfoldable pub validate_message_structure : Value → Checked
  unfolding validate_object validate_field validate_message_size
  validate_message_structure v = do
    validate_object (literal "message") v
    validate_field (literal "type") validate_string (fields_of v)
    validate_field (literal "protocol") validate_string (fields_of v)
    validate_field (literal "payload") validate_object (fields_of v)
    validate_message_size 100000 (or_undefined (property (literal "payload") (fields_of v)))
