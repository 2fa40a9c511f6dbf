-- ===== src/Validation/Blame.antt =====
-- What an error about a payload says (lib/musig2/validation.ts), and the fields of each payload.
use xpi_p2p_ts.Text.{Text, literal}
use xpi_p2p_ts.Text.Hex.{from_hex}
use xpi_p2p_ts.Outcome.{err}
use xpi_p2p_ts.Value.{Value, property, or_undefined}
use xpi_p2p_ts.Validation.{
  ValidationError, Check, invalid_payload, missing_field, invalid_type, invalid_length,
  invalid_message_type, fields_of, text_of, validate_object, validate_string, validate_number,
  validate_timestamp, validate_hex_string, validate_signers_array, validate_public_nonces,
  validate_boolean, validate_final_signature,
}
use xpi_p2p_ts.Validation.Payloads.{is_accepted}
use xpi_p2p_ts.Validation.Checks.{IsObject}
use xpi_p2p_ts.Base.{ℕ, ◌≡◌, ◌≢◌, ◌⊎◌, false, none, some, List, [], ◌∷◌, All, length}

-- A field of a payload and what checks it.
abbrev pub Field : Type 0
Field = Text × Check

pub data Has (x : Field) : List Field → Type 0 where
  here : {xs : List Field} → Has x (x ∷ xs)
  there : {y : Field} {xs : List Field} → Has x xs → Has x (y ∷ xs)

abbrev pub session_id : Field
session_id = (literal "sessionId", validate_string)

abbrev pub timestamp : ℕ → Field
timestamp now = (literal "timestamp", validate_timestamp now)

abbrev pub signer_index : Field
signer_index = (literal "signerIndex", validate_number)

abbrev pub reason : Field
reason = (literal "reason", validate_string)

abbrev pub partial_sig : Field
partial_sig = (literal "partialSig", validate_hex_string none)

abbrev pub announcement_required : ℕ → List Field
announcement_required now =
    session_id
    ∷ (literal "requiredSigners", validate_number)
    ∷ (literal "coordinatorPeerId", validate_string)
    ∷ (literal "messageHash", validate_hex_string none)
    ∷ (literal "createdAt", validate_timestamp now)
    ∷ (literal "expiresAt", validate_timestamp now)
    ∷ []

abbrev pub announcement_optional : List Field
announcement_optional =
    (literal "signers", validate_signers_array) ∷ (literal "metadata", validate_object) ∷ []

abbrev pub join_required : ℕ → List Field
join_required now =
    session_id ∷ (literal "signerPublicKey", validate_hex_string none) ∷ timestamp now ∷ []

abbrev pub join_ack_required : ℕ → List Field
join_ack_required now = session_id ∷ (literal "accepted", validate_boolean) ∷ timestamp now ∷ []

abbrev pub nonce_share_required : ℕ → List Field
nonce_share_required now =
    session_id
    ∷ signer_index
    ∷ timestamp now
    ∷ (literal "publicNonces", validate_public_nonces)
    ∷ []

abbrev pub final_signature : Field
final_signature = (literal "finalSignature", validate_final_signature)

-- The fields that a payload must have, of each type of message, and those that it may have.
pub data HasFields (now : ℕ) : Text → List Field → List Field → Type 0 where
  session_announcement :
      HasFields now
        (literal "sessionAnnouncement")
        (announcement_required now)
        announcement_optional
  session_join : HasFields now (literal "sessionJoin") (join_required now) []
  session_join_ack :
      HasFields now (literal "sessionJoinAck") (join_ack_required now) (reason ∷ signer_index ∷ [])
  nonce_share : HasFields now (literal "nonceShare") (nonce_share_required now) []
  partial_sig_share :
      HasFields now
        (literal "partialSigShare")
        (session_id ∷ signer_index ∷ timestamp now ∷ partial_sig ∷ [])
        []
  session_abort :
      HasFields now (literal "sessionAbort") (session_id ∷ reason ∷ timestamp now ∷ []) []
  session_complete :
      HasFields now
        (literal "sessionComplete")
        (session_id ∷ timestamp now ∷ [])
        (final_signature ∷ [])

-- What an error says of a payload with these fields.
pub data BlamesField (required optional : List Field) (v : Value) (e : ValidationError)
    : Type 0 where
  no_object : e.code ≡ invalid_type → (IsObject v → ⊥) → BlamesField required optional v e
  absent :
      (check : Check)
      → e.code ≡ missing_field
      → Has (e.field_name, check) required
      → property e.field_name (fields_of v) ≡ none
      → BlamesField required optional v e
  unexplained :
      e.code ≡ missing_field
      → e.field_name ≡ literal "reason"
      → Has reason optional
      → is_accepted (fields_of v) ≡ false
      → property e.field_name (fields_of v) ≡ none
      → BlamesField required optional v e
  refused :
      (check : Check) (x : Value) (why : ValidationError)
      → e.code ≡ invalid_payload
      → Has (e.field_name, check) required ⊎ Has (e.field_name, check) optional
      → property e.field_name (fields_of v) ≡ some x
      → check e.field_name x ≡ err why
      → BlamesField required optional v e
  wrong_size :
      e.code ≡ invalid_length
      → e.field_name ≡ literal "partialSig"
      → Has partial_sig required
      → length (from_hex (text_of (or_undefined (property (literal "partialSig") (fields_of v)))))
        ≢ 32
      → BlamesField required optional v e

abbrev pub message_types : List Text
message_types =
    literal "sessionAnnouncement"
    ∷ literal "sessionJoin"
    ∷ literal "sessionJoinAck"
    ∷ literal "nonceShare"
    ∷ literal "partialSigShare"
    ∷ literal "sessionAbort"
    ∷ literal "sessionComplete"
    ∷ []

-- What an error says of a payload in a message of this type.
pub data Blames (now : ℕ) (type : Text) (v : Value) (e : ValidationError) : Type 0 where
  payload :
      (required optional : List Field)
      → HasFields now type required optional
      → BlamesField required optional v e
      → Blames now type v e
  unknown : e.code ≡ invalid_message_type → All (λ t. type ≢ t) message_types → Blames now type v e
