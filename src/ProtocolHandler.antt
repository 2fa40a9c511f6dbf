-- ===== src/ProtocolHandler.antt =====
-- MuSig2ProtocolHandler of lib/musig2/protocol.ts: what a message of the network has to pass before its
-- payload is handed on. The message signer is MessageSigning, the security validator SigningSecurity,
-- the replay protection Replay, and the payloads' validators are those of Validation.
pub mod Delivered
pub mod Once
mod Tests
use xpi_p2p_ts.Text.{Text, literal, is_same}
use xpi_p2p_ts.Outcome.{Result, ok, err, is_ok}
use xpi_p2p_ts.Value.{Value, Number, whole, Fields, field, end, number, text, object, undefined}
use xpi_p2p_ts.Validation.{ValidationError, validation_error, invalid_payload, Checked, all_well}
use xpi_p2p_ts.Validation.Payloads.{
  validate_session_join_payload, validate_session_join_ack_payload, validate_nonce_share_payload,
  validate_partial_sig_share_payload, validate_session_abort_payload,
  validate_session_complete_payload, validate_message_structure,
}
use xpi_p2p_ts.MessageSigning
use xpi_p2p_ts.MessageSigning.{P2PMessage, Schnorr, verify_message, has_signature}
use xpi_p2p_ts.SigningSecurity
use xpi_p2p_ts.Replay
use xpi_p2p_ts.Replay.{ReplayProtection, Stamp, Validation, valid, rejected}
use xpi_p2p_ts.Base.{
  ℕ, if◌then◌else◌, ◌&&◌, String, Bool, true, false, Option, none, some, List, [], ◌∷◌,
}

-- The values of MuSig2MessageType.
pub data MessageType : Type 0 where
  session_announcement session_join session_join_ack nonce_share partial_sig_share session_abort
        session_complete :
      MessageType

unfoldable pub type_name : MessageType → Text
type_name session_announcement = literal "musig2:session-announcement"
type_name session_join = literal "musig2:session-join"
type_name session_join_ack = literal "musig2:session-join-ack"
type_name nonce_share = literal "musig2:nonce-share"
type_name partial_sig_share = literal "musig2:partial-sig-share"
type_name session_abort = literal "musig2:session-abort"
type_name session_complete = literal "musig2:session-complete"

-- What JavaScript makes of a message where the code reads parts of it without a check.
pub record Reading : Type 0 where
  pub json_size : Value → ℕ
  pub message_size : P2PMessage → Option ℕ
  -- The payload for the security validator, if it is an object.
  pub secured : Value → Option SigningSecurity.Payload
  -- The message id and the session id, as the keys of a map.
  pub id_key : Text → String
  pub session_id : Value → Option String
  pub signer_index : Value → Option ℕ
  pub sequence_number : Value → Option ℕ

pub data Rejection : Type 0 where
  security_validation_failed missing_signature invalid_signature : Rejection
  replayed : Replay.Reason → Rejection

-- What `_validateAndRouteMessage` throws. An unknown type is thrown as a ValidationError whose message is
-- the code and whose reason is the text.
pub data Refusal : Type 0 where
  invalid : ValidationError → Refusal
  unknown_type : Text → Refusal

-- One event for each of the six types, and for what is rejected or thrown.
pub data Event : Type 0 where
  received : MessageType → Value → Event
  security_rejected : Rejection → Event
  validation_failed : Refusal → Event
  unexpected : Event

-- The fields that `validateMessageStructure` reads.
abbrev pub or_undefined_text : Option Text → Value
or_undefined_text none = undefined
or_undefined_text (some t) = text t

abbrev pub as_value : P2PMessage → Value
as_value m = object (
    field (literal "type") (text m.type) (
      field (literal "protocol") (or_undefined_text m.protocol)
        (field (literal "payload") m.payload end)))

abbrev pub or_zero : Option ℕ → ℕ
or_zero none = 0
or_zero (some t) = t

abbrev pub has_protocol : Text → Option Text → Bool
has_protocol name none = false
has_protocol name (some t) = is_same t name

-- A payload that its validator lets pass, with its type.
abbrev pub routed : MessageType → Checked → Value → Result Refusal (MessageType × Value)
routed type (ok _) v = ok (type, v)
routed type (err e) v = err (invalid e)

unfoldable pub validate_and_route : ℕ → P2PMessage → Result Refusal (MessageType × Value)
validate_and_route now m =
    let is_type = λ (t : MessageType). is_same m.type (type_name t) in
    let v = m.payload in
    if is_type session_join
    then routed session_join (validate_session_join_payload now v) v
    else if is_type session_join_ack
    then routed session_join_ack (validate_session_join_ack_payload now v) v
    else if is_type nonce_share
    then routed nonce_share (validate_nonce_share_payload now v) v
    else if is_type partial_sig_share
    then routed partial_sig_share (validate_partial_sig_share_payload now v) v
    else if is_type session_abort
    then routed session_abort (validate_session_abort_payload now v) v
    else if is_type session_complete
    then routed session_complete (validate_session_complete_payload now v) v
    else err (unknown_type m.type)

pub record Handler : Type 0 where
  pub security : Option SigningSecurity.Validator
  pub signing : MessageSigning.Config
  pub require_signatures : Bool
  pub replay : ReplayProtection

-- The calls that set the handler up. A resolver of public keys is an argument of `handle_message`.
pub set_security_validator : SigningSecurity.Validator → Handler → Handler
set_security_validator v h = record h { security = some v }

pub set_message_signer : MessageSigning.Config → Handler → Handler
set_message_signer c h = record h { signing = c }

pub set_replay_protection : ReplayProtection → Handler → Handler
set_replay_protection rp h = record h { replay = rp }

pub set_require_signatures : Bool → Handler → Handler
set_require_signatures b h = record h { require_signatures = b }

pub start_replay_protection : Handler → Handler
start_replay_protection h = record h { replay = Replay.start h.replay }

pub stop_replay_protection : Handler → Handler
stop_replay_protection h = record h { replay = Replay.stop h.replay }

pub clear_session_replay_data : String → Handler → Handler
clear_session_replay_data session h = record h { replay = Replay.clear_session session h.replay }

-- `validateMessagePayload` of the handler: whether the payload of a type passes.
unfoldable pub is_valid_payload : ℕ → MessageType → Value → Bool
is_valid_payload now session_announcement v = false
is_valid_payload now session_join v = is_ok (validate_session_join_payload now v)
is_valid_payload now session_join_ack v = is_ok (validate_session_join_ack_payload now v)
is_valid_payload now nonce_share v = is_ok (validate_nonce_share_payload now v)
is_valid_payload now partial_sig_share v = is_ok (validate_partial_sig_share_payload now v)
is_valid_payload now session_abort v = is_ok (validate_session_abort_payload now v)
is_valid_payload now session_complete v = is_ok (validate_session_complete_payload now v)

abbrev pub protocol_name : Text
protocol_name = literal "musig2"

-- The events of a message: none if it is for another protocol.
abbrev pub Handled : Type 0
Handled = Handler × List Event

-- Math.ceil(n * 0.1) of the replay protection, and the resolver of public keys, if one is set.
module _ {PrivateKey PublicKey : Type 0} (lib : Schnorr PrivateKey PublicKey) (reading : Reading)
    (ceil_tenth : ℕ → ℕ) (resolver : Option (String → ℕ → Option PublicKey)) (now : ℕ) where
  abbrev pub resolve_for :
      (String → ℕ → Option PublicKey) → Option String → Option ℕ → Option PublicKey
  resolve_for f (some session) (some signer) = f session signer
  resolve_for f _ _ = none

  unfoldable pub expected_key : P2PMessage → Option PublicKey
  expected_key m = elim resolver [
    | none ↦ none
    | some f ↦ resolve_for f (reading.session_id m.payload) (reading.signer_index m.payload)
  ]

  -- Whether the signature passes, and what is thrown or refused if not.
  abbrev pub judged : Option Bool → Option Event
  judged none = some unexpected
  judged (some false) = some (security_rejected invalid_signature)
  judged (some true) = none

  unfoldable pub verify_message_signature : MessageSigning.Config → P2PMessage → Option Event
  unfolding expected_key
  verify_message_signature c m =
      if has_signature m
      then judged (verify_message lib c m (expected_key m))
      else some (security_rejected missing_signature)

  -- Steps 5 to 7, and the handling of what they throw.
  abbrev pub emit : Result Refusal (MessageType × Value) → Event
  emit (ok (type, v)) = received type v
  emit (err e) = validation_failed e

  abbrev pub check_payload : P2PMessage → Checked → Event
  check_payload m (ok _) = emit (validate_and_route now m)
  check_payload m (err e) = validation_failed (invalid e)

  unfoldable pub check_structure : P2PMessage → Event
  check_structure m = check_payload m (validate_message_structure reading.json_size (as_value m))

  -- Step 4.
  abbrev pub stamp : P2PMessage → Stamp
  stamp m = record { timestamp = or_zero m.timestamp; message_id = reading.id_key m.message_id }

  abbrev pub after_replay : P2PMessage → Validation → Event
  after_replay m valid = check_structure m
  after_replay m (rejected reason) = security_rejected (replayed reason)

  unfoldable pub validate_replay : P2PMessage → ReplayProtection → ReplayProtection × Validation
  validate_replay m rp =
      Replay.validate_message ceil_tenth now (stamp m) (reading.session_id m.payload)
        (reading.signer_index m.payload) (reading.sequence_number m.payload) rp

  unfoldable pub check_replay : P2PMessage → Handler → Handled
  check_replay m h =
      let (rp, answer) = validate_replay m h.replay in
      (record h { replay = rp }, after_replay m answer ∷ [])

  -- Step 3.
  abbrev pub signature_event : P2PMessage → Handler → Option Event
  signature_event m h = if h.require_signatures then verify_message_signature h.signing m else none

  abbrev pub refused : Option Event → P2PMessage → Handler → Handled
  refused none m h = check_replay m h
  refused (some e) m h = (h, e ∷ [])

  unfoldable pub check_signed : P2PMessage → Handler → Handled
  check_signed m h = refused (signature_event m h) m h

  -- Step 2.
  abbrev pub secure_message : P2PMessage → SigningSecurity.Message
  secure_message m = record { size = reading.message_size m; payload = reading.secured m.payload }

  abbrev pub after_security : P2PMessage → Handler → SigningSecurity.Validator × Bool → Handled
  after_security m h (v, true) = check_signed m (record h { security = some v })
  after_security m h (v, false) =
      (record h { security = some v }, security_rejected security_validation_failed ∷ [])

  abbrev pub check_secured :
      Option SigningSecurity.Validator → String → P2PMessage → Handler → Handled
  check_secured none peer m h = check_signed m h
  check_secured (some v) peer m h =
      after_security m h (SigningSecurity.validate_message now (secure_message m) peer v)

  unfoldable pub check_security : String → P2PMessage → Handler → Handled
  check_security peer m h = check_secured h.security peer m h

  -- Step 1.
  unfoldable pub handle_message : String → P2PMessage → Handler → Handled
  handle_message peer m h =
      if has_protocol protocol_name m.protocol then check_security peer m h else (h, [])
