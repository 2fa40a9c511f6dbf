-- ===== src/ProtocolHandler/Tests.antt =====
-- Runs of lib/musig2/protocol.ts: an abort is signed, comes, and comes again.
use xpi_p2p_ts.Dict
use xpi_p2p_ts.Text.{literal, is_same, Text_discrete}
use xpi_p2p_ts.Text.Hex.{to_hex}
use xpi_p2p_ts.Text.Utf8.{utf8}
use xpi_p2p_ts.Text.Decimal.{decimal}
use xpi_p2p_ts.Value.{Value, whole, field, end, number, text, object, property}
use xpi_p2p_ts.MessageSigning
use xpi_p2p_ts.MessageSigning.{
  P2PMessage, sign_message, verify_message, has_signature, check_signature, get_signature_data,
}
use xpi_p2p_ts.MessageSigning.Toy.{toy}
use xpi_p2p_ts.SigningSecurity
use xpi_p2p_ts.Replay
use xpi_p2p_ts.ProtocolHandler.{
  Reading, Handler, received, session_abort, handle_message, validate_replay, check_security,
  check_signed, check_replay, check_structure, validate_and_route, verify_message_signature,
  type_name,
}
use xpi_p2p_ts.Validation.{validate_string, validate_timestamp}
use xpi_p2p_ts.Validation.Payloads.{validate_message_structure, validate_session_abort_payload}
use xpi_p2p_ts.ProtocolHandler.Delivered.{IsDelivered, handle_message-IsDelivered}
use xpi_p2p_ts.ProtocolHandler.Once.{Arrival, handle_all, handle_message-once}
use xpi_p2p_ts.Base.{
  ℕ, ◌+◌, ◌/◌, ◌≡◌, ◌≢◌, ◌≤◌, refl, if◌then◌else◌, true, false, none, some, List, [], ◌∷◌, arith,
}

abbrev tenth : ℕ → ℕ
tenth n = (n + 9) / 10

abbrev toy_reading : Reading
toy_reading = record {
  json_size = λ v. 100;
  message_size = λ m. some 300;
  secured = λ v. some (record { session_id = "s"; timestamp = 900 });
  id_key = λ t. if is_same t [] then "" else "m";
  session_id = λ v. some "s";
  signer_index = λ v. none;
  sequence_number = λ v. none;
}

abbrev abort_payload : Value
abort_payload = object (
    field (literal "sessionId") (text (literal "s")) (
      field (literal "reason") (text (literal "r"))
        (field (literal "timestamp") (number (whole 900)) end)))

abbrev abort : P2PMessage
abort = record {
  type = literal "musig2:session-abort";
  sender = literal "p";
  recipient = none;
  payload = abort_payload;
  timestamp = some 900;
  message_id = literal "m";
  signature = none;
  protocol = some (literal "musig2");
  signer_public_key = none;
}

abbrev signed_abort : P2PMessage
signed_abort = sign_message toy MessageSigning.default_config abort tt

abbrev handler : Handler
handler = record {
  security = some (record {
    config = SigningSecurity.default_config;
    validation_violations = [];
    blocked_peers = [];
  });
  signing = MessageSigning.default_config;
  require_signatures = true;
  replay = record {
    config = Replay.default_config;
    seen_messages = [];
    session_sequences = [];
    has_timer = false;
  };
}

is_received :
    (handle_message toy toy_reading tenth none 1000 "p" signed_abort handler).1
    ≡ received session_abort abort_payload ∷ []
unfolding handle_message sign_message is_same check_security SigningSecurity.validate_message
    check_signed check_replay validate_replay Replay.validate_message check_structure
    validate_message_structure validate_and_route verify_message has_signature Dict.get
    verify_message_signature to_hex check_signature get_signature_data utf8 decimal Replay.check_id
    Replay.check_sequence property Text_discrete validate_string type_name
    validate_session_abort_payload validate_timestamp
is_received = refl

abbrev next : Handler
next = (handle_message toy toy_reading tenth none 1000 "p" signed_abort handler).0

next_size : Dict.size next.replay.seen_messages + 1 ≤ next.replay.max_seen_messages
unfolding handle_message sign_message is_same check_security SigningSecurity.validate_message
    check_signed check_replay validate_replay Replay.validate_message check_structure
    validate_message_structure validate_and_route verify_message has_signature Dict.get
    verify_message_signature to_hex check_signature get_signature_data utf8 decimal Replay.check_id
    Replay.check_sequence property Text_discrete validate_string type_name
    validate_session_abort_payload validate_timestamp Replay.record_message_id Replay.make_room
    Dict.set
next_size = omega arith

handle_message-IsDelivered_example :
    IsDelivered toy toy_reading tenth none 1000 "p" signed_abort handler session_abort abort_payload
    × (next.replay
        ≡ (validate_replay toy toy_reading tenth none 1000 signed_abort handler.replay).0)
handle_message-IsDelivered_example =
    handle_message-IsDelivered toy toy_reading tenth none 1000 "p" signed_abort handler
      session_abort abort_payload is_received

-- A message from another peer comes in between, with a protocol of its own.
abbrev between : List Arrival
between = record { time = 1500; peer = "q"; message = record abort { protocol = none } } ∷ []

handle_message-once_example :
    (handle_message toy toy_reading tenth none 2000 "q" signed_abort
      (handle_all toy toy_reading tenth none between next)).1
    ≢ received session_abort abort_payload ∷ []
unfolding sign_message is_same
handle_message-once_example =
    handle_message-once toy toy_reading tenth none 1000 "p" "q" signed_abort handler between 2000
      session_abort session_abort abort_payload abort_payload tt refl refl is_received
      (omega arith, tt) next_size (omega arith)
