-- ===== src/MessageSigning/Tests.antt =====
-- Runs of lib/musig2/message-signing.ts, with a toy library.
use xpi_p2p_ts.Text.{literal, is_same}
use xpi_p2p_ts.Text.Hex.{to_hex}
use xpi_p2p_ts.Text.Utf8.{utf8}
use xpi_p2p_ts.Text.Decimal.{decimal}
use xpi_p2p_ts.Value.{text}
use xpi_p2p_ts.MessageSigning.{
  P2PMessage, default_config, sign_message, verify_message, check_signature, get_signature_data,
  has_signature, validate_message_age,
}
use xpi_p2p_ts.MessageSigning.Verified.{verify_message-sign, verify_message-moved}
use xpi_p2p_ts.MessageSigning.Toy.{toy, toy-IsSound}
use xpi_p2p_ts.Base.{◌≡◌, refl, true, false, none, some, ◌++◌, arith}

abbrev hello : P2PMessage
hello = record {
  type = literal "ab";
  sender = literal "c";
  recipient = none;
  payload = text (literal "hi");
  timestamp = some 7;
  message_id = literal "m";
  signature = none;
  protocol = some (literal "musig2");
  signer_public_key = none;
}

verify_message-sign_example :
    (has_signature (sign_message toy default_config hello tt) ≡ true)
    × (verify_message toy default_config (sign_message toy default_config hello tt) none
        ≡ some true)
    × (verify_message toy default_config (sign_message toy default_config hello tt) (some tt)
        ≡ some true)
verify_message-sign_example = verify_message-sign toy toy-IsSound default_config hello tt

-- The type "ab" of the sender "c", or the type "a" of the sender "bc".
verify_message-moved_example :
    verify_message toy default_config
      (record (sign_message toy default_config hello tt) {
        type = literal "a" ++ literal "b";
        sender = literal "c";
      })
      none
    ≡ verify_message toy default_config
        (record (sign_message toy default_config hello tt) {
          type = literal "a";
          sender = literal "b" ++ literal "c";
          recipient = some (literal "d");
          protocol = none;
        })
        none
verify_message-moved_example =
    verify_message-moved toy default_config (sign_message toy default_config hello tt) (literal "a")
      (literal "b") (literal "c") (some (literal "d")) none none (omega arith, tt) (omega arith, tt)

refuses_changed :
    verify_message toy default_config
      (record (sign_message toy default_config hello tt) { message_id = literal "n" })
      none
    ≡ some false
unfolding verify_message sign_message check_signature is_same get_signature_data utf8 decimal to_hex
refuses_changed = refl

is_too_old : validate_message_age default_config 300008 hello ≡ false
unfolding validate_message_age
is_too_old = refl
