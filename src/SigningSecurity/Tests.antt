-- ===== src/SigningSecurity/Tests.antt =====
-- Runs of MuSig2SecurityValidator (lib/musig2/security.ts).
use xpi_p2p_ts.Dict
use xpi_p2p_ts.Dict.{Dict}
use xpi_p2p_ts.SigningSecurity.{
  Config, SessionAnnouncement, Message, Validator, default_config, is_hex, check_announcement,
  validate_resource_announcement, validate_message, can_announce_resource,
}
use xpi_p2p_ts.SigningSecurity.Blocking.{IsStrict, validate_all, invalid_in, validate_all-blocked}
use xpi_p2p_ts.SigningSecurity.Accepted.{IsAcceptable, validate_resource_announcement_iff}
use xpi_p2p_ts.Base.{
  ℕ, ◌≡◌, refl, ◌↔◌, String, string_key, String_discrete, Bool, true, false, none, some, List, [],
  ◌∷◌, arith,
}

abbrev eve : String
eve = "eve"

abbrev bob : String
bob = "bob"

abbrev config : Config
config = record default_config { max_invalid_messages_per_peer = 3 }

abbrev two_violations : Validator
two_violations = record {
  config = config;
  validation_violations = (eve, 2) ∷ [];
  blocked_peers = [];
}

abbrev empty_message : Message
empty_message = record { size = some 2; payload = none }

abbrev calls : List (ℕ × Message × String)
calls = (10, empty_message, bob) ∷ (11, empty_message, eve) ∷ []

two_violations-IsStrict : IsStrict eve two_violations
unfolding Dict.get String_discrete
two_violations-IsStrict = (λ h. absurd (ground arith), λ h. absurd (omega arith))

validate_all-blocked_example :
    ((validate_message 12 empty_message eve (validate_all calls two_violations)).1 ≡ false)
    × (can_announce_resource "musig2-session" eve (validate_all calls two_violations) ≡ false)
unfolding invalid_in Dict.get String_discrete
validate_all-blocked_example =
    validate_all-blocked eve calls two_violations 12 empty_message "musig2-session" refl
      two_violations-IsStrict (omega arith)

abbrev session : SessionAnnouncement
session = record {
  session_id = "s";
  coordinator_peer_id = "p";
  required_signers = some 2;
  signers = none;
  created_at = some 1000;
  expires_at = some 2000;
  message_hash = "00112233445566778899aabbccddeeff00112233445566778899aabbccddeeFF";
}

abbrev any_key : String → Bool
any_key k = true

is_valid :
    validate_resource_announcement any_key 1500 "musig2-session-1" "s" (some session) two_violations
    ≡ true
unfolding validate_resource_announcement check_announcement is_hex
is_valid = refl

validate_resource_announcement_iff_example :
    (validate_resource_announcement any_key 1500 "musig2-session-1" "s"
        (some session)
        two_violations
      ≡ true)
    ↔ IsAcceptable any_key 1500 config "s" session
validate_resource_announcement_iff_example =
    validate_resource_announcement_iff any_key 1500 "musig2-session-1" "s" session two_violations
      refl

-- The number of signers, the time and the end may be missing.
abbrev bare : SessionAnnouncement
bare = record session { required_signers = none; created_at = none; expires_at = none }

accepts_bare :
    validate_resource_announcement any_key 1500 "musig2-session-1" "s" (some bare) two_violations
    ≡ true
unfolding validate_resource_announcement check_announcement is_hex
accepts_bare = refl
