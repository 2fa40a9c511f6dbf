-- ===== src/SigningSecurity.antt =====
-- MuSig2SecurityValidator of lib/musig2/security.ts. A configuration has its defaults filled in;
-- whether a text is a public key is third-party code: an argument. Data that is no object is `none`.
pub mod Blocking
pub mod Accepted
mod Tests
use Prim.Native.Char.{Char, code}
use text.Mathlib.Text.{◌==◌ as same_text, starts_with}
use xpi_p2p_ts.Dict
use xpi_p2p_ts.Dict.{Dict}
use xpi_p2p_ts.Base.{
  ℕ, zero, suc, ◌+◌, ◌*◌, ltb, leb, ◌==◌, if◌then◌else◌, not, ◌&&◌, ◌||◌, is_nonempty, is_nonzero,
  String, string_key, Bool, true, false, Option, none, some, List, [], ◌∷◌, every, length,
}

pub record Config : Type 0 where
  pub min_signers : ℕ
  pub max_signers : ℕ
  pub max_session_duration : ℕ
  pub require_valid_public_keys : Bool
  pub max_message_size : ℕ
  pub max_timestamp_skew : ℕ
  pub max_invalid_messages_per_peer : ℕ
  pub track_validation_violations : Bool

abbrev pub default_config : Config
default_config = record {
  min_signers = 2;
  max_signers = 15;
  max_session_duration = 10 * 60 * 1000;
  require_valid_public_keys = true;
  max_message_size = 100000;
  max_timestamp_skew = 5 * 60 * 1000;
  max_invalid_messages_per_peer = 10;
  track_validation_violations = true;
}

-- Unchecked data that is read as an announcement: a number that it lacks is `none`, and so are
-- signers that it lacks; a text that it lacks is empty, which each test refuses alike. What it has is
-- of the declared type.
pub record SessionAnnouncement : Type 0 where
  pub session_id : String
  pub coordinator_peer_id : String
  pub required_signers : Option ℕ
  pub signers : Option (List String)
  pub created_at : Option ℕ
  pub expires_at : Option ℕ
  pub message_hash : String

pub record Payload : Type 0 where
  pub session_id : String
  pub timestamp : ℕ

-- The length of the message's JSON, if it has one, and its payload, if that is an object.
pub record Message : Type 0 where
  pub size : Option ℕ
  pub payload : Option Payload

pub record Validator : Type 0 where
  pub config : Config
  pub validation_violations : Dict String ℕ
  pub blocked_peers : Dict String (Unit {0})

abbrev pub is_hex_digit : Char → Bool
is_hex_digit c =
    let n = code c in (leb 48 n && leb n 57) || (leb 97 n && leb n 102) || (leb 65 n && leb n 70)

-- Whether a text is `n` hexadecimal digits.
pub is_hex : ℕ → String → Bool
is_hex n String.[] = n == 0
is_hex zero (String.◌∷◌ c s) = false
is_hex (suc n) (String.◌∷◌ c s) = let rest = is_hex n s in is_hex_digit c && rest

-- A comparison with `undefined` is false, so that the refusal behind it is skipped.
abbrev pub passes : (ℕ → Bool) → Option ℕ → Bool
passes test none = true
passes test (some n) = test n

-- `signers.length !== requiredSigners` holds where nothing is required.
abbrev pub is_required : Option ℕ → ℕ → Bool
is_required none n = false
is_required (some required) n = n == required

abbrev pub are_valid_signers : (String → Bool) → Config → SessionAnnouncement → Bool
are_valid_signers is_public_key c a = elim (a.signers) [
  | none ↦ true
  | some signers ↦
      is_required (a.required_signers) (length signers)
      && (not (c.require_valid_public_keys) || every is_public_key signers)
]

-- The checks of an announcement, each of which returns false where it fails.
pub check_announcement : (String → Bool) → ℕ → Config → String → SessionAnnouncement → Bool
check_announcement is_public_key now c id a =
    is_nonempty (a.session_id)
    && is_nonempty (a.coordinator_peer_id)
    && same_text (a.session_id) id
    && passes (λ n. leb (c.min_signers) n) (a.required_signers)
    && passes (λ n. leb n (c.max_signers)) (a.required_signers)
    && are_valid_signers is_public_key c a
    && passes (λ t. leb t (now + 60000)) (a.created_at)
    && passes (λ t. leb now t) (a.expires_at)
    && passes (λ t. passes (λ u. leb u (t + c.max_session_duration)) (a.expires_at)) (a.created_at)
    && is_hex 64 (a.message_hash)

pub validate_resource_announcement :
    (String → Bool) → ℕ → String → String → Option SessionAnnouncement → Validator → Bool
validate_resource_announcement is_public_key now type id sent v =
    if starts_with type "musig2-session"
    then elim sent [ none ↦ false | some a ↦ check_announcement is_public_key now v.config id a ]
    else true

abbrev pub count_of : String → Validator → ℕ
count_of peer v = elim (Dict.get peer v.validation_violations) [ none ↦ 0 | some n ↦ n ]

abbrev pub is_message_too_large : Message → ℕ → Bool
is_message_too_large m most = elim (m.size) [ none ↦ true | some size ↦ ltb most size ]

pub track_validation_violation : String → Validator → Validator
track_validation_violation peer v =
    let count = count_of peer v + 1 in
    let counted = Dict.set peer count v.validation_violations in
    if v.config.track_validation_violations
    then record v {
      validation_violations = counted;
      blocked_peers =
          if leb v.config.max_invalid_messages_per_peer count
          then Dict.set peer tt v.blocked_peers
          else v.blocked_peers;
    }
    else v

-- `Math.abs(now - time) > skew`
abbrev pub is_skewed : ℕ → ℕ → ℕ → Bool
is_skewed now time skew = ltb (time + skew) now || ltb (now + skew) time

abbrev pub is_valid_payload : ℕ → Config → Option Payload → Bool
is_valid_payload now c none = false
is_valid_payload now c (some p) =
    is_nonempty (p.session_id)
    && is_nonzero (p.timestamp)
    && not (is_skewed now (p.timestamp) (c.max_timestamp_skew))

unfoldable pub validate_message : ℕ → Message → String → Validator → Validator × Bool
validate_message now m peer v =
    if Dict.has peer v.blocked_peers
    then (v, false)
    else if is_message_too_large m v.config.max_message_size
    then (track_validation_violation peer v, false)
    else if is_valid_payload now v.config (m.payload)
    then (v, true)
    else (track_validation_violation peer v, false)

-- Both answers behind the test of the type are yes.
pub can_announce_resource : String → String → Validator → Bool
can_announce_resource type peer v = not (Dict.has peer v.blocked_peers)

pub is_peer_blocked : String → Validator → Bool
is_peer_blocked peer v = Dict.has peer v.blocked_peers

pub get_violation_count : String → Validator → ℕ
get_violation_count peer v = count_of peer v

pub unblock_peer : String → Validator → Validator × Bool
unblock_peer peer v =
    if Dict.has peer v.blocked_peers
    then (
      record v {
        validation_violations = Dict.delete peer v.validation_violations;
        blocked_peers = Dict.delete peer v.blocked_peers;
      },
      true,
    )
    else (v, false)

pub clear_violations : Validator → Validator
clear_violations v = record v { validation_violations = []; blocked_peers = [] }
