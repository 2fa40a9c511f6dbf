-- ===== src/MessageSigning.antt =====
-- MuSig2MessageSigner of lib/musig2/message-signing.ts, for the P2PMessage of lib/types.ts. The
-- cryptography of xpi-ts is the record Schnorr; of JSON.stringify only its text is a parameter.
pub mod Verified
pub mod Toy
mod Tests
use xpi_p2p_ts.Text.{Text}
use xpi_p2p_ts.Text.Utf8.{utf8}
use xpi_p2p_ts.Text.Hex.{to_hex}
use xpi_p2p_ts.Text.Decimal.{decimal}
use xpi_p2p_ts.Value.{Value, undefined, null, boolean, number, text, array, object}
use xpi_p2p_ts.Text.{is_same}
use xpi_p2p_ts.Base.{
  ℕ, ◌+◌, ◌-◌, ◌*◌, leb, ltb, ◌==◌, ◌&&◌, ◌||◌, not, if◌then◌else◌, is_nonzero, Bool, true, false,
  Option, none, some, List, [], ◌∷◌, ◌++◌, length,
}

pub record P2PMessage : Type 0 where
  pub type : Text
  pub sender : Text
  pub recipient : Option Text
  pub payload : Value
  pub timestamp : Option ℕ
  pub message_id : Text
  pub signature : Option (List ℕ)
  pub protocol : Option Text
  -- A field of SignedP2PMessage.
  pub signer_public_key : Option Text

pub record Config : Type 0 where
  pub require_signatures : Bool
  pub include_timestamp : Bool
  pub max_message_age : ℕ

abbrev pub default_config : Config
default_config = record {
  require_signatures = true;
  include_timestamp = true;
  max_message_age = 5 * 60 * 1000;
}

abbrev pub or_refused : Option Bool → Bool
or_refused none = false
or_refused (some b) = b

-- An empty name counts as none.
abbrev pub or_missing : Option Text → Option Text
or_missing (some []) = none
or_missing o = o

-- What xpi-ts does, where `none` is a thrown error.
pub record Schnorr (PrivateKey PublicKey : Type 0) : Type 0 where
  pub sha256 : List ℕ → List ℕ
  pub sign : List ℕ → PrivateKey → List ℕ
  pub verify : List ℕ → List ℕ → PublicKey → Option Bool
  pub to_public_key : PrivateKey → PublicKey
  pub key_to_buffer : PublicKey → List ℕ
  pub key_from_text : Text → Option PublicKey
  pub json : Value → Text

module _ {PrivateKey PublicKey : Type 0} (lib : Schnorr PrivateKey PublicKey) where
  unfoldable pub payload_bytes : Value → List ℕ
  payload_bytes undefined = []
  payload_bytes (text t) = utf8 t
  payload_bytes v = utf8 (lib.json v)

  abbrev pub timestamp_bytes : Bool → Option ℕ → List ℕ
  timestamp_bytes true (some t) = utf8 (decimal t)
  timestamp_bytes _ _ = []

  unfoldable pub get_signature_data : Config → P2PMessage → List ℕ
  unfolding payload_bytes
  get_signature_data c m =
      utf8 m.type
      ++ (utf8 m.sender
          ++ (utf8 m.message_id
              ++ (payload_bytes m.payload ++ timestamp_bytes c.include_timestamp m.timestamp)))

  unfoldable pub sign_message : Config → P2PMessage → PrivateKey → P2PMessage
  sign_message c m key =
      let hash = lib.sha256 (get_signature_data c m) in
      record m {
        signature = some (lib.sign hash key);
        signer_public_key = some (to_hex (lib.key_to_buffer (lib.to_public_key key)));
      }

  -- An error while the signature is checked is caught, and counts as a refusal.
  unfoldable pub check_signature : Config → P2PMessage → List ℕ → PublicKey → Bool
  check_signature c m signature key =
      or_refused (lib.verify (lib.sha256 (get_signature_data c m)) signature key)

  -- With an expected key: the key that the message names, if it names one, has to be the same. The
  -- error of a name that is no key is not caught. `check` is the end of `verifyMessage`, which asks
  -- for the signature.
  unfoldable pub verify_expected : (PublicKey → Bool) → Option Text → PublicKey → Option Bool
  verify_expected check none key = some (check key)
  verify_expected check (some name) key = elim (lib.key_from_text name) [
    | none ↦ none
    | some named ↦
        some
          (is_same (to_hex (lib.key_to_buffer key)) (to_hex (lib.key_to_buffer named)) && check key)
  ]

  unfoldable pub verify_named : (PublicKey → Bool) → Option Text → Bool
  verify_named check none = false
  verify_named check (some name) = elim (lib.key_from_text name) [
    | none ↦ false
    | some named ↦ check named
  ]

  unfoldable pub verify_by :
      (List ℕ → PublicKey → Bool) → Option (List ℕ) → Option Text → Option PublicKey → Option Bool
  unfolding verify_expected verify_named
  verify_by check none name expected = some false
  verify_by check (some signature) name none = some (verify_named (check signature) name)
  verify_by check (some signature) name (some key) = verify_expected (check signature) name key

  -- `none` is an error that is thrown.
  unfoldable pub verify_message : Config → P2PMessage → Option PublicKey → Option Bool
  unfolding verify_by
  verify_message c m expected =
      verify_by (check_signature c m) m.signature (or_missing m.signer_public_key) expected

-- 64 bytes, and 66 or 130 digits.
unfoldable pub has_signature : P2PMessage → Bool
has_signature m = elim (m.signature) [
  | none ↦ false
  | some signature ↦ elim (m.signer_public_key) [
    | none ↦ false
    | some name ↦ (length signature == 64) && ((length name == 66) || (length name == 130))
  ]
]

unfoldable pub strip_signature : P2PMessage → P2PMessage
strip_signature m = record m { signature = none; signer_public_key = none }

-- `Math.abs(now - timestamp) <= maxMessageAge`, unless there is no timestamp or it is 0.
unfoldable pub validate_message_age : Config → ℕ → P2PMessage → Bool
validate_message_age c now m = elim (m.timestamp) [
  | none ↦ true
  | some t ↦
      not (is_nonzero t) || (leb now (t + c.max_message_age) && leb t (now + c.max_message_age))
]
