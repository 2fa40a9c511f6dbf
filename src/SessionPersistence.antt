-- ===== src/SessionPersistence.antt =====
-- How SessionPersistence of lib/musig2/session-persistence.ts writes and reads a session, with the parts
-- of the session that it uses. The arithmetic of xpi-ts is Bitcore.
pub mod Entries
pub mod Store
pub mod RoundTrip
pub mod Expiry
mod Tests
use xpi_p2p_ts.Dict
use xpi_p2p_ts.Dict.{Dict}
use xpi_p2p_ts.Text.{Text, text_key}
use xpi_p2p_ts.Text.Hex.{to_hex, from_hex}
use xpi_p2p_ts.Text.Decimal.{decimal, parse_int}
use xpi_p2p_ts.Outcome.{Result, ok, err, ◌>>=◌}
use xpi_p2p_ts.Value.{Value, Items, nil, cons, array, text}
use xpi_p2p_ts.Sorting.{sort_by}
use xpi_p2p_ts.Serialization.{
  Bitcore, Serialized, array_of, serialize_point, deserialize_point, serialize_bn, deserialize_bn,
  serialize_public_key, deserialize_public_key, serialize_public_keys, deserialize_public_keys,
}
use xpi_p2p_ts.Base.{
  ℕ, suc, ◌+◌, leb, ltb, not, Bool, true, false, Option, none, some, List, [], ◌∷◌, map, keep, Key,
  nat_key, if◌then◌else◌,
}

pub record Participant (PublicKey : Type 0) : Type 0 where
  pub peer_id : Text
  pub signer_index : ℕ
  pub public_key : PublicKey
  pub has_nonce : Bool
  pub has_partial_sig : Bool
  pub last_seen : ℕ

-- A session of xpi-ts, and what MuSig2P2PSession adds to it.
pub record Session (Point BN PublicKey : Type 0) : Type 0 where
  pub session_id : Text
  pub phase : Text
  pub signers : List PublicKey
  pub my_index : ℕ
  pub message : List ℕ
  pub metadata : Option Value
  pub received_public_nonces : Dict ℕ (Point × Point)
  pub received_partial_sigs : Dict ℕ BN
  pub coordinator_peer_id : Text
  pub is_coordinator : Bool
  pub created_at : ℕ
  pub last_activity : ℕ
  pub coordinator_index : Option ℕ
  pub election_method : Option Text
  pub election_proof : Option Text
  pub backup_coordinators : Option (List ℕ)
  pub participants : Dict Text (Participant PublicKey)

pub record SerializedNonce : Type 0 where
  pub r1 : Text
  pub r2 : Text

-- The two objects with numbers as keys are maps here, which `entries` lists in order.
pub record SerializedSession : Type 0 where
  pub session_id : Text
  pub phase : Text
  pub signers : List Text
  pub my_index : ℕ
  pub message : Text
  pub metadata : Option Value
  pub received_nonces : Dict ℕ SerializedNonce
  pub received_partial_sigs : Dict ℕ Text
  pub coordinator_peer_id : Text
  pub is_coordinator : Bool
  pub created_at : ℕ
  pub last_activity : ℕ
  pub coordinator_index : Option ℕ
  pub election_method : Option Text
  pub election_proof : Option Text
  pub backup_coordinators : Option (List ℕ)
  pub participants : List (Participant Text)

abbrev pub by_index : {V : Type 0} → ℕ × V → ℕ × V → Bool
by_index x y = leb x.0 y.0

-- `Object.entries(o)`, where `o` has numbers as keys: in their order, and as texts.
abbrev pub entries : {V : Type 0} → Dict ℕ V → List (Text × V)
entries {V} m = map (λ (x : ℕ × V). (decimal x.0, x.1)) (sort_by by_index m)

-- A loop over entries that puts what it makes of each value under what it makes of the key.
unfoldable pub collect :
    {K L V W : Type 0} ⦃key : Key L⦄
    → (K → L)
    → (V → Serialized W)
    → List (K × V)
    → Dict L W
    → Serialized (Dict L W)
collect name f [] m = ok m
collect name f ((k, v) ∷ es) m = do w ← f v; collect name f es (Dict.set (name k) w m)

module _ {Point BN PublicKey : Type 0} (lib : Bitcore Point BN PublicKey) where
  unfoldable pub serialize_nonce : Point × Point → Serialized SerializedNonce
  serialize_nonce (p, q) = do
    r1 ← serialize_point lib p
    r2 ← serialize_point lib q
    ok (record { r1 = r1; r2 = r2 })

  unfoldable pub serialize_participants :
      List (Text × Participant PublicKey) → Serialized (List (Participant Text))
  serialize_participants [] = ok []
  serialize_participants ((peer, p) ∷ ps) = do
    key ← serialize_public_key lib (some p.public_key)
    rest ← serialize_participants ps
    ok (
        record {
          peer_id = peer;
          signer_index = p.signer_index;
          public_key = key;
          has_nonce = p.has_nonce;
          has_partial_sig = p.has_partial_sig;
          last_seen = p.last_seen;
        }
        ∷ rest)

  unfoldable pub serialize : Session Point BN PublicKey → Serialized SerializedSession
  unfolding collect serialize_nonce serialize_participants
  serialize s = do
    nonces ← collect (λ i. i) serialize_nonce s.received_public_nonces []
    sigs ← collect (λ i. i) (λ n. serialize_bn lib (some n)) s.received_partial_sigs []
    participants ← serialize_participants s.participants
    signers ← serialize_public_keys lib (some (map some s.signers))
    ok (record {
      session_id = s.session_id;
      phase = s.phase;
      signers = signers;
      my_index = s.my_index;
      message = to_hex s.message;
      metadata = s.metadata;
      received_nonces = nonces;
      received_partial_sigs = sigs;
      coordinator_peer_id = s.coordinator_peer_id;
      is_coordinator = s.is_coordinator;
      created_at = s.created_at;
      last_activity = s.last_activity;
      coordinator_index = s.coordinator_index;
      election_method = s.election_method;
      election_proof = s.election_proof;
      backup_coordinators = s.backup_coordinators;
      participants = participants;
    })

  unfoldable pub deserialize_nonce : SerializedNonce → Serialized (Point × Point)
  deserialize_nonce n = do
    p ← deserialize_point lib (text n.r1)
    q ← deserialize_point lib (text n.r2)
    ok (p, q)

  unfoldable pub deserialize_participant : Participant Text → Serialized (Participant PublicKey)
  deserialize_participant p = do
    key ← deserialize_public_key lib (text p.public_key)
    ok (record {
      peer_id = p.peer_id;
      signer_index = p.signer_index;
      public_key = key;
      has_nonce = p.has_nonce;
      has_partial_sig = p.has_partial_sig;
      last_seen = p.last_seen;
    })

  abbrev pub named : Participant Text → Text × Participant Text
  named p = (p.peer_id, p)

  unfoldable pub deserialize : SerializedSession → Serialized (Session Point BN PublicKey)
  unfolding collect deserialize_nonce deserialize_participant
  deserialize d = do
    signers ← deserialize_public_keys lib (array (array_of d.signers))
    nonces ← collect parse_int deserialize_nonce (entries d.received_nonces) []
    sigs ← collect parse_int (λ t. deserialize_bn lib (text t)) (entries d.received_partial_sigs) []
    participants ← collect (λ peer. peer) deserialize_participant (map named d.participants) []
    ok (record {
      session_id = d.session_id;
      phase = d.phase;
      signers = signers;
      my_index = d.my_index;
      message = from_hex d.message;
      metadata = d.metadata;
      received_public_nonces = nonces;
      received_partial_sigs = sigs;
      coordinator_peer_id = d.coordinator_peer_id;
      is_coordinator = d.is_coordinator;
      created_at = d.created_at;
      last_activity = d.last_activity;
      coordinator_index = d.coordinator_index;
      election_method = d.election_method;
      election_proof = d.election_proof;
      backup_coordinators = d.backup_coordinators;
      participants = participants;
    })
