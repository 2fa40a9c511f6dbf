-- ===== src/SessionPersistence/RoundTrip.antt =====
-- Sessions that are written and read again (lib/musig2/session-persistence.ts).
use xpi_p2p_ts.Dict
use xpi_p2p_ts.Dict.{Dict}
use xpi_p2p_ts.Dict.Laws.{get-set_self, get-set_ne}
use xpi_p2p_ts.Text.{Text, AreBytes, text_key}
use xpi_p2p_ts.Text.Hex.{to_hex, from_hex-to_hex}
use xpi_p2p_ts.Outcome.{ok}
use xpi_p2p_ts.Value.{text}
use xpi_p2p_ts.Sorting.{sort_by}
use xpi_p2p_ts.Serialization.{Bitcore, serialize_bn, deserialize_bn}
use xpi_p2p_ts.Serialization.RoundTrip.{
  IsFaithful, point_bytes, hex_input-to_hex, serialize_point_lem, deserialize_point-to_hex,
  serialize_public_key_lem, deserialize_public_key-to_hex, deserialize_public_keys-serialize,
}
use xpi_p2p_ts.SessionPersistence.{
  Participant, Session, SerializedNonce, SerializedSession, by_index, collect, named,
  serialize_nonce, deserialize_nonce, serialize_participants, deserialize_participant, serialize,
  deserialize,
}
use xpi_p2p_ts.SessionPersistence.Store.{Persistence, save, load, load_found}
use xpi_p2p_ts.SessionPersistence.Entries.{
  with_values, collect_lem, collect_written, collect_read, sorted_shows,
}
use xpi_p2p_ts.Base.{
  ℕ, ◌≡◌, ◌≢◌, refl, sym, ap, ◌∙◌, subst, ◌<◌, some, List, [], ◌∷◌, map, length, All, nat_key,
  arith,
}

-- What the code relies on of xpi-ts for numbers: one is made again from the 32 bytes that it was
-- written to.
pub record AreNumbersFaithful {Point BN PublicKey : Type 0} (lib : Bitcore Point BN PublicKey)
    : Type 0 where
  pub bn_bytes : BN → List ℕ
  pub bn_written : (n : BN) → lib.bn_to_buffer n ≡ some (bn_bytes n)
  pub bn_size : (n : BN) → length (bn_bytes n) ≡ 32
  pub bn_AreBytes : (n : BN) → AreBytes (bn_bytes n)
  pub bn_read : (n : BN) → lib.bn_from_buffer (bn_bytes n) ≡ n

-- Each key of a map stands once, each participant is listed under its own id, and the message is of
-- bytes.
pub record IsStorable {Point BN PublicKey : Type 0} (s : Session Point BN PublicKey) : Type 0 where
  pub nonces : Dict.Distinct s.received_public_nonces
  pub sigs : Dict.Distinct s.received_partial_sigs
  pub peers : Dict.Distinct s.participants
  pub named : All (λ (x : Text × Participant PublicKey). x.1.peer_id ≡ x.0) s.participants
  pub bytes : AreBytes s.message

-- The two maps from numbers come back in the order of their keys.
abbrev pub restored :
    {Point BN PublicKey : Type 0} → Session Point BN PublicKey → Session Point BN PublicKey
restored s = record s {
  received_public_nonces = sort_by by_index s.received_public_nonces;
  received_partial_sigs = sort_by by_index s.received_partial_sigs;
}

module _ {Point BN PublicKey : Type 0} (lib : Bitcore Point BN PublicKey)
    (faithful : IsFaithful lib) (numbers : AreNumbersFaithful lib) where
  abbrev nonce_texts : Point × Point → SerializedNonce
  nonce_texts (p, q) = record {
    r1 = to_hex (point_bytes lib faithful p);
    r2 = to_hex (point_bytes lib faithful q);
  }

  serialize_nonce_lem : (n : Point × Point) → serialize_nonce lib n ≡ ok (nonce_texts n)
  unfolding serialize_nonce
  serialize_nonce_lem (p, q) =
      rw (serialize_point_lem lib faithful p, serialize_point_lem lib faithful q)

  deserialize_nonce_lem : (n : Point × Point) → deserialize_nonce lib (nonce_texts n) ≡ ok n
  unfolding deserialize_nonce
  deserialize_nonce_lem (p, q) =
      rw (deserialize_point-to_hex lib faithful p, deserialize_point-to_hex lib faithful q)

  abbrev bn_text : BN → Text
  bn_text n = to_hex (numbers.bn_bytes n)

  serialize_bn_lem : (n : BN) → serialize_bn lib (some n) ≡ ok (bn_text n)
  unfolding serialize_bn
  serialize_bn_lem n = rw (numbers.bn_written n)

  deserialize_bn_lem : (n : BN) → deserialize_bn lib (text (bn_text n)) ≡ ok n
  unfolding deserialize_bn
  deserialize_bn_lem n =
      let a = numbers.bn_AreBytes n in
      let positive : 0 < length (numbers.bn_bytes n) = omega (arith, numbers.bn_size n) in
      rw
        (
          hex_input-to_hex "bn" (numbers.bn_bytes n) a positive,
          from_hex-to_hex (numbers.bn_bytes n) a,
        )
        (ap ok (numbers.bn_read n))

  abbrev written : Text × Participant PublicKey → Participant Text
  written (peer, p) = record {
    peer_id = peer;
    signer_index = p.signer_index;
    public_key = to_hex (faithful.key_bytes p.public_key);
    has_nonce = p.has_nonce;
    has_partial_sig = p.has_partial_sig;
    last_seen = p.last_seen;
  }

  serialize_participants_lem :
      (ps : Dict Text (Participant PublicKey)) → serialize_participants lib ps ≡ ok (map written ps)
  unfolding serialize_participants
  serialize_participants_lem [] = refl
  serialize_participants_lem ((peer, p) ∷ ps) =
      rw (serialize_public_key_lem lib faithful p.public_key, serialize_participants_lem ps)

  abbrev renamed : Text × Participant PublicKey → Participant PublicKey
  renamed (peer, p) = record p { peer_id = peer }

  deserialize_participant_lem :
      (x : Text × Participant PublicKey) → deserialize_participant lib (written x) ≡ ok (renamed x)
  unfolding deserialize_participant
  deserialize_participant_lem (peer, p) =
      rw (deserialize_public_key-to_hex lib faithful p.public_key)

  map-renamed :
      (ps : Dict Text (Participant PublicKey))
      → All (λ (x : Text × Participant PublicKey). x.1.peer_id ≡ x.0) ps
      → map {B = Text × Participant PublicKey}
          (λ (x : Text × Participant PublicKey). (x.0, renamed x))
          ps
        ≡ ps
  map-renamed [] a = refl
  map-renamed (x ∷ ps) a = λ i. (x.0, record x.1 { peer_id = sym a.0 i }) ∷ map-renamed ps a.1 i

  map-named :
      (ps : Dict Text (Participant PublicKey))
      → map (named lib) (map written ps)
        ≡ map {B = Text × Participant Text}
            (λ (x : Text × Participant PublicKey). (x.0, written x))
            ps
  map-named [] = refl
  map-named (x ∷ ps) = ap (◌∷◌ (x.0, written x)) (map-named ps)

  participants_read :
      (ps : Dict Text (Participant PublicKey))
      → Dict.Distinct ps
      → All (λ (x : Text × Participant PublicKey). x.1.peer_id ≡ x.0) ps
      → collect (λ peer. peer) (deserialize_participant lib) (map (named lib) (map written ps)) []
        ≡ ok ps
  participants_read ps d a =
      let same = map-renamed ps a in
      ap (λ es. collect (λ peer. peer) (deserialize_participant lib) es []) (map-named ps)
      ∙ collect_lem (λ peer. peer) (deserialize_participant lib)
          (λ (x : Text × Participant PublicKey). x.0) written renamed deserialize_participant_lem ps
          [] (subst Dict.Distinct (sym same) d)
      ∙ ap ok same

  -- A session that is written is read again, its two maps from numbers in the order of their keys.
  deserialize-serialize :
      (s : Session Point BN PublicKey)
      → IsStorable s
      → (d : SerializedSession) × (serialize lib s ≡ ok d) × (deserialize lib d ≡ ok (restored s))
  unfolding serialize deserialize
  deserialize-serialize s storable =
      let (signers, keys_written, keys_read) =
        deserialize_public_keys-serialize lib faithful s.signers in
      (
        record {
          session_id = s.session_id;
          phase = s.phase;
          signers = signers;
          my_index = s.my_index;
          message = to_hex s.message;
          metadata = s.metadata;
          received_nonces = with_values nonce_texts s.received_public_nonces;
          received_partial_sigs = with_values bn_text s.received_partial_sigs;
          coordinator_peer_id = s.coordinator_peer_id;
          is_coordinator = s.is_coordinator;
          created_at = s.created_at;
          last_activity = s.last_activity;
          coordinator_index = s.coordinator_index;
          election_method = s.election_method;
          election_proof = s.election_proof;
          backup_coordinators = s.backup_coordinators;
          participants = map written s.participants;
        },
        rw (
          collect_written (serialize_nonce lib) nonce_texts serialize_nonce_lem
              s.received_public_nonces storable.nonces,
          collect_written (λ n. serialize_bn lib (some n)) bn_text serialize_bn_lem
              s.received_partial_sigs storable.sigs,
          serialize_participants_lem s.participants,
          keys_written,
        ),
        rw (
          keys_read,
          collect_read nonce_texts (deserialize_nonce lib) deserialize_nonce_lem
              s.received_public_nonces storable.nonces,
          collect_read bn_text (λ t. deserialize_bn lib (text t)) deserialize_bn_lem
              s.received_partial_sigs storable.sigs,
          participants_read s.participants storable.peers storable.named,
          from_hex-to_hex s.message storable.bytes,
        ),
      )

  abbrev Loaded : Session Point BN PublicKey → Persistence → Persistence → Type 0
  Loaded s p p' =
      (load lib s.session_id p' ≡ ok (some (restored s)))
      × ((id : Text) → s.session_id ≢ id → load lib id p' ≡ load lib id p)

  -- A session can be saved and is then loaded as it was, but for the order of its two maps from
  -- numbers, which show the same under each number, if xpi-ts makes points, numbers and keys again from
  -- what it wrote, no map has a key twice, each participant is listed under its own id, and the message
  -- is of bytes. The other sessions are loaded as before.
  pub load-save :
      (s : Session Point BN PublicKey) (p : Persistence)
      → IsStorable s
      → ((p' : Persistence) × (save lib s p ≡ ok p') × Loaded s p p')
        × ((i : ℕ)
            → (Dict.get i s.received_public_nonces ≡ Dict.get i (restored s).received_public_nonces)
              × (Dict.get i s.received_partial_sigs
                  ≡ Dict.get i (restored s).received_partial_sigs))
  unfolding save load
  load-save s p storable =
      let (d, serialized, read) = deserialize-serialize s storable in
      let stored = Dict.set s.session_id d p.storage in
      (
        (
          record p { storage = stored },
          rw serialized refl,
          (
            ap (load_found lib) (get-set_self s.session_id d p.storage) ∙ rw read refl,
            λ id other. ap (load_found lib) (get-set_ne id s.session_id d p.storage other),
          ),
        ),
        λ i. (
          sorted_shows s.received_public_nonces storable.nonces i,
          sorted_shows s.received_partial_sigs storable.sigs i,
        ),
      )
