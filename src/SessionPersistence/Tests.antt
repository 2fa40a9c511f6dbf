-- ===== src/SessionPersistence/Tests.antt =====
-- Runs of lib/musig2/session-persistence.ts with a toy library and one session.
use xpi_p2p_ts.Dict
use xpi_p2p_ts.Text.{Text, literal, text_key, Text_discrete}
use xpi_p2p_ts.Outcome.{ok}
use xpi_p2p_ts.Sorting.{sort_by}
use xpi_p2p_ts.Serialization.Toy.{toy, toy-IsFaithful, zeros}
use xpi_p2p_ts.SessionPersistence.{Participant, Session, SerializedSession}
use xpi_p2p_ts.SessionPersistence.Store.{
  Persistence, save, load, load_all, load_active, cleanup_expired,
}
use xpi_p2p_ts.SessionPersistence.RoundTrip.{AreNumbersFaithful, IsStorable, restored, load-save}
use xpi_p2p_ts.SessionPersistence.Expiry.{IsKept, load_all-cleanup_expired}
use xpi_p2p_ts.Base.{
  ℕ, ◌+◌, ◌≡◌, ◌≢◌, refl, Bool, true, false, none, some, [], ◌∷◌, nat_key, ℕ_discrete, arith,
}

abbrev peer : Participant (Unit {0})
peer = record {
  peer_id = literal "p";
  signer_index = 1;
  public_key = tt;
  has_nonce = true;
  has_partial_sig = false;
  last_seen = 950;
}

-- The nonces came out of order.
abbrev session : Session Bool (Unit {0}) (Unit {0})
session = record {
  session_id = literal "s";
  phase = literal "nonce-exchange";
  signers = tt ∷ tt ∷ [];
  my_index = 0;
  message = 7 ∷ 255 ∷ [];
  metadata = none;
  received_public_nonces = (1, (true, false)) ∷ (0, (false, false)) ∷ [];
  received_partial_sigs = (1, tt) ∷ [];
  coordinator_peer_id = literal "p";
  is_coordinator = false;
  created_at = 900;
  last_activity = 1000;
  coordinator_index = some 1;
  election_method = none;
  election_proof = none;
  backup_coordinators = none;
  participants = (literal "p", peer) ∷ [];
}

toy-AreNumbersFaithful : AreNumbersFaithful toy
toy-AreNumbersFaithful = record {
  bn_bytes = λ _. zeros;
  bn_written = λ _. refl;
  bn_size = λ _. refl;
  bn_AreBytes = λ _. omega arith;
  bn_read = λ _. refl;
}

session-IsStorable : IsStorable session
unfolding Dict.get ℕ_discrete
session-IsStorable = record {
  nonces = (refl, (refl, tt));
  sigs = (refl, tt);
  peers = (refl, tt);
  named = (refl, tt);
  bytes = omega arith;
}

abbrev empty : Persistence
empty = record { storage = []; session_expiry = 500 }

restores_in_order :
    (restored session).received_public_nonces ≡ (0, (false, false)) ∷ (1, (true, false)) ∷ []
unfolding sort_by
restores_in_order = refl

load-save_example :
    ((p' : Persistence) × (save toy session empty ≡ ok p')
      × ((load toy (literal "s") p' ≡ ok (some (restored session)))
          × ((id : Text) → literal "s" ≢ id → load toy id p' ≡ load toy id empty)))
    × ((i : ℕ)
        → (Dict.get i session.received_public_nonces
            ≡ Dict.get i (restored session).received_public_nonces)
          × (Dict.get i session.received_partial_sigs
              ≡ Dict.get i (restored session).received_partial_sigs))
load-save_example =
    load-save toy toy-IsFaithful toy-AreNumbersFaithful session empty session-IsStorable

abbrev stored_at : Text → ℕ → SerializedSession
stored_at id t = record {
  session_id = id;
  phase = literal "init";
  signers = [];
  my_index = 0;
  message = [];
  metadata = none;
  received_nonces = [];
  received_partial_sigs = [];
  coordinator_peer_id = literal "p";
  is_coordinator = false;
  created_at = 900;
  last_activity = t;
  coordinator_index = none;
  election_method = none;
  election_proof = none;
  backup_coordinators = none;
  participants = [];
}

abbrev two_sessions : Persistence
two_sessions = record {
  storage =
      (literal "a", stored_at (literal "a") 1000)
      ∷ (literal "b", stored_at (literal "b") 2000)
      ∷ [];
  session_expiry = 500;
}

two_sessions-IsKept : IsKept two_sessions.storage
unfolding Dict.get Text_discrete
two_sessions-IsKept = record { distinct = (refl, (refl, tt)); named = (refl, (refl, tt)) }

forgets_one : (cleanup_expired 2100 two_sessions).1 ≡ 1
unfolding cleanup_expired
forgets_one = refl

load_all-cleanup_expired_example :
    (load_all toy (cleanup_expired 2100 two_sessions).0 ≡ load_active toy 2100 two_sessions)
    × ((cleanup_expired 2100 two_sessions).1
          + Dict.size (cleanup_expired 2100 two_sessions).0.storage
        ≡ 2)
    × IsKept (cleanup_expired 2100 two_sessions).0.storage
load_all-cleanup_expired_example =
    load_all-cleanup_expired toy 2100 two_sessions two_sessions-IsKept
