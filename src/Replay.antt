-- ===== src/Replay.antt =====
-- lib/musig2/replay-protection.ts: seen message ids, and the last sequence number of each signer.
-- `Date.now()` is an argument. `Math.ceil(n * 0.1)` is computed in floating point: `ceil_tenth`.
pub mod Sorting
pub mod Memory
pub mod Accept
pub mod Sequence
pub mod Window
mod Tests
use xpi_p2p_ts.Dict
use xpi_p2p_ts.Dict.{Dict}
use xpi_p2p_ts.Base.{
  ℕ, zero, suc, ◌+◌, ◌*◌, ltb, leb, if◌then◌else◌, is_nonempty, is_nonzero, is_some, String,
  string_key, nat_key, Bool, true, false, ◌&&◌, ◌||◌, Option, none, some, List, [], ◌∷◌,
}

pub record Config : Type 0 where
  pub max_message_age : ℕ
  pub cleanup_interval : ℕ
  pub max_seen_messages : ℕ
  pub enable_sequence_validation : Bool

abbrev pub default_config : Config
default_config = record {
  max_message_age = 5 * 60 * 1000;
  cleanup_interval = 60 * 1000;
  max_seen_messages = 10000;
  enable_sequence_validation = true;
}

pub data Reason : Type 0 where
  timestamp_out_of_range duplicate_message_id sequence_number_not_increasing : Reason

pub data Validation : Type 0 where
  valid : Validation
  rejected : Reason → Validation

-- What a validation reads of a message.
pub record Stamp : Type 0 where
  pub timestamp : ℕ
  pub message_id : String

pub record ReplayProtection : Type 0 where
  pub config : Config
  pub open config use *
  pub seen_messages : Dict String ℕ
  pub session_sequences : Dict String (Dict ℕ ℕ)
  pub has_timer : Bool

pub create_replay_protection : Config → ReplayProtection
create_replay_protection c = record {
  config = c;
  seen_messages = [];
  session_sequences = [];
  has_timer = false;
}

pub start : ReplayProtection → ReplayProtection
start rp = if rp.has_timer then rp else record rp { has_timer = true }

pub stop : ReplayProtection → ReplayProtection
stop rp = if rp.has_timer then record rp { has_timer = false } else rp

-- `Math.abs(now - timestamp) > maxMessageAge`
abbrev pub is_out_of_range : ℕ → ℕ → ℕ → Bool
is_out_of_range now timestamp max_age =
    ltb (timestamp + max_age) now || ltb (now + max_age) timestamp

-- `sort((a, b) => a[1] - b[1])`, which is stable.
pub insert_entry : String × ℕ → List (String × ℕ) → List (String × ℕ)
insert_entry e [] = e ∷ []
insert_entry e (x ∷ xs) =
    let later = insert_entry e xs in if leb e.1 x.1 then e ∷ x ∷ xs else x ∷ later

pub sort_entries : List (String × ℕ) → List (String × ℕ)
sort_entries [] = []
sort_entries (e ∷ es) = insert_entry e (sort_entries es)

-- The loop that deletes the first `n` entries.
pub delete_first : ℕ → List (String × ℕ) → Dict String ℕ → Dict String ℕ
delete_first zero es m = m
delete_first (suc n) [] m = m
delete_first (suc n) (e ∷ es) m = delete_first n es (Dict.delete e.0 m)

-- `(sessionSeqs.get(signerIndex) ?? -1)`, and whether a number is at most that.
abbrev pub is_not_increasing : ℕ → Option ℕ → Bool
is_not_increasing n none = false
is_not_increasing n (some last) = leb n last

abbrev pub sequences_of : String → ReplayProtection → Dict ℕ ℕ
sequences_of session rp = elim (Dict.get session rp.session_sequences) [
  | none ↦ []
  | some seqs ↦ seqs
]

-- The first message of a session creates its map.
abbrev pub with_session : String → ReplayProtection → ReplayProtection
with_session session rp = elim (Dict.get session rp.session_sequences) [
  | none ↦ record rp { session_sequences = Dict.set session [] rp.session_sequences }
  | some _ ↦ rp
]

unfoldable pub validate_sequence_number :
    String → ℕ → ℕ → ReplayProtection → ReplayProtection × Validation
validate_sequence_number session signer n rp =
    let seqs = sequences_of session rp in
    let tracked = with_session session rp in
    if is_not_increasing n (Dict.get signer seqs)
    then (tracked, rejected sequence_number_not_increasing)
    else (
      record tracked {
        session_sequences = Dict.set session (Dict.set signer n seqs) tracked.session_sequences;
      },
      valid,
    )

-- The three optional arguments, if all are given.
abbrev pub sequence_args : Option String → Option ℕ → Option ℕ → Option (String × ℕ × ℕ)
sequence_args (some session) (some signer) (some n) = some (session, signer, n)
sequence_args _ _ _ = none

unfoldable pub check_sequence :
    Option (String × ℕ × ℕ) → ReplayProtection → ReplayProtection × Validation
check_sequence none rp = (rp, valid)
check_sequence (some (session, signer, n)) rp =
    if rp.enable_sequence_validation
    then validate_sequence_number session signer n rp
    else (rp, valid)

abbrev pub is_timely : ℕ → Stamp → ReplayProtection → Bool
is_timely now m rp =
    if is_nonzero m.timestamp
    then if is_out_of_range now m.timestamp rp.max_message_age then false else true
    else true

module _ (ceil_tenth : ℕ → ℕ) where
  -- The ids that are still known once there is room for one more.
  unfoldable pub make_room : ReplayProtection → Dict String ℕ
  make_room rp =
      if leb rp.max_seen_messages (Dict.size rp.seen_messages)
      then delete_first (ceil_tenth rp.max_seen_messages) (sort_entries rp.seen_messages)
          rp.seen_messages
      else rp.seen_messages

  unfoldable pub record_message_id : String → ℕ → ReplayProtection → ReplayProtection
  record_message_id id now rp = record rp { seen_messages = Dict.set id now (make_room rp) }

  unfoldable pub check_id :
      ℕ → Stamp → Option (String × ℕ × ℕ) → ReplayProtection → ReplayProtection × Validation
  check_id now m args rp =
      if is_nonempty m.message_id
      then if Dict.has m.message_id rp.seen_messages
        then (rp, rejected duplicate_message_id)
        else check_sequence args (record_message_id m.message_id now rp)
      else check_sequence args rp

  unfoldable pub validate_message :
      ℕ
      → Stamp
      → Option String
      → Option ℕ
      → Option ℕ
      → ReplayProtection
      → ReplayProtection × Validation
  validate_message now m session signer n rp =
      if is_timely now m rp
      then check_id now m (sequence_args session signer n) rp
      else (rp, rejected timestamp_out_of_range)

pub get_last_sequence_number : String → ℕ → ReplayProtection → Option ℕ
get_last_sequence_number session signer rp = elim (Dict.get session rp.session_sequences) [
  | none ↦ none
  | some seqs ↦ Dict.get signer seqs
]

pub get_next_sequence_number : String → ℕ → ReplayProtection → ℕ
get_next_sequence_number session signer rp = elim (Dict.get session rp.session_sequences) [
  | none ↦ 0
  | some seqs ↦ elim (Dict.get signer seqs) [ none ↦ 0 | some last ↦ last + 1 ]
]

pub clear_session : String → ReplayProtection → ReplayProtection
clear_session session rp = record rp {
  session_sequences = Dict.delete session rp.session_sequences;
}

-- `now - timestamp > maxAge`, without the subtraction.
abbrev pub is_stale : ℕ → ℕ → ℕ → Bool
is_stale now max_age timestamp = ltb (timestamp + max_age) now

pub cleanup : ℕ → ReplayProtection → ReplayProtection
cleanup now rp = record rp {
  seen_messages = Dict.sweep (is_stale now (rp.max_message_age * 2)) rp.seen_messages;
}

pub clear : ReplayProtection → ReplayProtection
clear rp = record rp { seen_messages = []; session_sequences = [] }

pub has_seen_message : String → ReplayProtection → Bool
has_seen_message id rp = Dict.has id rp.seen_messages
