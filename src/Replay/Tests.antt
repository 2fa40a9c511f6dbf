-- ===== src/Replay/Tests.antt =====
-- Runs of lib/musig2/replay-protection.ts on small inputs.
use xpi_p2p_ts.Dict
use xpi_p2p_ts.Replay.{
  Config, Stamp, ReplayProtection, valid, rejected, duplicate_message_id, validate_message,
  record_message_id, check_id, check_sequence, validate_sequence_number, make_room, delete_first,
  sort_entries, insert_entry,
}
use xpi_p2p_ts.Replay.Memory.{IsBounded, validate_message-IsBounded}
use xpi_p2p_ts.Replay.Accept.{Accepted, validate_message-Accepted}
use xpi_p2p_ts.Replay.Window.{Call, run, no_replay}
use xpi_p2p_ts.Base.{
  ℕ, true, false, ◌+◌, ◌/◌, ◌≡◌, ◌≢◌, refl, string_key, none, some, [], ◌∷◌, arith, String_discrete,
}

-- `Math.ceil(n * 0.1)`
abbrev tenth : ℕ → ℕ
tenth n = (n + 9) / 10

abbrev small : Config
small = record {
  max_message_age = 100;
  cleanup_interval = 10;
  max_seen_messages = 2;
  enable_sequence_validation = true;
}

abbrev empty : ReplayProtection
empty = record { config = small; seen_messages = []; session_sequences = []; has_timer = false }

abbrev full : ReplayProtection
full = record {
  config = small;
  seen_messages = ("a", 1000) ∷ ("b", 1005) ∷ [];
  session_sequences = [];
  has_timer = false;
}

full-Distinct : Dict.Distinct full.seen_messages
unfolding Dict.get String_discrete
full-Distinct = (refl, (refl, tt))

abbrev hello : Stamp
hello = record { timestamp = 1000; message_id = "m" }

replayed :
    (validate_message tenth 1002 hello none none none
      (validate_message tenth 1001 hello none none none empty).0).1
    ≡ rejected duplicate_message_id
unfolding validate_message check_id record_message_id make_room check_sequence Dict.get Dict.set
    String_discrete
replayed = refl

evicts : (record_message_id tenth "c" 1010 full).seen_messages ≡ ("b", 1005) ∷ ("c", 1010) ∷ []
unfolding record_message_id make_room delete_first sort_entries insert_entry Dict.delete Dict.set
    String_discrete
evicts = refl

no_replay_example :
    (validate_message tenth 1050 hello none none none (
      run tenth
        ((1040, Call.cleans) ∷ [])
        (validate_message tenth 1001 hello none none none empty).0)).1
    ≢ valid
unfolding validate_message check_id record_message_id make_room check_sequence Dict.get Dict.set
    String_discrete
no_replay_example =
    no_replay tenth 1001 hello none none none none none none empty ((1040, Call.cleans) ∷ []) 1050
      tt refl refl refl (omega arith, tt) (omega arith) (omega arith)

validate_message-Accepted_example :
    Accepted 1001 hello
      (some ("s", 1, 4))
      empty
      (validate_message tenth 1001 hello (some "s") (some 1) (some 4) empty).0
unfolding validate_message check_id record_message_id make_room check_sequence
    validate_sequence_number Dict.get Dict.set String_discrete
validate_message-Accepted_example =
    validate_message-Accepted tenth 1001 hello (some "s") (some 1) (some 4) empty refl

validate_message-IsBounded_example :
    IsBounded (validate_message tenth 1001 hello none none none full).0
validate_message-IsBounded_example =
    validate_message-IsBounded tenth (λ n h. omega arith) 1001 hello none none none full
      (omega arith) (record { distinct = full-Distinct; within = omega arith })
