-- ===== src/SigningSecurity/Blocking.antt =====
-- Which peers are blocked (lib/musig2/security.ts).
use xpi_p2p_ts.Dict
use xpi_p2p_ts.Dict.{Dict}
use xpi_p2p_ts.Dict.Laws.{get-set, get-delete}
use xpi_p2p_ts.SigningSecurity.{
  Config, Validator, Message, count_of, is_message_too_large, is_valid_payload,
  track_validation_violation, validate_message, can_announce_resource, unblock_peer,
}
use xpi_p2p_ts.Base.{
  ℕ, ◌+◌, ◌≤◌, ◌≡◌, ◌≢◌, ◌↔◌, ◌⊎◌, if◌then◌else◌, not, String, string_key, String_discrete, ite,
  Bool, true, false, List, [], ◌∷◌, arith,
}

-- A peer is blocked exactly if it has as many violations as are allowed.
abbrev pub IsStrict : String → Validator → Type 0
IsStrict peer v =
    (Dict.has peer v.blocked_peers ≡ true)
    ↔ (v.config.max_invalid_messages_per_peer ≤ count_of peer v)

track_effect :
    (other peer : String) (v : Validator)
    → v.config.track_validation_violations ≡ true
    → let v' = track_validation_violation peer v in
      (v'.config ≡ v.config)
      × (count_of other v'
          ≡ ite (String_discrete peer other) (count_of other v + 1) (count_of other v))
      × (IsStrict other v → IsStrict other v')
unfolding track_validation_violation
track_effect other peer v on = ground (
  arith,
  get-set other peer (count_of peer v + 1) v.validation_violations,
  get-set other peer tt v.blocked_peers,
)

-- A message that the validator objects to, whoever sends it.
abbrev pub is_invalid : ℕ → Message → Config → Bool
is_invalid now m c =
    if is_message_too_large m c.max_message_size
    then true
    else not (is_valid_payload now c (m.payload))

validate_message_effect :
    (now : ℕ) (m : Message) (peer p : String) (v : Validator)
    → v.config.track_validation_violations ≡ true
    → IsStrict peer v
    → let v' = (validate_message now m p v).0 in
      let invalid = is_invalid now m v.config in
      (v'.config ≡ v.config)
      × IsStrict peer v'
      × ((v.config.max_invalid_messages_per_peer ≤ count_of peer v')
          ⊎ (count_of peer v'
              ≡ ite
                  (String_discrete p peer)
                  (if invalid then count_of peer v + 1 else count_of peer v)
                  (count_of peer v)))
unfolding validate_message
validate_message_effect now m peer p v on strict = ground (arith, track_effect peer p v on)

-- A run of messages, each with its time and sender.
pub validate_all : List (ℕ × Message × String) → Validator → Validator
validate_all [] v = v
validate_all ((now, m, p) ∷ calls) v = validate_all calls (validate_message now m p v).0

-- The invalid messages of a peer among them.
unfoldable pub invalid_in : String → Config → List (ℕ × Message × String) → ℕ
invalid_in peer c [] = 0
invalid_in peer c ((now, m, p) ∷ calls) =
    let later = invalid_in peer c calls in
    ite (String_discrete p peer) (if is_invalid now m c then later + 1 else later) later

validate_all_counts :
    (peer : String) (calls : List (ℕ × Message × String)) (v : Validator)
    → v.config.track_validation_violations ≡ true
    → IsStrict peer v
    → v.config.max_invalid_messages_per_peer ≤ count_of peer v + invalid_in peer v.config calls
    → Dict.has peer (validate_all calls v).blocked_peers ≡ true
unfolding validate_all invalid_in
validate_all_counts peer [] v on strict many = strict.1 (omega arith)
validate_all_counts peer ((now, m, p) ∷ calls) v on strict many =
    let (same, strict', counted) = validate_message_effect now m peer p v on strict in
    let v' = (validate_message now m p v).0 in
    let enough : v.config.max_invalid_messages_per_peer
        ≤ count_of peer v' + invalid_in peer v.config calls =
      ground arith in
    validate_all_counts peer calls v' (rw same on) strict' (rw same enough)

-- With tracking on, a peer whose violations and invalid messages, among messages of any peers, are
-- together as many as are allowed is refused every later message and every announcement, if before
-- the run it was blocked exactly if it had that many violations.
pub validate_all-blocked :
    (peer : String) (calls : List (ℕ × Message × String)) (v : Validator) (later : ℕ) (m : Message)
    (type : String)
    → v.config.track_validation_violations ≡ true
    → IsStrict peer v
    → v.config.max_invalid_messages_per_peer ≤ count_of peer v + invalid_in peer v.config calls
    → ((validate_message later m peer (validate_all calls v)).1 ≡ false)
      × (can_announce_resource type peer (validate_all calls v) ≡ false)
unfolding validate_message can_announce_resource
validate_all-blocked peer calls v later m type on strict many =
    ground (arith, validate_all_counts peer calls v on strict many)

-- A peer that is unblocked starts again without violations, and no other peer is affected.
pub unblock_peer_effect :
    (peer other : String) (v : Validator)
    → let r = unblock_peer peer v in
      (r.1 ≡ Dict.has peer v.blocked_peers)
      × (Dict.has peer r.0.blocked_peers ≡ false)
      × (r.1 ≡ true → count_of peer r.0 ≡ 0)
      × (peer ≢ other
          → (Dict.has other r.0.blocked_peers ≡ Dict.has other v.blocked_peers)
            × (count_of other r.0 ≡ count_of other v))
unfolding unblock_peer
unblock_peer_effect peer other v = ground (
  arith,
  get-delete peer peer v.blocked_peers,
  get-delete other peer v.blocked_peers,
  get-delete peer peer v.validation_violations,
  get-delete other peer v.validation_violations,
)
