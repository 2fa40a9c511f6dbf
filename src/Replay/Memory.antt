-- ===== src/Replay/Memory.antt =====
-- The limit on the id memory of lib/musig2/replay-protection.ts.
use xpi_p2p_ts.Dict
use xpi_p2p_ts.Dict.{Dict}
use xpi_p2p_ts.Dict.Laws.{get-set, set-Distinct, delete-Distinct}
use xpi_p2p_ts.Dict.Size.{size-set-le}
use xpi_p2p_ts.Dict.Sweep.{sweep-Distinct, size-sweep-le}
use xpi_p2p_ts.Replay.{
  ReplayProtection, Stamp, sort_entries, delete_first, check_sequence, validate_sequence_number,
  make_room, record_message_id, check_id, is_timely, validate_message, sequence_args, is_stale,
  cleanup,
}
use xpi_p2p_ts.Replay.Sorting.{delete_first-oldest, size-delete_first-lt}
use xpi_p2p_ts.Base.{
  ℕ, zero, suc, ◌*◌, ◌≤◌, ◌<◌, ◌≡◌, ◌≢◌, refl, leb, String, string_key, Option, none, some, List,
  [], ◌∷◌, arith, Bool-cases, inl, inr, is_nonempty,
}

-- A check of the sequence number leaves the configuration and the id memory alone.
pub check_sequence_keeps :
    (args : Option (String × ℕ × ℕ)) (rp : ReplayProtection)
    → ((check_sequence args rp).0.config ≡ rp.config)
      × ((check_sequence args rp).0.seen_messages ≡ rp.seen_messages)
unfolding check_sequence validate_sequence_number
check_sequence_keeps none rp = (refl, refl)
check_sequence_keeps (some (session, signer, n)) rp = ground arith

pub record IsBounded (rp : ReplayProtection) : Type 0 where
  pub distinct : Dict.Distinct rp.seen_messages
  pub within : Dict.size rp.seen_messages ≤ rp.max_seen_messages

delete_first-Distinct :
    (n : ℕ) (es : List (String × ℕ)) (m : Dict String ℕ)
    → Dict.Distinct m
    → Dict.Distinct (delete_first n es m)
unfolding delete_first
delete_first-Distinct zero es m d = d
delete_first-Distinct (suc n) [] m d = d
delete_first-Distinct (suc n) (e ∷ es) m d =
    delete_first-Distinct n es (Dict.delete e.0 m) (delete-Distinct e.0 m d)

module _ (ceil_tenth : ℕ → ℕ) where
  make_room-Distinct :
      (rp : ReplayProtection)
      → Dict.Distinct rp.seen_messages
      → Dict.Distinct (make_room ceil_tenth rp)
  unfolding make_room
  make_room-Distinct rp d =
      elim (Bool-cases (leb rp.max_seen_messages (Dict.size rp.seen_messages))) [
        | inl full ↦
            rw (full, make_room)
              (delete_first-Distinct (ceil_tenth rp.max_seen_messages)
                (sort_entries rp.seen_messages) rp.seen_messages d)
        | inr room ↦ rw (room, make_room) d
      ]

  pub validate_message-Distinct :
      (now : ℕ) (m : Stamp) (session : Option String) (signer n : Option ℕ) (rp : ReplayProtection)
      → Dict.Distinct rp.seen_messages
      → Dict.Distinct (validate_message ceil_tenth now m session signer n rp).0.seen_messages
  unfolding validate_message check_id record_message_id
  validate_message-Distinct now m session signer n rp d =
      let args = sequence_args session signer n in
      ground (
        arith,
        check_sequence_keeps args rp,
        check_sequence_keeps args (record_message_id ceil_tenth m.message_id now rp),
        set-Distinct m.message_id now (make_room ceil_tenth rp) (make_room-Distinct rp d),
      )

  -- Recording an id, in a memory that holds each id once, forgets the oldest ids first: an id that
  -- it forgets is no younger than one that it still knows, other than the recorded one.
  pub record_message_id-oldest :
      (id : String) (now : ℕ) (rp : ReplayProtection) (i j : String) (t u : ℕ)
      → Dict.Distinct rp.seen_messages
      → id ≢ j
      → Dict.get i rp.seen_messages ≡ some t
      → Dict.get i (record_message_id ceil_tenth id now rp).seen_messages ≡ none
      → Dict.get j (record_message_id ceil_tenth id now rp).seen_messages ≡ some u
      → t ≤ u
  unfolding record_message_id make_room
  record_message_id-oldest id now rp i j t u d other known gone kept = ground (
    arith,
    get-set i id now (make_room ceil_tenth rp),
    get-set j id now (make_room ceil_tenth rp),
    delete_first-oldest (ceil_tenth rp.max_seen_messages) rp.seen_messages i j t u d,
  )

  module _ (positive : (n : ℕ) → 0 < n → 0 < ceil_tenth n) where
    make_room-lt :
        (rp : ReplayProtection)
        → 0 < rp.max_seen_messages
        → IsBounded rp
        → Dict.size (make_room ceil_tenth rp) < rp.max_seen_messages
    unfolding make_room
    make_room-lt rp p v = ground (
      arith,
      size-delete_first-lt (ceil_tenth rp.max_seen_messages) rp.seen_messages v.distinct,
      positive rp.max_seen_messages p,
    )

    record_message_id-IsBounded :
        (id : String) (now : ℕ) (rp : ReplayProtection)
        → 0 < rp.max_seen_messages
        → IsBounded rp
        → IsBounded (record_message_id ceil_tenth id now rp)
    unfolding record_message_id
    record_message_id-IsBounded id now rp p v = record {
      distinct = set-Distinct id now (make_room ceil_tenth rp) (make_room-Distinct rp v.distinct);
      within = omega (arith, size-set-le id now (make_room ceil_tenth rp), make_room-lt rp p v);
    }

    check_sequence-IsBounded :
        (args : Option (String × ℕ × ℕ)) (rp : ReplayProtection)
        → IsBounded rp
        → IsBounded (check_sequence args rp).0
    check_sequence-IsBounded args rp v =
        let (config, seen) = check_sequence_keeps args rp in
        record { distinct = rw seen v.distinct; within = rw (seen, config) v.within }

    -- A memory of at most `maxSeenMessages` ids, each once, is one after any validation, whatever
    -- that answers, if the limit is above zero and so is the share that an eviction removes of any
    -- number above zero.
    pub validate_message-IsBounded :
        (now : ℕ) (m : Stamp) (session : Option String) (signer n : Option ℕ)
        (rp : ReplayProtection)
        → 0 < rp.max_seen_messages
        → IsBounded rp
        → IsBounded (validate_message ceil_tenth now m session signer n rp).0
    unfolding validate_message check_id
    validate_message-IsBounded now m session signer n rp p v =
        elim (Bool-cases (is_timely now m rp)) [
          | inr late ↦ rw (late, validate_message) v
          | inl timely ↦
              rw (timely, validate_message)
                (elim (Bool-cases (is_nonempty m.message_id)) [
                  | inr unnamed ↦ rw (unnamed, check_id) (check_sequence-IsBounded args rp v)
                  | inl named ↦ elim (Bool-cases (Dict.has m.message_id rp.seen_messages)) [
                    | inl seen ↦ rw (named, seen, check_id) v
                    | inr new ↦
                        rw (named, new, check_id)
                          (check_sequence-IsBounded args
                            (record_message_id ceil_tenth m.message_id now rp)
                            (record_message_id-IsBounded m.message_id now rp p v))
                  ]
                ])
        ]
      where
        args : Option (String × ℕ × ℕ)
        args = sequence_args session signer n

-- A cleanup keeps the memory within its limit.
pub cleanup-IsBounded :
    (now : ℕ) (rp : ReplayProtection) → IsBounded rp → IsBounded (cleanup now rp)
unfolding cleanup
cleanup-IsBounded now rp v = record {
  distinct = sweep-Distinct (is_stale now (rp.max_message_age * 2)) rp.seen_messages v.distinct;
  within =
      omega
        (arith, size-sweep-le (is_stale now (rp.max_message_age * 2)) rp.seen_messages, v.within);
}
