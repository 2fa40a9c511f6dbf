-- ===== src/Replay/Window.antt =====
-- Messages that come twice (lib/musig2/replay-protection.ts).
use xpi_p2p_ts.Dict
use xpi_p2p_ts.Dict.{Dict}
use xpi_p2p_ts.Dict.Laws.{get-set, set-Distinct}
use xpi_p2p_ts.Dict.Size.{size-set-le}
use xpi_p2p_ts.Dict.Sweep.{get-sweep, sweep-Distinct, size-sweep-le}
use xpi_p2p_ts.Replay.{
  Config, ReplayProtection, Stamp, valid, record_message_id, check_id, validate_message,
  sequence_args, is_stale, cleanup, clear_session, make_room,
}
use xpi_p2p_ts.Replay.Memory.{check_sequence_keeps, validate_message-Distinct}
use xpi_p2p_ts.Replay.Accept.{validate_message-Accepted}
use xpi_p2p_ts.Base.{
  ℕ, ◌+◌, ◌*◌, ◌≤◌, ◌<◌, ◌≡◌, ◌≢◌, refl, ap, ◌∙◌, ◌⊎◌, String, string_key, Option, none, some, List,
  [], ◌∷◌, length, arith, inl, is_nonempty, is_nonzero, true,
}

pub data Call : Type 0 where
  validates : Stamp → Option String → Option ℕ → Option ℕ → Call
  cleans : Call
  ends : String → Call

module _ (ceil_tenth : ℕ → ℕ) where
  unfoldable pub step : ℕ → Call → ReplayProtection → ReplayProtection
  step now (validates m session signer n) rp =
      (validate_message ceil_tenth now m session signer n rp).0
  step now cleans rp = cleanup now rp
  step now (ends session) rp = clear_session session rp

  -- A run of calls, each with its time.
  unfoldable pub run : List (ℕ × Call) → ReplayProtection → ReplayProtection
  unfolding step
  run [] rp = rp
  run ((now, c) ∷ calls) rp = run calls (step now c rp)

  abbrev pub Chronological : ℕ → List (ℕ × Call) → Type 0
  Chronological t [] = Unit
  Chronological t ((now, c) ∷ calls) = (t ≤ now) × Chronological now calls

  abbrev pub end_time : ℕ → List (ℕ × Call) → ℕ
  end_time t [] = t
  end_time t ((now, c) ∷ calls) = end_time now calls

  -- The id is known with its time, or that time lies so far back that the message is out of range.
  pub record Remembers (id : String) (t now : ℕ) (rp : ReplayProtection) : Type 0 where
    pub distinct : Dict.Distinct rp.seen_messages
    pub known : (Dict.get id rp.seen_messages ≡ some t) ⊎ (t + rp.max_message_age * 2 < now)

  -- What a validation does to the id memory while that has room.
  validate_message-seen :
      (now : ℕ) (m : Stamp) (session : Option String) (signer n : Option ℕ) (rp : ReplayProtection)
      → Dict.size rp.seen_messages < rp.max_seen_messages
      → let rp' = (validate_message ceil_tenth now m session signer n rp).0 in
        (rp'.config ≡ rp.config)
        × ((rp'.seen_messages ≡ rp.seen_messages)
            ⊎ ((Dict.get m.message_id rp.seen_messages ≡ none)
                × (rp'.seen_messages ≡ Dict.set m.message_id now rp.seen_messages)))
  unfolding validate_message check_id record_message_id make_room
  validate_message-seen now m session signer n rp room =
      let args = sequence_args session signer n in
      ground (
        arith,
        check_sequence_keeps args rp,
        check_sequence_keeps args (record_message_id ceil_tenth m.message_id now rp),
      )

  -- A call at a later time keeps what is remembered, while the memory has room for one id more.
  step-Remembers :
      (id : String) (t before now : ℕ) (c : Call) (rp : ReplayProtection)
      → before ≤ now
      → Dict.size rp.seen_messages < rp.max_seen_messages
      → Remembers id t before rp
      → Remembers id t now (step now c rp)
        × ((step now c rp).config ≡ rp.config)
        × (Dict.size (step now c rp).seen_messages ≤ Dict.size rp.seen_messages + 1)
  unfolding step cleanup clear_session
  step-Remembers id t before now (validates m session signer n) rp later room r =
      let (config, seen) = validate_message-seen now m session signer n rp room in
      (
        record {
          distinct =
              ground (arith, seen, set-Distinct m.message_id now rp.seen_messages r.distinct);
          known =
              ground (arith, seen, config, r.known, get-set id m.message_id now rp.seen_messages);
        },
        config,
        ground (arith, seen, size-set-le m.message_id now rp.seen_messages),
      )
  step-Remembers id t before now cleans rp later room r =
      let old = is_stale now (rp.max_message_age * 2) in
      (
        record {
          distinct = sweep-Distinct old rp.seen_messages r.distinct;
          known = ground (arith, r.known, get-sweep old id rp.seen_messages r.distinct);
        },
        refl,
        omega (arith, size-sweep-le old rp.seen_messages),
      )
  step-Remembers id t before now (ends session) rp later room r =
      (record { distinct = r.distinct; known = ground (arith, r.known) }, refl, omega arith)

  run-Remembers :
      (id : String) (t before : ℕ) (calls : List (ℕ × Call)) (rp : ReplayProtection)
      → Chronological before calls
      → Dict.size rp.seen_messages + length calls ≤ rp.max_seen_messages
      → Remembers id t before rp
      → Remembers id t (end_time before calls) (run calls rp) × ((run calls rp).config ≡ rp.config)
  unfolding run
  run-Remembers id t before [] rp chron room r = (r, refl)
  run-Remembers id t before ((now, c) ∷ calls) rp chron room r =
      let (r', config, grown) = step-Remembers id t before now c rp chron.0 (omega arith) r in
      let limit = ap (λ (k : Config). k.max_seen_messages) config in
      let (r'', config') =
        run-Remembers id t now calls (step now c rp) chron.1 (omega (arith, limit)) r' in
      (r'', config' ∙ config)

  -- A message with an id and a timestamp above 0, which was accepted at `t` by an id memory that
  -- holds each id once, is rejected at every later time: whatever calls come between in order of
  -- time, if these and the ids known after `t` are together at most the limit of the memory.
  pub no_replay :
      (t : ℕ) (m : Stamp) (session session' : Option String) (signer n signer' n' : Option ℕ)
      (rp : ReplayProtection) (calls : List (ℕ × Call)) (now : ℕ)
      → Dict.Distinct rp.seen_messages
      → is_nonzero m.timestamp ≡ true
      → is_nonempty m.message_id ≡ true
      → (validate_message ceil_tenth t m session signer n rp).1 ≡ valid
      → let rp' = (validate_message ceil_tenth t m session signer n rp).0 in
        Chronological t calls
        → Dict.size rp'.seen_messages + length calls ≤ rp'.max_seen_messages
        → end_time t calls ≤ now
        → (validate_message ceil_tenth now m session' signer' n' (run calls rp')).1 ≢ valid
  no_replay t m session session' signer n signer' n' rp calls now d stamped named ok chron room last
        again =
      let rp' = (validate_message ceil_tenth t m session signer n rp).0 in
      let first = validate_message-Accepted ceil_tenth t m session signer n rp ok in
      let second =
        validate_message-Accepted ceil_tenth now m session' signer' n' (run calls rp') again in
      let (r, config) = run-Remembers m.message_id t t calls rp' chron room (record {
        distinct = validate_message-Distinct ceil_tenth t m session signer n rp d;
        known = inl (first.fresh named).1;
      }) in
      ground (
        arith,
        first.timely stamped,
        first.same_config,
        second.timely stamped,
        second.fresh named,
        config,
        r.known,
      )
