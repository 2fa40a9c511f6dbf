-- ===== src/Replay/Accept.antt =====
-- What a message has shown that `validateMessage` (lib/musig2/replay-protection.ts) lets pass.
use xpi_p2p_ts.Dict
use xpi_p2p_ts.Dict.{Dict}
use xpi_p2p_ts.Dict.Laws.{get-set_self}
use xpi_p2p_ts.Replay.{
  Config, make_room, ReplayProtection, Stamp, valid, check_sequence, record_message_id, check_id,
  validate_message, sequence_args, is_timely, get_last_sequence_number,
}
use xpi_p2p_ts.Replay.Memory.{check_sequence_keeps}
use xpi_p2p_ts.Replay.Sequence.{
  IsAbove, validate_sequence_number_iff, get_last-validate, validate_sequence_number-result,
}
use xpi_p2p_ts.Base.{
  ℕ, ◌+◌, ◌≤◌, ◌≡◌, refl, sym, ap, ◌∙◌, subst, ◌⊎◌, String, string_key, nat_key, Option, none, some,
  arith, Bool-cases, Option-cases, inl, inr, is_nonempty, is_nonzero, true, false,
}

pub record Accepted (now : ℕ) (m : Stamp) (args : Option (String × ℕ × ℕ))
    (rp rp' : ReplayProtection) : Type 0 where
  pub timely :
      is_nonzero m.timestamp ≡ true
      → (m.timestamp ≤ now + rp.max_message_age) × (now ≤ m.timestamp + rp.max_message_age)
  pub fresh :
      is_nonempty m.message_id ≡ true
      → (Dict.get m.message_id rp.seen_messages ≡ none)
        × (Dict.get m.message_id rp'.seen_messages ≡ some now)
  pub increasing :
      (session : String) (signer n : ℕ)
      → rp.enable_sequence_validation ≡ true
      → args ≡ some (session, signer, n)
      → IsAbove n (get_last_sequence_number session signer rp)
        × (get_last_sequence_number session signer rp' ≡ some n)
  pub same_config : rp'.config ≡ rp.config

-- What an accepted check of the sequence number has seen, and what it has written.
check_sequence-valid :
    (session : String) (signer n : ℕ) (rp : ReplayProtection)
    → rp.enable_sequence_validation ≡ true
    → (check_sequence (some (session, signer, n)) rp).1 ≡ valid
    → IsAbove n (get_last_sequence_number session signer rp)
      × (get_last_sequence_number session signer (check_sequence (some (session, signer, n)) rp).0
          ≡ some n)
unfolding check_sequence
check_sequence-valid session signer n rp on h = (
  (validate_sequence_number_iff session signer n rp).0 (ground arith),
  ground (
    arith,
    get_last-validate session session signer signer n rp,
    validate_sequence_number-result session signer n rp,
  ),
)

module _ (ceil_tenth : ℕ → ℕ) where
  record_message_id-last :
      (session : String) (signer : ℕ) (id : String) (now : ℕ) (rp : ReplayProtection)
      → get_last_sequence_number session signer (record_message_id ceil_tenth id now rp)
        ≡ get_last_sequence_number session signer rp
  unfolding record_message_id get_last_sequence_number
  record_message_id-last session signer id now rp = refl

  record_message_id-keeps :
      (id : String) (now : ℕ) (rp : ReplayProtection)
      → ((record_message_id ceil_tenth id now rp).config ≡ rp.config)
        × (Dict.get id (record_message_id ceil_tenth id now rp).seen_messages ≡ some now)
  unfolding record_message_id
  record_message_id-keeps id now rp = (refl, get-set_self id now (make_room ceil_tenth rp))

  -- The two ways through the check of the id.
  check_id_cases :
      (now : ℕ) (m : Stamp) (args : Option (String × ℕ × ℕ)) (rp : ReplayProtection)
      → (check_id ceil_tenth now m args rp).1 ≡ valid
      → ((is_nonempty m.message_id ≡ false)
          × (check_id ceil_tenth now m args rp ≡ check_sequence args rp))
        ⊎ ((Dict.get m.message_id rp.seen_messages ≡ none)
            × (check_id ceil_tenth now m args rp
                ≡ check_sequence args (record_message_id ceil_tenth m.message_id now rp)))
  unfolding check_id
  check_id_cases now m args rp h = elim (Bool-cases (is_nonempty m.message_id)) [
    | inr unnamed ↦ inl (unnamed, rw unnamed)
    | inl named ↦ elim (Option-cases (Dict.get m.message_id rp.seen_messages)) [
      | inl new ↦ inr (new, rw (named, new))
      | inr (t, seen) ↦ absurd (ground arith)
    ]
  ]

  module _ (now : ℕ) (m : Stamp) (args : Option (String × ℕ × ℕ)) (rp base : ReplayProtection)
      (timely : is_timely now m rp ≡ true) (config : base.config ≡ rp.config)
      (last : (session : String) (signer : ℕ)
        → get_last_sequence_number session signer base ≡ get_last_sequence_number session signer rp)
      (h : (check_sequence args base).1 ≡ valid) where
    increasing_from :
        (session : String) (signer n : ℕ)
        → rp.enable_sequence_validation ≡ true
        → args ≡ some (session, signer, n)
        → IsAbove n (get_last_sequence_number session signer rp)
          × (get_last_sequence_number session signer (check_sequence args base).0 ≡ some n)
    increasing_from session signer n on given =
        let (above, stored) =
          check_sequence-valid session signer n base
            (ap (λ (c : Config). c.enable_sequence_validation) config ∙ on) (rw given at h) in
        (subst (IsAbove n) (last session signer) above, rw given stored)

    Accepted-from :
        (is_nonempty m.message_id ≡ true
          → (Dict.get m.message_id rp.seen_messages ≡ none)
            × (Dict.get m.message_id base.seen_messages ≡ some now))
        → Accepted now m args rp (check_sequence args base).0
    Accepted-from named = record {
      timely = λ nonzero. ground arith;
      fresh = λ nonempty.
          let (new, known) = named nonempty in (new, rw ((check_sequence_keeps args base).1) known);
      increasing = increasing_from;
      same_config = (check_sequence_keeps args base).0 ∙ config;
    }

  -- A message that passes is timely, or has no timestamp; its id was unknown and is known from now
  -- on, or it has none; and its sequence number, where numbers are checked and all three arguments
  -- are given, is above the signer's last one and becomes the last one.
  pub validate_message-Accepted :
      (now : ℕ) (m : Stamp) (session : Option String) (signer n : Option ℕ) (rp : ReplayProtection)
      → (validate_message ceil_tenth now m session signer n rp).1 ≡ valid
      → Accepted now m
          (sequence_args session signer n)
          rp
          (validate_message ceil_tenth now m session signer n rp).0
  unfolding validate_message
  validate_message-Accepted now m session signer n rp h = elim (Bool-cases (is_timely now m rp)) [
    | inr late ↦ absurd (ground arith)
    | inl timely ↦
        let args = sequence_args session signer n in
        let passed : (check_id ceil_tenth now m args rp).1 ≡ valid = rw timely at h in
        rw (timely, validate_message)
          (elim (check_id_cases now m args rp passed) [
            | inl (unnamed, e) ↦ rw e (
                Accepted-from now m args rp rp timely refl (λ s g. refl)
                  (ap (λ r. r.1) (sym e) ∙ passed) (λ named. absurd (ground arith)))
            | inr (new, e) ↦
                let base = record_message_id ceil_tenth m.message_id now rp in
                let (config, known) = record_message_id-keeps m.message_id now rp in
                rw e (
                  Accepted-from now m args rp base timely config
                    (λ s g. record_message_id-last s g m.message_id now rp)
                    (ap (λ r. r.1) (sym e) ∙ passed) (λ named. (new, known)))
          ])
  ]
