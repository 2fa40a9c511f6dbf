-- ===== src/SigningSecurity/Accepted.antt =====
-- Which session announcements are valid (lib/musig2/security.ts).
use text.Mathlib.Text.{starts_with}
use text.Mathlib.TextEquality.{eq_iff}
use xpi_p2p_ts.SigningSecurity.{
  Config, SessionAnnouncement, Validator, is_hex, are_valid_signers, check_announcement,
  validate_resource_announcement,
}
use xpi_p2p_ts.Base.{
  ℕ, ◌+◌, ◌≤◌, ◌≡◌, ◌⊎◌, length, every, ◌↔◌, String, Bool, true, false, Option, none, some, arith,
  is_nonempty,
}

-- What holds of a number if the announcement has it.
abbrev pub IfGiven : (ℕ → Type 0) → Option ℕ → Type 0
IfGiven P none = Unit
IfGiven P (some n) = P n

-- The signers, if they are listed, are as many as required, and have valid keys if that is asked for.
abbrev pub AreFit : (String → Bool) → Config → SessionAnnouncement → Type 0
AreFit is_public_key c a = elim (a.signers) as (λ s. Type 0) [
  | none ↦ Unit
  | some signers ↦
      (a.required_signers ≡ some (length signers))
      × ((c.require_valid_public_keys ≡ false) ⊎ (every is_public_key signers ≡ true))
]

are_valid_signers_iff :
    (is_public_key : String → Bool) (c : Config) (a : SessionAnnouncement)
    → (are_valid_signers is_public_key c a ≡ true) ↔ AreFit is_public_key c a
are_valid_signers_iff is_public_key c a = ground arith

-- What a valid announcement of a session satisfies.
pub record IsAcceptable (is_public_key : String → Bool) (now : ℕ) (c : Config) (id : String)
    (a : SessionAnnouncement) : Type 0 where
  pub named : a.session_id ≡ id
  pub has_id : is_nonempty (a.session_id) ≡ true
  pub has_coordinator : is_nonempty (a.coordinator_peer_id) ≡ true
  pub enough_signers : IfGiven (λ n. c.min_signers ≤ n) (a.required_signers)
  pub few_signers : IfGiven (λ n. n ≤ c.max_signers) (a.required_signers)
  pub signers_fit : AreFit is_public_key c a
  pub not_from_future : IfGiven (λ t. t ≤ now + 60000) (a.created_at)
  pub not_expired : IfGiven (λ t. now ≤ t) (a.expires_at)
  pub short :
      IfGiven (λ t. IfGiven (λ u. u ≤ t + c.max_session_duration) (a.expires_at)) (a.created_at)
  pub hash : is_hex 64 (a.message_hash) ≡ true

-- An announcement of the session type is valid exactly if it names the session with that id and a
-- coordinator, its hash is 64 hexadecimal digits, and what it gives of the rest is right: a number of
-- signers that is allowed, a list of as many signers as it requires, whose keys are valid where that
-- is asked for, a time of its making at most a minute from now, and an end that has not passed and,
-- with the time, makes it no longer than allowed. A number of signers, a time or an end that is not
-- given is not asked for.
pub validate_resource_announcement_iff :
    (is_public_key : String → Bool) (now : ℕ) (type id : String) (a : SessionAnnouncement)
    (v : Validator)
    → starts_with type "musig2-session" ≡ true
    → (validate_resource_announcement is_public_key now type id (some a) v ≡ true)
      ↔ IsAcceptable is_public_key now v.config id a
unfolding validate_resource_announcement check_announcement
validate_resource_announcement_iff is_public_key now type id a v session =
    let fit = are_valid_signers_iff is_public_key v.config a in
    let named = eq_iff (a.session_id) id in
    (
      λ h.
          let all : check_announcement is_public_key now v.config id a ≡ true = rw session at h in
          record {
            named = ground (arith, named.0, all);
            has_id = ground (arith, all);
            has_coordinator = ground (arith, all);
            enough_signers = ground (arith, all);
            few_signers = ground (arith, all);
            signers_fit = fit.0 (ground (arith, all));
            not_from_future = ground (arith, all);
            not_expired = ground (arith, all);
            short = ground (arith, all);
            hash = ground (arith, all);
          },
      λ h. ground (
        arith,
        named.1 (h.named),
        fit.1 (h.signers_fit),
        h.hash,
        h.has_id,
        h.has_coordinator,
        session,
      ),
    )
