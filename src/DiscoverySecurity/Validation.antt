-- ===== src/DiscoverySecurity/Validation.antt =====
-- validateAdvertisement of lib/discovery/security.ts.
pub mod Accepted
pub mod Replays
mod Tests
use xpi_p2p_ts.Dict
use xpi_p2p_ts.Dict.{Dict}
use xpi_p2p_ts.DiscoverySecurity.Policy.{SecurityPolicy, Verdict}
use xpi_p2p_ts.DiscoverySecurity.{
  Advertisement, Criteria, Platform, Validator, Result, get_reputation, validate_signature,
  check_replay_attack, validate_criteria_match,
}
use xpi_p2p_ts.Base.{
  ℕ, ◌+◌, ltb, leb, if◌then◌else◌, not, ◌&&◌, String, Bool, true, false, Option, none, some, List,
  [], ◌∷◌,
}

abbrev pub unchecked : Result
unchecked = record {
  valid = true;
  penalty = 0;
  error = none;
  signature_valid = true;
  not_expired = true;
  reputation_acceptable = true;
  criteria_match = true;
  custom_validation = true;
}

-- What a failed check does, apart from its flag.
abbrev pub fail_unless : Bool → ℕ → String → Result → Result
fail_unless true cost why r = r
fail_unless false cost why r = record r {
  valid = false;
  penalty = r.penalty + cost;
  error = some why;
}

-- One custom validator, which makes nothing invalid by itself.
abbrev pub apply_verdict : Verdict → Result → Result
apply_verdict (Verdict.answers true) r = r
apply_verdict (Verdict.answers false) r = record r {
  custom_validation = false;
  penalty = r.penalty + 10;
}
apply_verdict Verdict.throws r = record r { custom_validation = false; penalty = r.penalty + 15 }

pub check_custom : {Ad : Type 0} → List (Ad → Verdict) → Ad → Result → Result
check_custom [] ad r = r
check_custom (check ∷ checks) ad r = check_custom checks ad (apply_verdict (check ad) r)

module _ {PublicKey Signature Place Area Json : Type 0}
    (lib : Platform PublicKey Signature Place Area Json) where
  abbrev pub Ad : Type 0
  Ad = Advertisement PublicKey Signature Place Json

  pub check_times : ℕ → SecurityPolicy Ad → Ad → Result → Result
  check_times now p ad r =
      let alive = not (leb (ad.expires_at) now) in
      let young = not (ltb (ad.created_at + p.max_advertisement_age) now) in
      fail_unless young 30 "Advertisement too old"
        (fail_unless alive 50 "Advertisement expired" (record r { not_expired = alive }))

  pub check_signature : SecurityPolicy Ad → Ad → Result → Result
  check_signature p ad r =
      let ok = validate_signature lib ad in
      if p.enable_signature_verification
      then fail_unless ok 40 "Invalid signature" (record r { signature_valid = ok })
      else r

  pub check_reputation : SecurityPolicy Ad → ℕ → Result → Result
  check_reputation p score r =
      let ok = leb p.min_reputation score in
      fail_unless ok 30 "Reputation too low" (record r { reputation_acceptable = ok })

  pub check_replay : SecurityPolicy Ad → Ad → Dict String ℕ × Result → Dict String ℕ × Result
  check_replay p ad (seen, r) =
      let (seen', replay) = check_replay_attack lib ad seen in
      if p.enable_replay_prevention
      then (seen', fail_unless (not replay) 60 "Replay attack detected" r)
      else (seen, r)

  pub check_criteria : Option (Criteria Area) → Ad → Result → Result
  check_criteria none ad r = r
  check_criteria (some c) ad r =
      let ok = validate_criteria_match lib ad c in
      fail_unless ok 20 "Criteria mismatch" (record r { criteria_match = ok })

  -- `securityScore >= 50` is a penalty of 50 at most.
  abbrev pub conclude : Result → Result
  conclude r = record r { valid = r.valid && leb (r.penalty) 50 }

  pub validate_advertisement :
      ℕ → Ad → Option (Criteria Area) → Validator Ad → Validator Ad × Result
  validate_advertisement now ad criteria v =
      let p = v.policy in
      let signed = check_signature p ad (check_times now p ad unchecked) in
      let (known, reputation) = get_reputation now (ad.peer_info.peer_id) v in
      let trusted = check_reputation p (reputation.score) signed in
      let (seen, fresh) = check_replay p ad (v.seen_advertisements, trusted) in
      let matched = check_criteria criteria ad fresh in
      (
        record known { seen_advertisements = seen },
        conclude (check_custom p.custom_validators ad matched),
      )
