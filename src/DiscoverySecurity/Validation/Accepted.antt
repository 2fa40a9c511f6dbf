-- ===== src/DiscoverySecurity/Validation/Accepted.antt =====
-- Which advertisements validateAdvertisement (lib/discovery/security.ts) accepts.

use xpi_p2p_ts.Dict
use xpi_p2p_ts.Dict.{Dict}
use xpi_p2p_ts.DiscoverySecurity.Policy.{SecurityPolicy, Verdict}
use xpi_p2p_ts.DiscoverySecurity.{
  Criteria, Platform, Validator, Result, get_reputation, validate_signature, check_replay_attack,
  seen_key, validate_criteria_match,
}
use xpi_p2p_ts.DiscoverySecurity.Validation.{
  Ad, unchecked, fail_unless, apply_verdict, check_custom, check_times, check_signature,
  check_reputation, check_replay, check_criteria, validate_advertisement,
}
use xpi_p2p_ts.Base.{
  ℕ, ◌+◌, ◌≤◌, ◌<◌, ◌≡◌, refl, ◌∙◌, ◌↔◌, ◌⊎◌, String, string_key, Bool, true, false, Option, none,
  some, List, [], ◌∷◌, arith,
}

-- Nothing is recorded under the key, or the time 0, or an earlier creation.
abbrev pub IsNewer : ℕ → Option ℕ → Type 0
IsNewer created none = Unit
IsNewer created (some seen) = (seen ≡ 0) ⊎ (seen < created)

-- What a custom validator costs: 10 for a refusal, 15 for an error.
abbrev pub cost : Verdict → ℕ
cost (Verdict.answers true) = 0
cost (Verdict.answers false) = 10
cost Verdict.throws = 15

pub custom_penalty : {Ad : Type 0} → List (Ad → Verdict) → Ad → ℕ
custom_penalty [] ad = 0
custom_penalty (check ∷ checks) ad = cost (check ad) + custom_penalty checks ad

apply_verdict_effect :
    (d : Verdict) (r : Result)
    → ((apply_verdict d r).valid ≡ r.valid) × ((apply_verdict d r).penalty ≡ r.penalty + cost d)
apply_verdict_effect (Verdict.answers true) r = (refl, omega arith)
apply_verdict_effect (Verdict.answers false) r = (refl, refl)
apply_verdict_effect Verdict.throws r = (refl, refl)

check_custom_effect :
    {Ad : Type 0} (checks : List (Ad → Verdict)) (ad : Ad) (r : Result)
    → ((check_custom checks ad r).valid ≡ r.valid)
      × ((check_custom checks ad r).penalty ≡ r.penalty + custom_penalty checks ad)
unfolding check_custom custom_penalty
check_custom_effect [] ad r = (refl, omega arith)
check_custom_effect (check ∷ checks) ad r =
    let one = apply_verdict_effect (check ad) r in
    let later = check_custom_effect checks ad (apply_verdict (check ad) r) in
    (later.0 ∙ one.0, omega (arith, one.1, later.1))

module _ {PublicKey Signature Place Area Json : Type 0}
    (lib : Platform PublicKey Signature Place Area Json) where
  -- The criteria, if there are any, are met.
  abbrev pub Matches : Option (Criteria Area) → Ad lib → Type 0
  Matches none ad = Unit
  Matches (some c) ad = validate_criteria_match lib ad c ≡ true

  -- The checks that an advertisement has to pass.
  pub record Passes (now : ℕ) (ad : Ad lib) (criteria : Option (Criteria Area))
      (v : Validator (Ad lib)) : Type 0 where
    pub alive : now < ad.expires_at
    pub young : now ≤ ad.created_at + v.policy.max_advertisement_age
    pub signed :
        (v.policy.enable_signature_verification ≡ false) ⊎ (validate_signature lib ad ≡ true)
    pub trusted : v.policy.min_reputation ≤ (get_reputation now (ad.peer_info.peer_id) v).1.score
    pub fresh :
        (v.policy.enable_replay_prevention ≡ false)
        ⊎ IsNewer (ad.created_at) (Dict.get (seen_key lib ad) v.seen_advertisements)
    pub matching : Matches criteria ad
    pub custom : custom_penalty v.policy.custom_validators ad ≤ 50

  -- A check, by what it asks for: a result stays valid exactly if that holds, and then costs nothing.
  abbrev Checks : Result → Result → Type 0 → Type 0
  Checks r r' P =
      ((r'.valid ≡ true) ↔ ((r.valid ≡ true) × P)) × (r'.valid ≡ true → r'.penalty ≡ r.penalty)

  compose :
      (r r' r'' : Result) (P Q : Type 0) → Checks r r' P → Checks r' r'' Q → Checks r r'' (P × Q)
  compose r r' r'' P Q (i, x) (j, y) = (
    (
      λ h. let (h', q) = j.0 h in let (h'', p) = i.0 h' in (h'', (p, q)),
      λ h. j.1 (i.1 (h.0, h.1.0), h.1.1),
    ),
    λ h. y h ∙ x ((j.0 h).0),
  )

  check_times-Checks :
      (now : ℕ) (p : SecurityPolicy (Ad lib)) (ad : Ad lib) (r : Result)
      → Checks r
          (check_times lib now p ad r)
          ((now < ad.expires_at) × (now ≤ ad.created_at + p.max_advertisement_age))
  unfolding check_times
  check_times-Checks now p ad r = ground arith

  check_signature-Checks :
      (p : SecurityPolicy (Ad lib)) (ad : Ad lib) (r : Result)
      → Checks r
          (check_signature lib p ad r)
          ((p.enable_signature_verification ≡ false) ⊎ (validate_signature lib ad ≡ true))
  unfolding check_signature
  check_signature-Checks p ad r = ground arith

  check_reputation-Checks :
      (p : SecurityPolicy (Ad lib)) (score : ℕ) (r : Result)
      → Checks r (check_reputation lib p score r) (p.min_reputation ≤ score)
  unfolding check_reputation
  check_reputation-Checks p score r = ground arith

  check_replay-Checks :
      (p : SecurityPolicy (Ad lib)) (ad : Ad lib) (seen : Dict String ℕ) (r : Result)
      → Checks r (check_replay lib p ad (seen, r)).1 (
          (p.enable_replay_prevention ≡ false)
          ⊎ IsNewer (ad.created_at) (Dict.get (seen_key lib ad) seen))
  unfolding check_replay check_replay_attack
  check_replay-Checks p ad seen r = ground arith

  matched :
      (b : Bool) (r : Result)
      → Checks r (fail_unless b 20 "Criteria mismatch" (record r { criteria_match = b })) (b ≡ true)
  matched b r = ground arith

  check_criteria-Checks :
      (criteria : Option (Criteria Area)) (ad : Ad lib) (r : Result)
      → Checks r (check_criteria lib criteria ad r) (Matches criteria ad)
  unfolding check_criteria
  check_criteria-Checks none ad r = ((λ h. (h, tt), λ h. h.0), λ h. refl)
  check_criteria-Checks (some c) ad r = matched (validate_criteria_match lib ad c) r

  -- An advertisement is valid exactly if it is neither expired nor too old, has a valid signature
  -- and is newer than the last one known under its key, where the policy asks for that, comes from a
  -- peer with the reputation wanted, meets the criteria, and the custom validators' objections cost
  -- 50 points at most.
  pub validate_advertisement_iff :
      (now : ℕ) (ad : Ad lib) (criteria : Option (Criteria Area)) (v : Validator (Ad lib))
      → ((validate_advertisement lib now ad criteria v).1.valid ≡ true) ↔ Passes now ad criteria v
  unfolding validate_advertisement
  validate_advertisement_iff now ad criteria v =
      let p = v.policy in
      let timed = check_times lib now p ad unchecked in
      let signed = check_signature lib p ad timed in
      let reputation = (get_reputation now (ad.peer_info.peer_id) v).1.score in
      let trusted = check_reputation lib p reputation signed in
      let seen = v.seen_advertisements in
      let fresh = (check_replay lib p ad (seen, trusted)).1 in
      let met = check_criteria lib criteria ad fresh in
      let a = check_times-Checks now p ad unchecked in
      let b = check_signature-Checks p ad timed in
      let c = check_reputation-Checks p reputation signed in
      let d = check_replay-Checks p ad seen trusted in
      let e = check_criteria-Checks criteria ad fresh in
      let ab = compose unchecked timed signed _ _ a b in
      let abc = compose unchecked signed trusted _ _ ab c in
      let abcd = compose unchecked trusted fresh _ _ abc d in
      let all = compose unchecked fresh met _ _ abcd e in
      let (same, costs) = check_custom_effect p.custom_validators ad met in
      (
        λ h.
            let valid : met.valid ≡ true = ground (arith, same) in
            let ((((times, sig), rep), new), crit) = (all.0.0 valid).1 in
            let free = all.1 valid in
            record {
              alive = times.0;
              young = times.1;
              signed = sig;
              trusted = rep;
              fresh = new;
              matching = crit;
              custom = ground (arith, same, costs);
            },
        λ h.
            let valid =
              all.0.1
                (refl, (((((h.alive, h.young), h.signed), h.trusted), h.fresh), h.matching)) in
            let free = all.1 valid in ground (arith, same, costs, h.custom),
      )
