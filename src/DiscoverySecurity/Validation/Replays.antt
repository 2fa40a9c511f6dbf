-- ===== src/DiscoverySecurity/Validation/Replays.antt =====
-- Advertisements that come twice (checkReplayAttack, lib/discovery/security.ts).
use xpi_p2p_ts.Dict
use xpi_p2p_ts.Dict.{Dict}
use xpi_p2p_ts.Dict.Laws.{get-set_self, get-set_ne}
use xpi_p2p_ts.DiscoverySecurity.{
  Criteria, Platform, Validator, get_reputation, check_replay_attack, is_replay, seen_key,
}
use xpi_p2p_ts.DiscoverySecurity.Validation.{Ad, validate_advertisement, check_replay}
use xpi_p2p_ts.DiscoverySecurity.Validation.Accepted.{IsNewer, validate_advertisement_iff}
use xpi_p2p_ts.Base.{
  ℕ, ◌≤◌, ◌<◌, ◌≡◌, sym, ◌∙◌, ap, subst, if◌then◌else◌, String, string_key, String_discrete, true,
  false, Option, some, List, [], ◌∷◌, arith, Bool-cases, Option-cases, inl, inr,
}

-- The newest creation time that is recorded under a key is at least the one given.
abbrev pub HasSeen : String → ℕ → Dict String ℕ → Type 0
HasSeen key created seen = (t : ℕ) × (Dict.get key seen ≡ some t) × (created ≤ t)

module _ {PublicKey Signature Place Area Json : Type 0}
    (lib : Platform PublicKey Signature Place Area Json) where
  check_replay_attack-records :
      (ad : Ad lib) (seen : Dict String ℕ)
      → 0 < ad.created_at
      → HasSeen (seen_key lib ad) (ad.created_at) (check_replay_attack lib ad seen).0
  unfolding check_replay_attack
  check_replay_attack-records ad seen h =
      elim (Bool-cases (is_replay lib (ad.created_at) (Dict.get (seen_key lib ad) seen))) [
        | inl replay ↦ elim (Option-cases (Dict.get (seen_key lib ad) seen)) [
          | inl e ↦ absurd (ground arith)
          | inr (t, e) ↦ (t, rw (replay, check_replay_attack) e, ground arith)
        ]
        | inr new ↦ (
          ad.created_at,
          rw (new, check_replay_attack) (get-set_self (seen_key lib ad) (ad.created_at) seen),
          omega arith,
        )
      ]

  -- No advertisement lowers what is recorded under a key.
  check_replay_attack-keeps :
      (ad : Ad lib) (key : String) (created : ℕ) (seen : Dict String ℕ)
      → 0 < created
      → HasSeen key created seen
      → HasSeen key created (check_replay_attack lib ad seen).0
  unfolding check_replay_attack
  check_replay_attack-keeps ad key created seen pos (t, at, le) =
      elim (Bool-cases (is_replay lib (ad.created_at) (Dict.get (seen_key lib ad) seen))) [
        | inl replay ↦ (t, rw (replay, check_replay_attack) at, le)
        | inr new ↦ elim (String_discrete (seen_key lib ad) key) [
          | yes same ↦
              let before : Dict.get (seen_key lib ad) seen ≡ some t = rw same at in
              let newer : created ≤ ad.created_at = ground arith in
              let written = get-set_self (seen_key lib ad) (ad.created_at) seen in
              (
                ad.created_at,
                rw (new, check_replay_attack)
                    (subst
                      (λ k.
                        Dict.get k (Dict.set (seen_key lib ad) (ad.created_at) seen)
                        ≡ some (ad.created_at))
                      same written),
                newer,
              )
          | no other ↦ (
            t,
            rw (new, check_replay_attack)
                (get-set_ne key (seen_key lib ad) (ad.created_at) seen other ∙ at),
            le,
          )
        ]
      ]

  validate_advertisement_state :
      (now : ℕ) (ad : Ad lib) (criteria : Option (Criteria Area)) (v : Validator (Ad lib))
      → let v' = (validate_advertisement lib now ad criteria v).0 in
        (v'.policy ≡ v.policy)
        × (v'.seen_advertisements ≡ (
            if v.policy.enable_replay_prevention
            then (check_replay_attack lib ad v.seen_advertisements).0
            else v.seen_advertisements))
  unfolding validate_advertisement check_replay get_reputation
  validate_advertisement_state now ad criteria v = ground arith

  -- A run of validations.
  pub validate_all :
      List (ℕ × Ad lib × Option (Criteria Area)) → Validator (Ad lib) → Validator (Ad lib)
  validate_all [] v = v
  validate_all ((now, ad, criteria) ∷ calls) v =
      validate_all calls (validate_advertisement lib now ad criteria v).0

  seen_after :
      (now : ℕ) (ad : Ad lib) (criteria : Option (Criteria Area)) (v : Validator (Ad lib))
      → v.policy.enable_replay_prevention ≡ true
      → let v' = (validate_advertisement lib now ad criteria v).0 in
        (v'.policy.enable_replay_prevention ≡ true)
        × (v'.seen_advertisements ≡ (check_replay_attack lib ad v.seen_advertisements).0)
  seen_after now ad criteria v on =
      let (p, s) = validate_advertisement_state now ad criteria v in
      let seen = v.seen_advertisements in
      (rw p on, s ∙ ap (λ b. if b then (check_replay_attack lib ad seen).0 else seen) on)

  validate_advertisement-keeps :
      (now : ℕ) (ad : Ad lib) (criteria : Option (Criteria Area)) (v : Validator (Ad lib))
      (key : String) (created : ℕ)
      → 0 < created
      → v.policy.enable_replay_prevention ≡ true
      → HasSeen key created v.seen_advertisements
      → let v' = (validate_advertisement lib now ad criteria v).0 in
        (v'.policy.enable_replay_prevention ≡ true) × HasSeen key created v'.seen_advertisements
  validate_advertisement-keeps now ad criteria v key created pos on h =
      let (on', s) = seen_after now ad criteria v on in
      (on', rw s (check_replay_attack-keeps ad key created v.seen_advertisements pos h))

  seen-not_newer :
      (key : String) (created again : ℕ) (seen : Dict String ℕ)
      → 0 < created
      → again ≤ created
      → HasSeen key created seen
      → IsNewer again (Dict.get key seen)
      → ⊥
  seen-not_newer key created again seen pos older (t, at, le) new = ground arith

  validate_all-keeps :
      (calls : List (ℕ × Ad lib × Option (Criteria Area))) (v : Validator (Ad lib)) (key : String)
      (created : ℕ)
      → 0 < created
      → v.policy.enable_replay_prevention ≡ true
      → HasSeen key created v.seen_advertisements
      → let v' = validate_all calls v in
        (v'.policy.enable_replay_prevention ≡ true) × HasSeen key created v'.seen_advertisements
  unfolding validate_all
  validate_all-keeps [] v key created pos on h = (on, h)
  validate_all-keeps ((now, ad, criteria) ∷ calls) v key created pos on h =
      let (same, h') = validate_advertisement-keeps now ad criteria v key created pos on h in
      validate_all-keeps calls _ key created pos same h'

  -- With replay prevention on, an advertisement that was validated, with whatever result, makes
  -- every later one of the same peer and id invalid that is not newer, after any validations in
  -- between and at any time, if its creation time is not 0.
  pub validate_advertisement-no_replay :
      (ad again : Ad lib) (criteria criteria' : Option (Criteria Area)) (now later : ℕ)
      (calls : List (ℕ × Ad lib × Option (Criteria Area))) (v : Validator (Ad lib))
      → v.policy.enable_replay_prevention ≡ true
      → seen_key lib again ≡ seen_key lib ad
      → 0 < ad.created_at
      → again.created_at ≤ ad.created_at
      → (validate_advertisement lib later again criteria'
          (validate_all calls (validate_advertisement lib now ad criteria v).0)).1.valid
        ≡ false
  validate_advertisement-no_replay ad again criteria criteria' now later calls v on same pos older =
      let v' = (validate_advertisement lib now ad criteria v).0 in
      let (on', s) = seen_after now ad criteria v on in
      let recorded : HasSeen (seen_key lib ad) (ad.created_at) v'.seen_advertisements =
        rw s (check_replay_attack-records ad v.seen_advertisements pos) in
      let (on'', kept) =
        validate_all-keeps calls v' (seen_key lib ad) (ad.created_at) pos on' recorded in
      let end = validate_all calls v' in
      let known : HasSeen (seen_key lib again) (ad.created_at) end.seen_advertisements =
        subst (λ k. HasSeen k (ad.created_at) end.seen_advertisements) (sym same) kept in
      elim (Bool-cases (validate_advertisement lib later again criteria' end).1.valid) [
        | inr refused ↦ refused
        | inl valid ↦
            elim ((validate_advertisement_iff lib later again criteria' end).0 valid).fresh [
              | inl off ↦ absurd (ground (arith, off, on''))
              | inr new ↦ absurd (
                  seen-not_newer (seen_key lib again) (ad.created_at) (again.created_at)
                    end.seen_advertisements pos older known new)
            ]
      ]
