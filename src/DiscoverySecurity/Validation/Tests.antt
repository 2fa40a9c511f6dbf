-- ===== src/DiscoverySecurity/Validation/Tests.antt =====
-- Runs of validateAdvertisement (lib/discovery/security.ts).
use xpi_p2p_ts.Dict
use xpi_p2p_ts.DiscoverySecurity.Policy.{default_security_policy}
use xpi_p2p_ts.DiscoverySecurity.{
  Platform, Validator, get_reputation, validate_signature, check_replay_attack,
}
use xpi_p2p_ts.DiscoverySecurity.Validation.{
  Ad, validate_advertisement, check_times, check_signature, check_reputation, check_replay,
  check_criteria, check_custom,
}
use xpi_p2p_ts.DiscoverySecurity.Validation.Accepted.{Passes, validate_advertisement_iff}
use xpi_p2p_ts.DiscoverySecurity.Validation.Replays.{validate_all, validate_advertisement-no_replay}
use xpi_p2p_ts.Base.{ℕ, ◌≡◌, ◌↔◌, refl, string_key, none, some, [], ◌∷◌, true, false, arith, ◌==◌}

-- Keys, signatures and places are numbers; a signature is valid if it is the key.
abbrev toy : Platform ℕ ℕ ℕ ℕ ℕ
toy = record {
  show_number = λ n. "n";
  stringify_list = λ l. "[]";
  stringify = λ j. "{}";
  schnorr_verify = λ text sig key. some (sig == key);
  is_beyond = λ area place. false;
}

abbrev ad : Ad toy
ad = record {
  id = "1";
  protocol = "musig2";
  peer_info = record { peer_id = "p"; multiaddrs = none; public_key = some 5 };
  capabilities = [];
  signature = some 5;
  created_at = 1000;
  expires_at = 2000;
  reputation = 80;
  custom_criteria = none;
  location = none;
}

abbrev empty : Validator (Ad toy)
empty = record {
  reputation_data = [];
  seen_advertisements = [];
  rate_limit_tracker = [];
  policy = default_security_policy;
}

accepts : (validate_advertisement toy 1500 ad none empty).1.valid ≡ true
unfolding validate_advertisement check_times check_signature check_reputation check_replay
    check_criteria check_custom validate_signature get_reputation check_replay_attack Dict.get
    Dict.set
accepts = refl

validate_advertisement_iff_example :
    ((validate_advertisement toy 1500 ad none empty).1.valid ≡ true) ↔ Passes toy 1500 ad none empty
validate_advertisement_iff_example = validate_advertisement_iff toy 1500 ad none empty

validate_advertisement-no_replay_example :
    (validate_advertisement toy 1700 ad none (
      validate_all toy
        ((1600, ad, none) ∷ [])
        (validate_advertisement toy 1500 ad none empty).0)).1.valid
    ≡ false
validate_advertisement-no_replay_example =
    validate_advertisement-no_replay toy ad ad none none 1500 1700 ((1600, ad, none) ∷ []) empty
      refl refl (omega arith) (omega arith)
