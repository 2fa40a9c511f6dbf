-- ===== src/DiscoverySecurity/Tests.antt =====
-- Runs of the reputations and rate limits of lib/discovery/security.ts.
use xpi_p2p_ts.Dict
use xpi_p2p_ts.DiscoverySecurity.Policy.{Overrides, default_security_policy, create_security_policy}
use xpi_p2p_ts.DiscoverySecurity.{Validator, Operation, update_reputation}
use xpi_p2p_ts.DiscoverySecurity.Reputation.{AreBounded, update_reputation-AreBounded}
use xpi_p2p_ts.DiscoverySecurity.RateLimit.{run_allowed, run_allowed-le}
use xpi_p2p_ts.Base.{
  ℕ, ◌-◌, ◌≤◌, ◌≡◌, refl, String, string_key, String_discrete, none, some, List, [], ◌∷◌, false,
  arith,
}

abbrev no_overrides : Overrides ℕ
no_overrides = record {
  min_reputation = none;
  max_advertisement_age = none;
  enable_signature_verification = none;
  enable_replay_prevention = none;
  enable_rate_limiting = some false;
  rate_limits = none;
  custom_validators = none;
}

musig2_policy :
    ((create_security_policy "musig2" no_overrides).min_reputation ≡ 70)
    × ((create_security_policy "musig2" no_overrides).enable_rate_limiting ≡ false)
unfolding create_security_policy
musig2_policy = (refl, refl)

abbrev empty : Validator ℕ
empty = record {
  reputation_data = [];
  seen_advertisements = [];
  rate_limit_tracker = [];
  policy = default_security_policy;
}

empty-AreBounded : AreBounded empty
unfolding Dict.get
empty-AreBounded peer r at = absurd (ground arith)

abbrev counting : Validator ℕ
counting = record {
  reputation_data = [];
  seen_advertisements = [];
  rate_limit_tracker = ("p:advertise", record { count = 3; window_start = 1000 }) ∷ [];
  policy = default_security_policy;
}

update_reputation-AreBounded_example : AreBounded (update_reputation 10 "p" false 3 none empty)
update_reputation-AreBounded_example =
    update_reputation-AreBounded 10 "p" false 3 none empty empty-AreBounded

abbrev calls : List (ℕ × String)
calls = (1001, "p") ∷ (1002, "q") ∷ (1003, "p") ∷ (1004, "p") ∷ []

run_allowed-le_example : run_allowed "p:advertise" Operation.advertise calls counting ≤ 5 - 3
unfolding Dict.get String_discrete
run_allowed-le_example =
    run_allowed-le "p:advertise" Operation.advertise calls counting
      (record { count = 3; window_start = 1000 }) refl refl
      (omega arith, (omega arith, (omega arith, (omega arith, tt))))
