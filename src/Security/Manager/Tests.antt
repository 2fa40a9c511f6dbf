-- ===== src/Security/Manager/Tests.antt =====
-- Runs of CoreSecurityManager (lib/security.ts).
use xpi_p2p_ts.Dict
use xpi_p2p_ts.Security.ResourceTracker
use xpi_p2p_ts.Security.RateLimiter
use xpi_p2p_ts.Security.BanManager
use xpi_p2p_ts.Security.ResourceTracker.{can_announce_resource, with_types}
use xpi_p2p_ts.Security.RateLimiter.{can_announce}
use xpi_p2p_ts.Security.BanManager.{is_allowed, warn_peer, ban_peer}
use xpi_p2p_ts.Security.Manager.{
  Manager, Validator, no_metrics, can_announce_to_dht, check_ban, check_rate, check_resources,
  ask_validator, find_validator_for_resource_type, find_prefix,
}
use xpi_p2p_ts.Security.Manager.Accounting.{announce_all, announce_all-total}
use xpi_p2p_ts.Security.Manager.Gate.{Passed, can_announce_to_dht-Passed}
use xpi_p2p_ts.Base.{
  ℕ, ◌+◌, ◌≡◌, refl, String, string_key, String_discrete, none, some, List, [], ◌∷◌, false,
  is_nonzero,
}

-- A validator that refuses the data 0.
abbrev strict : Validator ℕ
strict = record {
  can_announce_resource = none;
  validate_resource_announcement = some (λ type id d peer. is_nonzero d);
}

abbrev manager : Manager ℕ
manager = record {
  dht_rate_limiter = RateLimiter.init;
  resource_tracker = ResourceTracker.init;
  peer_ban_manager = BanManager.init;
  protocol_validators = ("musig2", strict) ∷ [];
  metrics = no_metrics;
  disable_rate_limiting = false;
  custom_interval = some 50;
}

can_announce_to_dht-Passed_example : Passed 1000 "p" "musig2-session" "r" 3 manager
unfolding can_announce_to_dht check_ban check_rate check_resources ask_validator
    find_validator_for_resource_type find_prefix is_allowed can_announce can_announce_resource
    with_types Dict.get Dict.set String_discrete
can_announce_to_dht-Passed_example =
    can_announce_to_dht-Passed 1000 "p" "musig2-session" "r" 3 manager refl refl

abbrev calls : List (ℕ × String × String × String × ℕ)
calls = (1000, "p", "t", "r", 3) ∷ (1010, "p", "t", "s", 3) ∷ []

announce_all-total_example :
    (announce_all calls manager).0.metrics.dht_announcements.total + 0 + 0
    ≡ 0
      + (announce_all calls manager).1
      + (announce_all calls manager).0.metrics.dht_announcements.rejected
      + (announce_all calls manager).0.metrics.dht_announcements.rate_limited
announce_all-total_example = announce_all-total calls manager
