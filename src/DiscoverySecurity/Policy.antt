-- ===== src/DiscoverySecurity/Policy.antt =====
-- The policies of lib/discovery/types.ts and lib/discovery/security.ts.
use text.Mathlib.Text.{◌==◌ as same_text}
use xpi_p2p_ts.Base.{ℕ, ◌*◌, if◌then◌else◌, String, Bool, true, Option, none, some, List, []}

pub record RateLimits : Type 0 where
  pub max_advertisements_per_peer : ℕ
  pub max_discovery_queries_per_peer : ℕ
  pub window_size_ms : ℕ

-- What a custom validator does: it answers, or it throws.
pub data Verdict : Type 0 where
  answers : Bool → Verdict
  throws : Verdict

pub record SecurityPolicy (Ad : Type 0) : Type 0 where
  pub min_reputation : ℕ
  pub max_advertisement_age : ℕ
  pub enable_signature_verification : Bool
  pub enable_replay_prevention : Bool
  pub enable_rate_limiting : Bool
  pub rate_limits : RateLimits
  pub custom_validators : List (Ad → Verdict)

abbrev pub default_security_policy : {Ad : Type 0} → SecurityPolicy Ad
default_security_policy = record {
  min_reputation = 50;
  max_advertisement_age = 60 * 60 * 1000;
  enable_signature_verification = true;
  enable_replay_prevention = true;
  enable_rate_limiting = true;
  rate_limits = record {
    max_advertisements_per_peer = 5;
    max_discovery_queries_per_peer = 20;
    window_size_ms = 60 * 1000;
  };
  custom_validators = [];
}

-- `Partial<SecurityPolicy>`
pub record Overrides (Ad : Type 0) : Type 0 where
  pub min_reputation : Option ℕ
  pub max_advertisement_age : Option ℕ
  pub enable_signature_verification : Option Bool
  pub enable_replay_prevention : Option Bool
  pub enable_rate_limiting : Option Bool
  pub rate_limits : Option RateLimits
  pub custom_validators : Option (List (Ad → Verdict))

abbrev pub given {ℓ} : {A : Type ℓ} → A → Option A → A
given a none = a
given a (some b) = b

-- The spread `{ ...base, ...overrides }`.
abbrev pub spread : {Ad : Type 0} → SecurityPolicy Ad → Overrides Ad → SecurityPolicy Ad
spread p o = record {
  min_reputation = given p.min_reputation o.min_reputation;
  max_advertisement_age = given p.max_advertisement_age o.max_advertisement_age;
  enable_signature_verification =
      given p.enable_signature_verification o.enable_signature_verification;
  enable_replay_prevention = given p.enable_replay_prevention o.enable_replay_prevention;
  enable_rate_limiting = given p.enable_rate_limiting o.enable_rate_limiting;
  rate_limits = given p.rate_limits o.rate_limits;
  custom_validators = given p.custom_validators o.custom_validators;
}

unfoldable pub create_security_policy : {Ad : Type 0} → String → Overrides Ad → SecurityPolicy Ad
create_security_policy protocol o =
    let base = default_security_policy in
    if same_text protocol "musig2"
    then spread (record base { min_reputation = 70; max_advertisement_age = 30 * 60 * 1000 }) o
    else if same_text protocol "swapsig"
    then spread (record base { min_reputation = 60; max_advertisement_age = 60 * 60 * 1000 }) o
    else spread base o
