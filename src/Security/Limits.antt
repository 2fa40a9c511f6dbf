-- ===== src/Security/Limits.antt =====
-- CORE_P2P_SECURITY_LIMITS of lib/types.ts.
use xpi_p2p_ts.Base.{ℕ, ◌*◌}

pub record Limits : Type 0 where
  pub max_p2p_message_size : ℕ
  pub min_dht_announcement_interval : ℕ
  pub max_dht_resources_per_peer : ℕ
  pub max_dht_resources_per_type_per_peer : ℕ
  pub dht_cleanup_interval : ℕ
  pub max_invalid_messages_per_peer : ℕ

abbrev pub core_p2p_security_limits : Limits
core_p2p_security_limits = record {
  max_p2p_message_size = 100_000;
  min_dht_announcement_interval = 30_000;
  max_dht_resources_per_peer = 100;
  max_dht_resources_per_type_per_peer = 20;
  dht_cleanup_interval = 5 * 60 * 1000;
  max_invalid_messages_per_peer = 20;
}
