-- ===== src/Security/Manager.antt =====
-- CoreSecurityManager of lib/security.ts, and the metrics of lib/types.ts. The validators are code
-- of the protocols: a record of optional functions; none throws.
mod Tests
pub mod Accounting
pub mod Gate
use text.Mathlib.Text.{starts_with}
use xpi_p2p_ts.Dict
use xpi_p2p_ts.Dict.{Dict}
use xpi_p2p_ts.Security.Limits.{core_p2p_security_limits}
use xpi_p2p_ts.Security.RateLimiter
use xpi_p2p_ts.Security.RateLimiter.{RateLimiter, can_announce}
use xpi_p2p_ts.Security.ResourceTracker
use xpi_p2p_ts.Security.ResourceTracker.{ResourceTracker, can_announce_resource}
use xpi_p2p_ts.Security.BanManager
use xpi_p2p_ts.Security.BanManager.{
  BanManager, Event, warn_peer, is_allowed, get_banned_count, get_warning_count,
}
use xpi_p2p_ts.Base.{
  ℕ, ◌+◌, if◌then◌else◌, String, string_key, Bool, true, false, Option, none, some, List, [], ◌∷◌,
}

pub record Validator (D : Type 0) : Type 0 where
  pub can_announce_resource : Option (String → String → Bool)
  pub validate_resource_announcement : Option (String → String → D → String → Bool)

pub record AnnouncementMetrics : Type 0 where
  pub total : ℕ
  pub rejected : ℕ
  pub rate_limited : ℕ

pub record MessageMetrics : Type 0 where
  pub total : ℕ
  pub rejected : ℕ
  pub oversized : ℕ

pub record PeerMetrics : Type 0 where
  pub banned : ℕ
  pub warnings : ℕ

pub record Metrics : Type 0 where
  pub dht_announcements : AnnouncementMetrics
  pub messages : MessageMetrics
  pub peers : PeerMetrics

abbrev pub no_metrics : Metrics
no_metrics = record {
  dht_announcements = record { total = 0; rejected = 0; rate_limited = 0 };
  messages = record { total = 0; rejected = 0; oversized = 0 };
  peers = record { banned = 0; warnings = 0 };
}

pub record Manager (D : Type 0) : Type 0 where
  pub dht_rate_limiter : RateLimiter
  pub resource_tracker : ResourceTracker
  pub peer_ban_manager : BanManager
  pub protocol_validators : Dict String (Validator D)
  pub metrics : Metrics
  pub disable_rate_limiting : Bool
  pub custom_interval : Option ℕ

-- The two listeners on the ban manager.
abbrev pub on_event : Event → Metrics → Metrics
on_event (BanManager.banned peer reason) m = record m {
  peers = record { banned = m.peers.banned + 1; warnings = m.peers.warnings };
}
on_event (BanManager.warned peer count reason) m = record m {
  peers = record { banned = m.peers.banned; warnings = m.peers.warnings + 1 };
}
on_event _ m = m

pub on_events : List Event → Metrics → Metrics
on_events [] m = m
on_events (e ∷ es) m = on_events es (on_event e m)

module _ {D : Type 0} where
  -- `customLimits` is read for the interval only.
  pub init : Bool → Option ℕ → Manager D
  init disabled interval = record {
    dht_rate_limiter = RateLimiter.init;
    resource_tracker = ResourceTracker.init;
    peer_ban_manager = BanManager.init;
    protocol_validators = [];
    metrics = no_metrics;
    disable_rate_limiting = disabled;
    custom_interval = interval;
  }

  pub register_protocol_validator : String → Validator D → Manager D → Manager D
  register_protocol_validator name v mgr = record mgr {
    protocol_validators = Dict.set name v mgr.protocol_validators;
  }

  abbrev pub count_total : Manager D → Manager D
  count_total mgr =
      let d = mgr.metrics.dht_announcements in
      record mgr {
        metrics = record (mgr.metrics) { dht_announcements = record d { total = d.total + 1 } };
      }

  abbrev pub count_rejected : Manager D → Manager D
  count_rejected mgr =
      let d = mgr.metrics.dht_announcements in
      record mgr {
        metrics = record (mgr.metrics) {
          dht_announcements = record d { rejected = d.rejected + 1 };
        };
      }

  abbrev pub count_rate_limited : Manager D → Manager D
  count_rate_limited mgr =
      let d = mgr.metrics.dht_announcements in
      record mgr {
        metrics = record (mgr.metrics) {
          dht_announcements = record d { rate_limited = d.rate_limited + 1 };
        };
      }

  -- `peerBanManager.warnPeer`, with the listeners that its events reach.
  pub warn : ℕ → String → String → Manager D → Manager D
  warn now peer reason mgr =
      let (bm, events) = warn_peer now peer reason (mgr.peer_ban_manager, []) in
      record mgr { peer_ban_manager = bm; metrics = on_events events mgr.metrics }

  -- The first registered name that the resource type begins with.
  pub find_prefix : String → Dict String (Validator D) → Option (Validator D)
  find_prefix type [] = none
  find_prefix type ((name, v) ∷ m) = if starts_with type name then some v else find_prefix type m

  pub find_validator_for_resource_type : String → Manager D → Option (Validator D)
  unfolding find_prefix
  find_validator_for_resource_type type mgr = elim (Dict.get type mgr.protocol_validators) [
    | none ↦ find_prefix type mgr.protocol_validators
    | some v ↦ some v
  ]

  abbrev pub may_announce : String → String → Validator D → Bool
  may_announce type peer v = elim (v.can_announce_resource) [
    | none ↦ true
    | some allows ↦ allows type peer
  ]

  abbrev pub is_valid_data : String → String → D → String → Validator D → Bool
  is_valid_data type id d peer v = elim (v.validate_resource_announcement) [
    | none ↦ true
    | some accepts ↦ accepts type id d peer
  ]

  abbrev pub min_interval : Manager D → ℕ
  min_interval mgr = elim (mgr.custom_interval) [
    | none ↦ core_p2p_security_limits.min_dht_announcement_interval
    | some interval ↦ interval
  ]

  pub ask_validator :
      ℕ → String → String → String → D → Option (Validator D) → Manager D → Manager D × Bool
  ask_validator now peer type id d none mgr = (mgr, true)
  ask_validator now peer type id d (some v) mgr =
      if may_announce type peer v
      then if is_valid_data type id d peer v
        then (mgr, true)
        else (warn now peer "invalid-dht-announcement" (count_rejected mgr), false)
      else (count_rejected mgr, false)

  pub check_resources : ℕ → String → String → String → D → Manager D → Manager D × Bool
  check_resources now peer type id d mgr =
      let (tracker, ok) = can_announce_resource peer type id mgr.resource_tracker in
      let tracked = record mgr { resource_tracker = tracker } in
      if ok
      then ask_validator now peer type id d (find_validator_for_resource_type type tracked) tracked
      else (warn now peer "dht-resource-limit-exceeded" (count_rejected tracked), false)

  pub check_rate : ℕ → String → String → String → D → Manager D → Manager D × Bool
  check_rate now peer type id d mgr =
      let (limiter, ok) = can_announce peer (min_interval mgr) now mgr.dht_rate_limiter in
      let limited = record mgr { dht_rate_limiter = limiter } in
      if ok
      then check_resources now peer type id d limited
      else (warn now peer "dht-rate-limit-violation" (count_rate_limited limited), false)

  pub check_ban : ℕ → String → String → String → D → Manager D → Manager D × Bool
  check_ban now peer type id d mgr =
      let (bm, allowed) = is_allowed now peer mgr.peer_ban_manager in
      let asked = record mgr { peer_ban_manager = bm } in
      if allowed then check_rate now peer type id d asked else (count_rejected asked, false)

  unfoldable pub can_announce_to_dht :
      ℕ → String → String → String → D → Manager D → Manager D × Bool
  can_announce_to_dht now peer type id d mgr =
      let counted = count_total mgr in
      if counted.disable_rate_limiting
      then (counted, true)
      else check_ban now peer type id d counted

  pub record_message : Bool → Bool → Manager D → Manager D
  record_message valid oversized mgr =
      let m = mgr.metrics.messages in
      record mgr {
        metrics = record (mgr.metrics) {
          messages = record {
            total = m.total + 1;
            rejected = if valid then m.rejected else m.rejected + 1;
            oversized = if oversized then m.oversized + 1 else m.oversized;
          };
        };
      }

  pub cleanup : ℕ → Manager D → Manager D
  cleanup now mgr = record mgr { dht_rate_limiter = RateLimiter.cleanup now mgr.dht_rate_limiter }

  -- The counts of peers come from the ban manager.
  pub get_metrics : Manager D → Metrics
  get_metrics mgr = record (mgr.metrics) {
    peers = record {
      banned = get_banned_count mgr.peer_ban_manager;
      warnings = get_warning_count mgr.peer_ban_manager;
    };
  }

  pub reset_metrics : Manager D → Manager D
  reset_metrics mgr = record mgr { metrics = no_metrics }
