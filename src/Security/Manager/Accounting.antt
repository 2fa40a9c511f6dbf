-- ===== src/Security/Manager/Accounting.antt =====
-- The metrics of CoreSecurityManager (lib/security.ts).
use xpi_p2p_ts.Security.ResourceTracker.{can_announce_resource}
use xpi_p2p_ts.Security.RateLimiter.{can_announce}
use xpi_p2p_ts.Security.BanManager
use xpi_p2p_ts.Security.BanManager.{Event, BanManager, warn_peer, is_allowed}
use xpi_p2p_ts.Security.Manager.{
  Manager, Validator, Metrics, on_event, on_events, warn, ask_validator, check_resources,
  check_rate, check_ban, can_announce_to_dht, find_validator_for_resource_type, count_total,
  count_rejected, count_rate_limited, min_interval,
}
use xpi_p2p_ts.Base.{
  ℕ, ◌+◌, ◌≡◌, refl, ◌∙◌, String, Option, none, some, List, [], ◌∷◌, arith, Bool, if◌then◌else◌,
}

on_event_dht : (e : Event) (m : Metrics) → (on_event e m).dht_announcements ≡ m.dht_announcements
on_event_dht (BanManager.banned peer reason) m = refl
on_event_dht _ m = refl

on_events_dht :
    (es : List Event) (m : Metrics) → (on_events es m).dht_announcements ≡ m.dht_announcements
unfolding on_events
on_events_dht [] m = refl
on_events_dht (e ∷ es) m = on_events_dht es (on_event e m) ∙ on_event_dht e m

module _ {D : Type 0} where
  warn_dht :
      (now : ℕ) (peer reason : String) (mgr : Manager D)
      → (warn now peer reason mgr).metrics.dht_announcements ≡ mgr.metrics.dht_announcements
  unfolding warn
  warn_dht now peer reason mgr =
      on_events_dht (warn_peer now peer reason (mgr.peer_ban_manager, [])).1 mgr.metrics

  -- A step that answers yes counts nothing, one that answers no counts one refusal.
  abbrev pub Counted : Manager D → Manager D × Bool → Type 0
  Counted mgr r =
      let before = mgr.metrics.dht_announcements in
      let after = r.0.metrics.dht_announcements in
      (after.total ≡ before.total)
      × (after.rejected + after.rate_limited ≡ (
          if r.1
          then before.rejected + before.rate_limited
          else before.rejected + before.rate_limited + 1))

  ask_validator-Counted :
      (now : ℕ) (peer type id : String) (d : D) (v : Option (Validator D)) (mgr : Manager D)
      → Counted mgr (ask_validator now peer type id d v mgr)
  unfolding ask_validator
  ask_validator-Counted now peer type id d none mgr = (refl, refl)
  ask_validator-Counted now peer type id d (some v) mgr =
      ground (arith, warn_dht now peer "invalid-dht-announcement" (count_rejected mgr))

  check_resources-Counted :
      (now : ℕ) (peer type id : String) (d : D) (mgr : Manager D)
      → Counted mgr (check_resources now peer type id d mgr)
  unfolding check_resources
  check_resources-Counted now peer type id d mgr =
      let r = can_announce_resource peer type id mgr.resource_tracker in
      let tracked = record mgr { resource_tracker = r.0 } in
      ground (
        arith,
        ask_validator-Counted now peer type id d (find_validator_for_resource_type type tracked)
            tracked,
        warn_dht now peer "dht-resource-limit-exceeded" (count_rejected tracked),
      )

  check_rate-Counted :
      (now : ℕ) (peer type id : String) (d : D) (mgr : Manager D)
      → Counted mgr (check_rate now peer type id d mgr)
  unfolding check_rate
  check_rate-Counted now peer type id d mgr =
      let r = can_announce peer (min_interval mgr) now mgr.dht_rate_limiter in
      let limited = record mgr { dht_rate_limiter = r.0 } in
      ground (
        arith,
        check_resources-Counted now peer type id d limited,
        warn_dht now peer "dht-rate-limit-violation" (count_rate_limited limited),
      )

  check_ban-Counted :
      (now : ℕ) (peer type id : String) (d : D) (mgr : Manager D)
      → Counted mgr (check_ban now peer type id d mgr)
  unfolding check_ban
  check_ban-Counted now peer type id d mgr =
      let r = is_allowed now peer mgr.peer_ban_manager in
      ground (arith, check_rate-Counted now peer type id d (record mgr { peer_ban_manager = r.0 }))

  -- Every announcement is counted once in the total; a refused one is counted once more, as
  -- rejected or as rate limited, and an accepted one is not.
  pub can_announce_to_dht-counts :
      (now : ℕ) (peer type id : String) (d : D) (mgr : Manager D)
      → let r = can_announce_to_dht now peer type id d mgr in
        let before = mgr.metrics.dht_announcements in
        let after = r.0.metrics.dht_announcements in
        (after.total ≡ before.total + 1)
        × (after.rejected + after.rate_limited ≡ (
            if r.1
            then before.rejected + before.rate_limited
            else before.rejected + before.rate_limited + 1))
  unfolding can_announce_to_dht
  can_announce_to_dht-counts now peer type id d mgr =
      ground (arith, check_ban-Counted now peer type id d (count_total mgr))

  -- A run of announcements, with the number of those that were accepted.
  pub announce_all : List (ℕ × String × String × String × D) → Manager D → Manager D × ℕ
  announce_all [] mgr = (mgr, 0)
  announce_all ((now, peer, type, id, d) ∷ calls) mgr =
      let (mgr', ok) = can_announce_to_dht now peer type id d mgr in
      let (mgr'', n) = announce_all calls mgr' in (mgr'', if ok then n + 1 else n)

  -- Over any run the total grows by what was accepted, rejected and rate limited together.
  pub announce_all-total :
      (calls : List (ℕ × String × String × String × D)) (mgr : Manager D)
      → let r = announce_all calls mgr in
        let before = mgr.metrics.dht_announcements in
        let after = r.0.metrics.dht_announcements in
        after.total + before.rejected + before.rate_limited
        ≡ before.total + r.1 + after.rejected + after.rate_limited
  unfolding announce_all
  announce_all-total [] mgr = omega arith
  announce_all-total ((now, peer, type, id, d) ∷ calls) mgr = ground (
    arith,
    can_announce_to_dht-counts now peer type id d mgr,
    announce_all-total calls (can_announce_to_dht now peer type id d mgr).0,
  )
