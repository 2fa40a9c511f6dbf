-- ===== src/Security/Manager/Gate.antt =====
-- Who passes CoreSecurityManager.canAnnounceToDHT (lib/security.ts).
use xpi_p2p_ts.Security.ResourceTracker.Room.{HasRoomFor, can_announce_resource_iff}
use xpi_p2p_ts.Security.ResourceTracker.{names_of, types_of, get_or_empty, resource_key}
use xpi_p2p_ts.Dict
use xpi_p2p_ts.Dict.{Dict}
use xpi_p2p_ts.Security.ResourceTracker.{can_announce_resource}
use xpi_p2p_ts.Security.RateLimiter.Spacing.{IsSpaced, can_announce_iff}
use xpi_p2p_ts.Security.BanManager.Escalation.{IsOver, is_allowed_iff}
use xpi_p2p_ts.Security.Manager.{
  Manager, Validator, ask_validator, check_resources, check_rate, check_ban, can_announce_to_dht,
  find_validator_for_resource_type, min_interval, may_announce, is_valid_data,
}
use xpi_p2p_ts.Base.{
  ℕ, ◌≡◌, refl, String, string_key, Option, none, some, arith, Bool, true, false, if◌then◌else◌,
}

-- A test that guards an answer holds where the answer is yes, if it is no on the other branch.
guarded :
    {A : Type 0} (b : Bool) (x : A × Bool) (y : A)
    → (if b then x else (y, false)).1 ≡ true
    → (b ≡ true) × (x.1 ≡ true)
guarded true x y h = (refl, h)
guarded false x y h = absurd (ground arith)

module _ {D : Type 0} where
  -- The validator found for a type, if there is one, allows the peer and accepts the data.
  abbrev pub Approves : String → String → D → String → Option (Validator D) → Type 0
  Approves type id d peer none = Unit
  Approves type id d peer (some v) =
      (may_announce type peer v ≡ true) × (is_valid_data type id d peer v ≡ true)

  pub record Passed (now : ℕ) (peer type id : String) (d : D) (mgr : Manager D) : Type 0 where
    pub not_listed : Dict.get peer mgr.peer_ban_manager.blacklist ≡ none
    pub not_banned : IsOver now (Dict.get peer mgr.peer_ban_manager.temp_bans)
    pub spaced :
        IsSpaced (min_interval mgr) now (Dict.get peer mgr.dht_rate_limiter.last_announcement)
    pub has_room : HasRoomFor 100 (resource_key type id) (names_of peer mgr.resource_tracker)
    pub has_room_in_type :
        HasRoomFor 20 id (get_or_empty (Dict.get type (types_of peer mgr.resource_tracker)))
    pub approved : Approves type id d peer (find_validator_for_resource_type type mgr)

  ask_validator-Approves :
      (now : ℕ) (peer type id : String) (d : D) (v : Option (Validator D)) (mgr : Manager D)
      → (ask_validator now peer type id d v mgr).1 ≡ true
      → Approves type id d peer v
  unfolding ask_validator
  ask_validator-Approves now peer type id d none mgr h = tt
  ask_validator-Approves now peer type id d (some v) mgr h = ground arith

  check_resources-passed :
      (now : ℕ) (peer type id : String) (d : D) (mgr : Manager D)
      → (check_resources now peer type id d mgr).1 ≡ true
      → ((can_announce_resource peer type id mgr.resource_tracker).1 ≡ true)
        × Approves type id d peer (find_validator_for_resource_type type mgr)
  unfolding check_resources find_validator_for_resource_type
  check_resources-passed now peer type id d mgr h =
      let (ok, asked) = guarded _ _ _ h in (ok, ask_validator-Approves now peer type id d _ _ asked)

  check_rate-passed :
      (now : ℕ) (peer type id : String) (d : D) (mgr : Manager D)
      → (check_rate now peer type id d mgr).1 ≡ true
      → IsSpaced (min_interval mgr) now (Dict.get peer mgr.dht_rate_limiter.last_announcement)
        × ((can_announce_resource peer type id mgr.resource_tracker).1 ≡ true)
        × Approves type id d peer (find_validator_for_resource_type type mgr)
  unfolding check_rate find_validator_for_resource_type
  check_rate-passed now peer type id d mgr h =
      let (ok, later) = guarded _ _ _ h in
      let (room, approved) = check_resources-passed now peer type id d _ later in
      ((can_announce_iff peer (min_interval mgr) now mgr.dht_rate_limiter).0 ok, room, approved)

  -- If checks are not disabled, a resource is announced only for a peer that is not on the
  -- blacklist and whose temporary ban, if any, is over, that keeps the interval to its last
  -- accepted announcement, if that has a time above 0, whose 100 resources and 20 of the type have
  -- room for it or have it already, and whom the validator of the type, if there is one, allows
  -- the resource with its data.
  pub can_announce_to_dht-Passed :
      (now : ℕ) (peer type id : String) (d : D) (mgr : Manager D)
      → mgr.disable_rate_limiting ≡ false
      → (can_announce_to_dht now peer type id d mgr).1 ≡ true
      → Passed now peer type id d mgr
  unfolding can_announce_to_dht check_ban find_validator_for_resource_type
  can_announce_to_dht-Passed now peer type id d mgr on h =
      let (ok, later) = guarded _ _ _ (rw on at h) in
      let (allowed, not_over) = (is_allowed_iff now peer mgr.peer_ban_manager).0 ok in
      let (apart, room, approved) = check_rate-passed now peer type id d _ later in
      let free = (can_announce_resource_iff peer type id mgr.resource_tracker).0 room in
      record {
        not_listed = allowed;
        not_banned = not_over;
        spaced = apart;
        has_room = free.0;
        has_room_in_type = free.1;
        approved = approved;
      }
