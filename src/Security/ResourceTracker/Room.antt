-- ===== src/Security/ResourceTracker/Room.antt =====
-- When DHTResourceTracker (lib/security.ts) has room for a resource.
use xpi_p2p_ts.Dict
use xpi_p2p_ts.Security.ResourceTracker.{
  ResourceTracker, Names, can_announce_resource, names_of, types_of, get_or_empty, resource_key,
}
use xpi_p2p_ts.Security.ResourceTracker.Bounds.{types_of-with_types}
use xpi_p2p_ts.Base.{ℕ, ◌<◌, ◌≡◌, ap, ◌⊎◌, ◌↔◌, String, string_key, true, arith}

-- A set has room for a name: it is below the limit, or it has the name already.
abbrev pub HasRoomFor : ℕ → String → Names → Type 0
HasRoomFor limit name names = (Dict.size names < limit) ⊎ (Dict.has name names ≡ true)

-- A resource is accepted exactly if the peer's set of all resources, with its limit of 100, and
-- that of its type, with its limit of 20, each have room for it or have it already.
pub can_announce_resource_iff :
    (peer type id : String) (rt : ResourceTracker)
    → ((can_announce_resource peer type id rt).1 ≡ true) ↔ (
        HasRoomFor 100 (resource_key type id) (names_of peer rt)
        × HasRoomFor 20 id (get_or_empty (Dict.get type (types_of peer rt))))
unfolding can_announce_resource
can_announce_resource_iff peer type id rt =
    ground
      (arith, ap (λ types. get_or_empty (Dict.get type types)) (types_of-with_types peer peer rt))
