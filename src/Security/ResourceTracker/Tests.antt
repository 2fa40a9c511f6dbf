-- ===== src/Security/ResourceTracker/Tests.antt =====
-- Runs of DHTResourceTracker (lib/security.ts).
use xpi_p2p_ts.Dict
use xpi_p2p_ts.Security.ResourceTracker.{
  get_resource_count, get_resource_count_by_type, init, can_announce_resource, remove_resource,
  with_types, add_resource, remove_name, remove_type,
}
use xpi_p2p_ts.Security.ResourceTracker.Bounds.{IsWithin, can_announce_resource-IsWithin}
use xpi_p2p_ts.Base.{◌≡◌, refl, string_key, String_discrete, arith}

init-IsWithin : IsWithin init
unfolding get_resource_count get_resource_count_by_type Dict.get
init-IsWithin = record { per_peer = λ p. omega arith; per_type = λ p t. omega arith }

added_and_removed : remove_resource "p" "t" "r" (can_announce_resource "p" "t" "r" init).0 ≡ init
unfolding can_announce_resource remove_resource add_resource with_types remove_name remove_type
    Dict.get Dict.set Dict.delete String_discrete
added_and_removed = refl

can_announce_resource-IsWithin_example : IsWithin (can_announce_resource "p" "t" "r" init).0
can_announce_resource-IsWithin_example =
    can_announce_resource-IsWithin "p" "t" "r" init init-IsWithin
