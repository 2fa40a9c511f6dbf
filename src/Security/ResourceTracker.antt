-- ===== src/Security/ResourceTracker.antt =====
-- DHTResourceTracker of lib/security.ts. A `Set` is a map to `Unit`.
mod Tests
pub mod Bounds
pub mod Room
use Prim.Native.String.{◌++◌ as text_append}
use xpi_p2p_ts.Dict
use xpi_p2p_ts.Dict.{Dict}
use xpi_p2p_ts.Security.Limits.{core_p2p_security_limits}
use xpi_p2p_ts.Base.{
  ℕ, leb, ◌==◌, if◌then◌else◌, not, ◌&&◌, String, string_key, Bool, true, false, Option, none, some,
  List, [], ◌∷◌,
}

abbrev pub Names : Type 0
Names = Dict String (Unit {0})

pub record ResourceTracker : Type 0 where
  pub peer_resources : Dict String Names
  pub peer_resources_by_type : Dict String (Dict String Names)

abbrev pub init : ResourceTracker
init = record { peer_resources = []; peer_resources_by_type = [] }

abbrev pub resource_key : String → String → String
resource_key type id = text_append type (text_append ":" id)

-- `map.get(key) || new Set()`
abbrev pub get_or_empty {ℓ} : {A : Type ℓ} → Option (List A) → List A
get_or_empty none = []
get_or_empty (some s) = s

abbrev pub names_of : String → ResourceTracker → Names
names_of peer rt = get_or_empty (Dict.get peer rt.peer_resources)

abbrev pub types_of : String → ResourceTracker → Dict String Names
types_of peer rt = get_or_empty (Dict.get peer rt.peer_resources_by_type)

-- `size >= limit && !set.has(name)`
abbrev pub is_full : ℕ → String → Names → Bool
is_full limit name names = leb limit (Dict.size names) && not (Dict.has name names)

-- The map of a peer's types is made before the second test.
unfoldable pub with_types : String → ResourceTracker → ResourceTracker
with_types peer rt = elim (Dict.get peer rt.peer_resources_by_type) [
  | none ↦ record rt { peer_resources_by_type = Dict.set peer [] rt.peer_resources_by_type }
  | some _ ↦ rt
]

pub add_resource : String → String → String → ResourceTracker → ResourceTracker
add_resource peer type id rt =
    let types = types_of peer rt in
    let names = Dict.set id tt (get_or_empty (Dict.get type types)) in
    record {
      peer_resources =
          Dict.set peer (Dict.set (resource_key type id) tt (names_of peer rt)) rt.peer_resources;
      peer_resources_by_type = Dict.set peer (Dict.set type names types) rt.peer_resources_by_type;
    }

unfoldable pub can_announce_resource :
    String → String → String → ResourceTracker → ResourceTracker × Bool
can_announce_resource peer type id rt =
    let limits = core_p2p_security_limits in
    if is_full limits.max_dht_resources_per_peer (resource_key type id) (names_of peer rt)
    then (rt, false)
    else let rt' = with_types peer rt in
      if is_full limits.max_dht_resources_per_type_per_peer id
        (get_or_empty (Dict.get type (types_of peer rt')))
      then (rt', false)
      else (add_resource peer type id rt', true)

-- A set without a name, which is dropped itself once it is empty.
abbrev pub store_or_drop :
    {A : Type 0} → String → List A → Dict String (List A) → Dict String (List A)
store_or_drop key [] m = Dict.delete key m
store_or_drop key (x ∷ s) m = Dict.set key (x ∷ s) m

pub remove_name : String → String → Dict String Names → Dict String Names
remove_name key name m = elim (Dict.get key m) [
  | none ↦ m
  | some names ↦ store_or_drop key (Dict.delete name names) m
]

pub remove_type : String → String → String → ResourceTracker → Dict String (Dict String Names)
remove_type peer type id rt = elim (Dict.get peer rt.peer_resources_by_type) [
  | none ↦ rt.peer_resources_by_type
  | some types ↦ store_or_drop peer (remove_name type id types) rt.peer_resources_by_type
]

unfoldable pub remove_resource : String → String → String → ResourceTracker → ResourceTracker
unfolding remove_name remove_type
remove_resource peer type id rt = record {
  peer_resources = remove_name peer (resource_key type id) rt.peer_resources;
  peer_resources_by_type = remove_type peer type id rt;
}

pub get_resource_count : String → ResourceTracker → ℕ
get_resource_count peer rt = Dict.size (names_of peer rt)

pub get_resource_count_by_type : String → String → ResourceTracker → ℕ
get_resource_count_by_type peer type rt =
    Dict.size (get_or_empty (Dict.get type (types_of peer rt)))
