-- ===== src/Security/ResourceTracker/Bounds.antt =====
-- The limits that DHTResourceTracker (lib/security.ts) keeps.
use xpi_p2p_ts.Dict
use xpi_p2p_ts.Dict.{Dict}
use xpi_p2p_ts.Dict.Laws.{get-set, get-set_self, get-delete}
use xpi_p2p_ts.Dict.Size.{size-set_absent, size-set_present, size-delete-le}
use xpi_p2p_ts.Security.ResourceTracker.{
  ResourceTracker, Names, resource_key, get_or_empty, names_of, types_of, is_full, with_types,
  add_resource, can_announce_resource, remove_name, remove_type, remove_resource,
  get_resource_count, get_resource_count_by_type, store_or_drop,
}
use xpi_p2p_ts.Base.{
  ℕ, ◌≤◌, ◌≡◌, refl, String, string_key, String_discrete, List, [], ◌∷◌, arith, Bool-cases,
  Option-cases, inl, inr, true, false, ite, if◌then◌else◌,
}

-- No peer has more than 100 resources, nor more than 20 of one type.
pub record IsWithin (rt : ResourceTracker) : Type 0 where
  pub per_peer : (peer : String) → get_resource_count peer rt ≤ 100
  pub per_type : (peer type : String) → get_resource_count_by_type peer type rt ≤ 20

-- A name that a set is not full for leaves it within the limit.
size-set_not_full :
    (limit : ℕ) (name : String) (names : Names)
    → is_full limit name names ≡ false
    → Dict.size names ≤ limit
    → Dict.size (Dict.set name tt names) ≤ limit
size-set_not_full limit name names room within = elim (Option-cases (Dict.get name names)) [
  | inl new ↦ ground (arith, size-set_absent name tt names new)
  | inr (u, known) ↦ ground (arith, size-set_present name tt u names known)
]

pub types_of-with_types :
    (p peer : String) (rt : ResourceTracker) → types_of p (with_types peer rt) ≡ types_of p rt
unfolding with_types
types_of-with_types p peer rt = ground (arith, get-set p peer [] rt.peer_resources_by_type)

names_of-with_types :
    (p peer : String) (rt : ResourceTracker) → names_of p (with_types peer rt) ≡ names_of p rt
unfolding with_types
names_of-with_types p peer rt = ground arith

with_types-IsWithin :
    (peer : String) (rt : ResourceTracker) → IsWithin rt → IsWithin (with_types peer rt)
unfolding get_resource_count get_resource_count_by_type
with_types-IsWithin peer rt v = record {
  per_peer = λ p. ground (arith, names_of-with_types p peer rt, v.per_peer p);
  per_type = λ p t. ground (arith, types_of-with_types p peer rt, v.per_type p t);
}

add_resource-IsWithin :
    (peer type id : String) (rt : ResourceTracker)
    → is_full 100 (resource_key type id) (names_of peer rt) ≡ false
    → is_full 20 id (get_or_empty (Dict.get type (types_of peer rt))) ≡ false
    → IsWithin rt
    → IsWithin (add_resource peer type id rt)
unfolding add_resource get_resource_count get_resource_count_by_type
add_resource-IsWithin peer type id rt room room_in_type v = record {
  per_peer = λ p. ground (
    arith,
    v.per_peer p,
    v.per_peer peer,
    get-set p peer (Dict.set (resource_key type id) tt (names_of peer rt)) rt.peer_resources,
    size-set_not_full 100 (resource_key type id) (names_of peer rt) room,
  );
  per_type = λ p t.
      let types = types_of peer rt in
      let names = get_or_empty (Dict.get type types) in
      ground (
        arith,
        v.per_type p t,
        v.per_type peer type,
        v.per_type peer t,
        get-set p peer (Dict.set type (Dict.set id tt names) types) rt.peer_resources_by_type,
        get-set t type (Dict.set id tt names) types,
        size-set_not_full 20 id names room_in_type,
      );
}

add_resource_stored :
    (peer type id : String) (rt : ResourceTracker)
    → let r = add_resource peer type id rt in
      (Dict.has (resource_key type id) (names_of peer r) ≡ true)
      × (Dict.has id (get_or_empty (Dict.get type (types_of peer r))) ≡ true)
unfolding add_resource
add_resource_stored peer type id rt =
    let types = types_of peer rt in
    let names = Dict.set id tt (get_or_empty (Dict.get type types)) in
    let all = Dict.set (resource_key type id) tt (names_of peer rt) in
    (
      ground (
        arith,
        get-set_self peer all rt.peer_resources,
        get-set_self (resource_key type id) tt (names_of peer rt),
      ),
      ground (
        arith,
        get-set_self peer (Dict.set type names types) rt.peer_resources_by_type,
        get-set_self type names types,
        get-set_self id tt (get_or_empty (Dict.get type types)),
      ),
    )

-- An answer to an announcement, whichever it is, keeps both limits: 100 resources for each peer,
-- and 20 of one type.
pub can_announce_resource-IsWithin :
    (peer type id : String) (rt : ResourceTracker)
    → IsWithin rt
    → IsWithin (can_announce_resource peer type id rt).0
unfolding can_announce_resource
can_announce_resource-IsWithin peer type id rt v =
    let rt' = with_types peer rt in
    let names = get_or_empty (Dict.get type (types_of peer rt')) in
    elim (Bool-cases (is_full 100 (resource_key type id) (names_of peer rt))) [
      | inl full ↦ rw (full, can_announce_resource) v
      | inr room ↦ elim (Bool-cases (is_full 20 id names)) [
        | inl full ↦ rw (room, full, can_announce_resource) (with_types-IsWithin peer rt v)
        | inr room_in_type ↦
            rw (room, room_in_type, can_announce_resource)
              (add_resource-IsWithin peer type id rt'
                (ground (arith, names_of-with_types peer peer rt)) room_in_type
                (with_types-IsWithin peer rt v))
      ]
    ]

get-store_or_drop :
    {A : Type 0} (p key : String) (s : List A) (m : Dict String (List A))
    → get_or_empty (Dict.get p (store_or_drop key s m))
      ≡ ite (String_discrete key p) s (get_or_empty (Dict.get p m))
get-store_or_drop p key [] m = ground (arith, get-delete p key m)
get-store_or_drop p key (x ∷ s) m = ground (arith, get-set p key (x ∷ s) m)

size-remove_name-le :
    (p key name : String) (m : Dict String Names)
    → Dict.size (get_or_empty (Dict.get p (remove_name key name m)))
      ≤ Dict.size (get_or_empty (Dict.get p m))
unfolding remove_name
size-remove_name-le p key name m = elim (Option-cases (Dict.get key m)) [
  | inl e ↦ rw (e, remove_name) (omega arith)
  | inr (names, e) ↦
      rw (e, remove_name)
        (ground
          (arith, get-store_or_drop p key (Dict.delete name names) m, size-delete-le name names))
]

size-remove_type-le :
    (p peer t type id : String) (rt : ResourceTracker)
    → Dict.size
        (get_or_empty (Dict.get t (get_or_empty (Dict.get p (remove_type peer type id rt)))))
      ≤ Dict.size (get_or_empty (Dict.get t (types_of p rt)))
unfolding remove_type
size-remove_type-le p peer t type id rt =
    elim (Option-cases (Dict.get peer rt.peer_resources_by_type)) [
      | inl e ↦ rw (e, remove_type) (omega arith)
      | inr (types, e) ↦
          rw (e, remove_type)
            (ground (
              arith,
              get-store_or_drop p peer (remove_name type id types) rt.peer_resources_by_type,
              size-remove_name-le t type id types,
            ))
    ]

-- Removing a resource keeps both limits, 100 for each peer and 20 of one type.
pub remove_resource-IsWithin :
    (peer type id : String) (rt : ResourceTracker)
    → IsWithin rt
    → IsWithin (remove_resource peer type id rt)
unfolding remove_resource get_resource_count get_resource_count_by_type
remove_resource-IsWithin peer type id rt v = record {
  per_peer = λ p.
      omega
        (arith, v.per_peer p, size-remove_name-le p peer (resource_key type id) rt.peer_resources);
  per_type = λ p t. omega (arith, v.per_type p t, size-remove_type-le p peer t type id rt);
}

-- An accepted resource is stored for its peer, in the set of all and in that of its type; a
-- refused one changes no set.
pub can_announce_resource_stored :
    (peer type id : String) (rt : ResourceTracker)
    → let r = can_announce_resource peer type id rt in
      if r.1
      then (Dict.has (resource_key type id) (names_of peer r.0) ≡ true)
        × (Dict.has id (get_or_empty (Dict.get type (types_of peer r.0))) ≡ true)
      else ((p : String) → names_of p r.0 ≡ names_of p rt)
        × ((p : String) → types_of p r.0 ≡ types_of p rt)
unfolding can_announce_resource
can_announce_resource_stored peer type id rt =
    let rt' = with_types peer rt in
    let names = get_or_empty (Dict.get type (types_of peer rt')) in
    elim (Bool-cases (is_full 100 (resource_key type id) (names_of peer rt))) [
      | inl full ↦ rw (full, can_announce_resource) (λ p. refl, λ p. refl)
      | inr room ↦ elim (Bool-cases (is_full 20 id names)) [
        | inl full ↦
            rw (room, full, can_announce_resource)
              (λ p. names_of-with_types p peer rt, λ p. types_of-with_types p peer rt)
        | inr room_in_type ↦
            rw (room, room_in_type, can_announce_resource) (add_resource_stored peer type id rt')
      ]
    ]
