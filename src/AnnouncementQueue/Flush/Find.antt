-- ===== src/AnnouncementQueue/Flush/Find.antt =====
-- The items of a flush by key.
use xpi_p2p_ts.Dict
use xpi_p2p_ts.Dict.{Dict}
use xpi_p2p_ts.AnnouncementQueue.{QueuedAnnouncement}
use xpi_p2p_ts.AnnouncementQueue.Shape.{WellKeyed}
use xpi_p2p_ts.Base.{
  String, string_key, String_discrete, ◌≡◌, refl, ◌∷◌, [], ◌++◌, List, Option, none, some, arith,
  ite,
}

module _ {A : Type 0} where
  -- The first item of a batch with a key.
  unfoldable pub find : String → List (QueuedAnnouncement A) → Option (QueuedAnnouncement A)
  find k [] = none
  find k (x ∷ xs) = ite (String_discrete x.key k) (some x) (find k xs)

  abbrev pub UniqueKeys : List (QueuedAnnouncement A) → Type 0
  UniqueKeys [] = Unit
  UniqueKeys (x ∷ xs) = (find x.key xs ≡ none) × UniqueKeys xs

  pub find-append :
      (k : String) (xs ys : List (QueuedAnnouncement A))
      → find k (xs ++ ys) ≡ elim (find k xs) [ none ↦ find k ys | some x ↦ some x ]
  unfolding find
  find-append k [] ys = refl
  find-append k (x ∷ xs) ys = ground (arith, find-append k xs ys)

  pub UniqueKeys-left :
      (xs ys : List (QueuedAnnouncement A)) → UniqueKeys (xs ++ ys) → UniqueKeys xs
  UniqueKeys-left [] ys u = tt
  UniqueKeys-left (x ∷ xs) ys u =
      (ground (arith, u.0, find-append x.key xs ys), UniqueKeys-left xs ys u.1)

  pub UniqueKeys-right :
      (xs ys : List (QueuedAnnouncement A)) → UniqueKeys (xs ++ ys) → UniqueKeys ys
  UniqueKeys-right [] ys u = u
  UniqueKeys-right (x ∷ xs) ys u = UniqueKeys-right xs ys u.1

  -- A key found on the left is not found on the right.
  pub find-right-none :
      (k : String) (x : QueuedAnnouncement A) (xs ys : List (QueuedAnnouncement A))
      → UniqueKeys (xs ++ ys)
      → find k xs ≡ some x
      → find k ys ≡ none
  unfolding find
  find-right-none k x [] ys u h = cc
  find-right-none k x (y ∷ xs) ys u h =
      ground (arith, find-right-none k x xs ys u.1, find-append y.key xs ys)

  -- In a well-keyed map the items are found by the map's own keys.
  pub find-values :
      (k : String) (m : Dict String (QueuedAnnouncement A))
      → WellKeyed m
      → find k (Dict.values m) ≡ Dict.get k m
  unfolding find Dict.get
  find-values k [] w = refl
  find-values k ((j, x) ∷ m) w = ground (arith, find-values k m w.1)

  pub UniqueKeys-values :
      (m : Dict String (QueuedAnnouncement A))
      → WellKeyed m
      → Dict.Distinct m
      → UniqueKeys (Dict.values m)
  UniqueKeys-values [] w d = tt
  UniqueKeys-values ((j, x) ∷ m) w d =
      (ground (arith, find-values x.key m w.1, w.0, d.0), UniqueKeys-values m w.1 d.1)
