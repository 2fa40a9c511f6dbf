-- ===== src/Replay/Sorting.antt =====
-- The entries of the id memory by age, as `recordMessageId` (lib/musig2/replay-protection.ts)
-- sorts them.
use xpi_p2p_ts.Dict
use xpi_p2p_ts.Dict.{Dict}
use xpi_p2p_ts.Dict.Laws.{get-delete}
use xpi_p2p_ts.Dict.Size.{size-delete-le, size-delete_present-le}
use xpi_p2p_ts.Replay.{insert_entry, sort_entries, delete_first}
use xpi_p2p_ts.Base.{
  ℕ, zero, suc, ◌≤◌, ◌<◌, ◌≡◌, refl, ap, leb, String, string_key, none, some, List, [], ◌∷◌, take,
  All, arith, Bool-cases, Option-cases, inl, inr,
}

abbrev IsSorted : List (String × ℕ) → Type 0
IsSorted [] = Unit
IsSorted (e ∷ es) = All (λ x. e.1 ≤ x.1) es × IsSorted es

All-le-insert_entry :
    (t : ℕ) (e : String × ℕ) (es : List (String × ℕ))
    → t ≤ e.1
    → All (λ x. t ≤ x.1) es
    → All (λ x. t ≤ x.1) (insert_entry e es)
unfolding insert_entry
All-le-insert_entry t e [] h a = (h, tt)
All-le-insert_entry t e (x ∷ es) h a = ground (arith, All-le-insert_entry t e es h a.1)

All-le_mono :
    (s t : ℕ) (es : List (String × ℕ)) → s ≤ t → All (λ x. t ≤ x.1) es → All (λ x. s ≤ x.1) es
All-le_mono s t [] h a = tt
All-le_mono s t (x ∷ es) h a = (omega arith, All-le_mono s t es h a.1)

insert_entry-IsSorted :
    (e : String × ℕ) (es : List (String × ℕ)) → IsSorted es → IsSorted (insert_entry e es)
unfolding insert_entry
insert_entry-IsSorted e [] s = (tt, tt)
insert_entry-IsSorted e (x ∷ es) s = elim (Bool-cases (leb e.1 x.1)) [
  | inl le ↦
      let below : e.1 ≤ x.1 = ground arith in rw le ((below, All-le_mono e.1 x.1 es below s.0), s)
  | inr gt ↦ rw gt (All-le-insert_entry x.1 e es (ground arith) s.0, insert_entry-IsSorted e es s.1)
]

sort_entries-IsSorted : (es : List (String × ℕ)) → IsSorted (sort_entries es)
unfolding sort_entries
sort_entries-IsSorted [] = tt
sort_entries-IsSorted (e ∷ es) =
    insert_entry-IsSorted e (sort_entries es) (sort_entries-IsSorted es)

-- Read as a map, the sorted entries are the same map.
get-insert_entry :
    (k : String) (e : String × ℕ) (es : List (String × ℕ))
    → Dict.get e.0 es ≡ none
    → Dict.get k (insert_entry e es) ≡ Dict.get k (e ∷ es)
unfolding insert_entry Dict.get
get-insert_entry k e [] new = refl
get-insert_entry k e (x ∷ es) new = ground (arith, get-insert_entry k e es)

get-sort_entries :
    (k : String) (m : Dict String ℕ) → Dict.Distinct m → Dict.get k (sort_entries m) ≡ Dict.get k m
unfolding sort_entries Dict.get
get-sort_entries k [] d = refl
get-sort_entries k (e ∷ m) d = ground (
  arith,
  get-insert_entry k e (sort_entries m),
  get-sort_entries e.0 m d.1,
  get-sort_entries k m d.1,
)

pub get-delete_first :
    (k : String) (n : ℕ) (es : List (String × ℕ)) (m : Dict String ℕ)
    → Dict.get k (delete_first n es m)
      ≡ elim (Dict.get k (take n es)) [ none ↦ Dict.get k m | some _ ↦ none ]
unfolding delete_first Dict.get
get-delete_first k zero es m = refl
get-delete_first k (suc n) [] m = refl
get-delete_first k (suc n) (e ∷ es) m =
    ground (arith, get-delete_first k n es (Dict.delete e.0 m), get-delete k e.0 m)

get-take-le :
    (t : ℕ) (k : String) (u : ℕ) (es : List (String × ℕ))
    → All (λ x. t ≤ x.1) es
    → Dict.get k es ≡ some u
    → t ≤ u
unfolding Dict.get
get-take-le t k u [] a h = cc
get-take-le t k u (x ∷ es) a h = ground (arith, get-take-le t k u es a.1)

take-oldest :
    (n : ℕ) (i j : String) (t u : ℕ) (es : List (String × ℕ))
    → IsSorted es
    → Dict.get i (take n es) ≡ some t
    → Dict.get j (take n es) ≡ none
    → Dict.get j es ≡ some u
    → t ≤ u
unfolding Dict.get
take-oldest zero i j t u es s hi hj h = cc
take-oldest (suc n) i j t u [] s hi hj h = cc
take-oldest (suc n) i j t u (e ∷ es) s hi hj h =
    ground (arith, take-oldest n i j t u es s.1, get-take-le e.1 j u es s.0)

get_of_take :
    (n : ℕ) (k : String) (t : ℕ) (es : List (String × ℕ))
    → Dict.get k (take n es) ≡ some t
    → Dict.get k es ≡ some t
unfolding Dict.get
get_of_take zero k t es h = cc
get_of_take (suc n) k t [] h = h
get_of_take (suc n) k t (e ∷ es) h = ground (arith, get_of_take n k t es)

-- What the eviction forgets is no younger than what it keeps.
pub delete_first-oldest :
    (n : ℕ) (m : Dict String ℕ) (i j : String) (t u : ℕ)
    → Dict.Distinct m
    → Dict.get i m ≡ some t
    → Dict.get i (delete_first n (sort_entries m) m) ≡ none
    → Dict.get j (delete_first n (sort_entries m) m) ≡ some u
    → t ≤ u
delete_first-oldest n m i j t u d hi gone kept =
    elim (Option-cases (Dict.get i (take n (sort_entries m)))) [
      | inl e ↦ absurd (ground (arith, get-delete_first i n (sort_entries m) m))
      | inr (t', e) ↦
          let same = get_of_take n i t' (sort_entries m) e in
          let younger : Dict.get j (take n (sort_entries m)) ≡ none =
            ground (arith, get-delete_first j n (sort_entries m) m) in
          let stored : Dict.get j (sort_entries m) ≡ some u =
            ground (arith, get-delete_first j n (sort_entries m) m, get-sort_entries j m d) in
          let le =
            take-oldest n i j t' u (sort_entries m) (sort_entries-IsSorted m) e younger stored in
          ground (arith, le, same, get-sort_entries i m d)
    ]

size-delete_first-le :
    (n : ℕ) (es : List (String × ℕ)) (m : Dict String ℕ)
    → Dict.size (delete_first n es m) ≤ Dict.size m
unfolding delete_first
size-delete_first-le zero es m = omega arith
size-delete_first-le (suc n) [] m = omega arith
size-delete_first-le (suc n) (e ∷ es) m =
    omega (arith, size-delete_first-le n es (Dict.delete e.0 m), size-delete-le e.0 m)

-- An eviction of at least one entry makes room, if there is an entry.
pub size-delete_first-lt :
    (n : ℕ) (m : Dict String ℕ)
    → Dict.Distinct m
    → 0 < n
    → 0 < Dict.size m
    → Dict.size (delete_first n (sort_entries m) m) < Dict.size m
unfolding delete_first Dict.get
size-delete_first-lt n [] d p h = absurd (omega arith)
size-delete_first-lt zero (e ∷ m) d p h = absurd (omega arith)
size-delete_first-lt (suc n) (e ∷ m) d p h = of_sorted (sort_entries (e ∷ m)) refl
  where
    of_sorted :
        (es : List (String × ℕ))
        → sort_entries (e ∷ m) ≡ es
        → Dict.size (delete_first (suc n) (sort_entries (e ∷ m)) (e ∷ m)) < Dict.size (e ∷ m)
    of_sorted [] same =
        absurd (ground (arith, ap (Dict.get e.0) same, get-sort_entries e.0 (e ∷ m) d))
    of_sorted (x ∷ es) same = ground (
      arith,
      ap (Dict.get x.0) same,
      get-sort_entries x.0 (e ∷ m) d,
      size-delete_present-le x.0 x.1 (e ∷ m),
      size-delete_first-le n es (Dict.delete x.0 (e ∷ m)),
    )
