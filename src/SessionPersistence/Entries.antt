-- ===== src/SessionPersistence/Entries.antt =====
-- Maps that are written as objects and read again, as lib/musig2/session-persistence.ts does.
use mathlib.Core.List.{Permᴰ, append-nil, append_assoc}
use xpi_p2p_ts.Dict
use xpi_p2p_ts.Dict.{Dict}
use xpi_p2p_ts.Dict.Reorder.{get_Perm}
use xpi_p2p_ts.Text.{Text, text_key}
use xpi_p2p_ts.Text.Decimal.{decimal, parse_int, parse_int-decimal}
use xpi_p2p_ts.Outcome.{ok}
use xpi_p2p_ts.Sorting.{sort_by, insert_by}
use xpi_p2p_ts.Serialization.{Serialized}
use xpi_p2p_ts.SessionPersistence.{by_index, entries, collect}
use xpi_p2p_ts.Base.{
  ℕ, ◌≡◌, ◌≢◌, refl, sym, ap, ◌∙◌, subst, Bool, none, List, [], ◌∷◌, ◌++◌, map, Key, nat_key, arith,
  Bool-cases, inl, inr,
}

-- A key that is new comes last.
set-absent :
    {K V : Type 0} ⦃key : Key K⦄ (k : K) (v : V) (m : Dict K V)
    → Dict.get k m ≡ none
    → Dict.set k v m ≡ m ++ (k, v) ∷ []
unfolding Dict.get Dict.set
set-absent k v [] h = refl
set-absent k v ((j, w) ∷ m) h = ground (arith, set-absent k v m)

absent_later :
    {K V : Type 0} ⦃key : Key K⦄ (k j : K) (v : V) (m r : Dict K V)
    → Dict.get k (m ++ (j, v) ∷ r) ≡ none
    → k ≢ j
unfolding Dict.get
absent_later k j v [] r h e = ground arith
absent_later k j v (x ∷ m) r h e = ground (arith, absent_later k j v m r)

Distinct-absent :
    {K V : Type 0} ⦃key : Key K⦄ (k : K) (v : V) (m r : Dict K V)
    → Dict.Distinct (m ++ (k, v) ∷ r)
    → Dict.get k m ≡ none
unfolding Dict.get
Distinct-absent k v [] r d = refl
Distinct-absent k v ((j, w) ∷ m) r d =
    ground (arith, Distinct-absent k v m r d.1, absent_later j k v m r d.0)

-- Entries whose values can all be made, under keys of their own, are all there, in their order.
pub collect_lem :
    {K L V W X : Type 0} ⦃k : Key L⦄ (name : K → L) (f : V → Serialized W) (key : X → K)
    (from : X → V) (to : X → W)
    → ((x : X) → f (from x) ≡ ok (to x))
    → (xs : List X) (m : Dict L W) → Dict.Distinct (m ++ map (λ (x : X). (name (key x), to x)) xs)
    → collect name f (map (λ (x : X). (key x, from x)) xs) m
      ≡ ok (m ++ map (λ (x : X). (name (key x), to x)) xs)
unfolding collect
collect_lem name f key from to made [] m d = ap ok (sym (append-nil m))
collect_lem {L = L} {W = W} {X = X} name f key from to made (x ∷ xs) m d =
    let e : L × W = (name (key x), to x) in
    let rest : List (L × W) = map (λ (y : X). (name (key y), to y)) xs in
    let moved = append_assoc m (e ∷ []) rest in
    rw
      (
        made x,
        set-absent (name (key x)) (to x) m
            (Distinct-absent {K = L} {V = W} (name (key x)) (to x) m rest d),
      )
      (collect_lem name f key from to made xs (m ++ e ∷ []) (subst Dict.Distinct (sym moved) d)
        ∙ ap ok moved)

insert_by-Perm :
    {A : Type 0} (le : A → A → Bool) (x : A) (xs : List A) → Permᴰ (x ∷ xs) (insert_by le x xs)
unfolding insert_by
insert_by-Perm le x [] = Permᴰ.cons refl Permᴰ.nil
insert_by-Perm le x (y ∷ ys) = elim (Bool-cases (le x y)) [
  | inl e ↦ rw e (Permᴰ.trans (Permᴰ.swap refl refl) (Permᴰ.swap refl refl))
  | inr e ↦ rw e (Permᴰ.trans (Permᴰ.swap refl refl) (Permᴰ.cons refl (insert_by-Perm le x ys)))
]

sort_by-IsPerm : {A : Type 0} (le : A → A → Bool) (xs : List A) → Permᴰ xs (sort_by le xs)
unfolding sort_by
sort_by-IsPerm le [] = Permᴰ.nil
sort_by-IsPerm le (x ∷ xs) =
    Permᴰ.trans (Permᴰ.cons refl (sort_by-IsPerm le xs)) (insert_by-Perm le x (sort_by le xs))

-- Sorting by keys does not depend on the values.
insert_by_index-map :
    {V W : Type 0} (f : V → W) (x : ℕ × V) (xs : Dict ℕ V)
    → insert_by by_index (x.0, f x.1) (map (λ (y : ℕ × V). (y.0, f y.1)) xs)
      ≡ map (λ (y : ℕ × V). (y.0, f y.1)) (insert_by by_index x xs)
unfolding insert_by
insert_by_index-map f x [] = refl
insert_by_index-map f x (y ∷ ys) = ground (arith, insert_by_index-map f x ys)

sort_by_index-map :
    {V W : Type 0} (f : V → W) (xs : Dict ℕ V)
    → sort_by by_index (map (λ (y : ℕ × V). (y.0, f y.1)) xs)
      ≡ map (λ (y : ℕ × V). (y.0, f y.1)) (sort_by by_index xs)
unfolding sort_by
sort_by_index-map f [] = refl
sort_by_index-map f (x ∷ xs) =
    ap (insert_by by_index (x.0, f x.1)) (sort_by_index-map f xs)
    ∙ insert_by_index-map f x (sort_by by_index xs)

abbrev pub with_values : {K V W : Type 0} → (V → W) → Dict K V → Dict K W
with_values {K} {V} f m = map (λ (y : K × V). (y.0, f y.1)) m

get-with_values :
    {K V W : Type 0} ⦃key : Key K⦄ (f : V → W) (k : K) (m : Dict K V)
    → Dict.get k m ≡ none
    → Dict.get k (with_values f m) ≡ none
unfolding Dict.get
get-with_values f k [] h = refl
get-with_values f k (x ∷ m) h = ground (arith, get-with_values f k m)

with_values-Distinct :
    {K V W : Type 0} ⦃key : Key K⦄ (f : V → W) (m : Dict K V)
    → Dict.Distinct m
    → Dict.Distinct (with_values f m)
with_values-Distinct f [] d = tt
with_values-Distinct f (x ∷ m) d = (get-with_values f x.0 m d.0, with_values-Distinct f m d.1)

map-pairs : {K V : Type 0} (m : Dict K V) → map (λ (x : K × V). (x.0, x.1)) m ≡ m
map-pairs [] = refl
map-pairs (x ∷ m) = ap (◌∷◌ x) (map-pairs m)

-- An object with numbers as keys is written in the order of the map.
pub collect_written :
    {V W : Type 0} (f : V → Serialized W) (to : V → W)
    → ((v : V) → f v ≡ ok (to v))
    → (m : Dict ℕ V) → Dict.Distinct m
    → collect (λ i. i) f m [] ≡ ok (with_values to m)
collect_written {V} f to made m d =
    subst (λ (es : Dict ℕ V). collect (λ i. i) f es [] ≡ ok (with_values to m)) (map-pairs m)
      (collect_lem (λ i. i) f (λ (x : ℕ × V). x.0) (λ x. x.1) (λ x. to x.1) (λ x. made x.1) m []
        (with_values-Distinct to m d))

map-numbers :
    {V : Type 0} (m : Dict ℕ V) → map (λ (x : ℕ × V). (parse_int (decimal x.0), x.1)) m ≡ m
map-numbers [] = refl
map-numbers (x ∷ m) = λ i. (parse_int-decimal x.0 i, x.1) ∷ map-numbers m i

entries-with_values :
    {V W : Type 0} (to : V → W) (m : Dict ℕ V)
    → map {B = Text × W} (λ (x : ℕ × W). (decimal x.0, x.1)) (with_values to m)
      ≡ map {B = Text × W} (λ (x : ℕ × V). (decimal x.0, to x.1)) m
entries-with_values to [] = refl
entries-with_values to (x ∷ m) = ap (◌∷◌ (decimal x.0, to x.1)) (entries-with_values to m)

-- It is read in the order of its keys.
pub collect_read :
    {V W : Type 0} (to : V → W) (f : W → Serialized V)
    → ((v : V) → f (to v) ≡ ok v)
    → (m : Dict ℕ V) → Dict.Distinct m
    → collect parse_int f (entries (with_values to m)) [] ≡ ok (sort_by by_index m)
collect_read {V} {W} to f made m d =
    let sorted = sort_by by_index m in
    let distinct = (get_Perm (sort_by-IsPerm by_index m) d).1 in
    let listed =
      ap (map (λ (x : ℕ × W). (decimal x.0, x.1))) (sort_by_index-map to m)
      ∙ entries-with_values to sorted in
    ap (λ es. collect parse_int f es []) listed
    ∙ collect_lem parse_int f (λ (x : ℕ × V). decimal x.0) (λ x. to x.1) (λ x. x.1) (λ x. made x.1)
        sorted [] (subst Dict.Distinct (sym (map-numbers sorted)) distinct)
    ∙ ap ok (map-numbers sorted)

pub sorted_shows :
    {V : Type 0} (m : Dict ℕ V)
    → Dict.Distinct m
    → (i : ℕ) → Dict.get i m ≡ Dict.get i (sort_by by_index m)
sorted_shows m d = (get_Perm (sort_by-IsPerm by_index m) d).0
