-- ===== src/Dict/Sweep.antt =====
-- The loop that deletes the entries found old.
use xpi_p2p_ts.Base.{
  ◌≤◌, ◌≡◌, refl, Bool, true, false, if◌then◌else◌, Option, none, some, List, [], ◌∷◌, Key, arith,
}
use xpi_p2p_ts.Dict.{Dict, size, get, delete, sweep_entries, sweep, Distinct}
use xpi_p2p_ts.Dict.Laws.{get-delete, delete-Distinct}
use xpi_p2p_ts.Dict.Size.{size-delete-le}

-- What is left of an entry after a sweep.
abbrev pub kept {ℓ} : {V : Type ℓ} → (V → Bool) → Option V → Option V
kept old none = none
kept old (some v) = if old v then none else some v

module _ {ℓ} {K V : Type ℓ} ⦃e : Key K⦄ (old : V → Bool) where
  -- Some entry of the list has the key and is old.
  dropped : K → List (K × V) → Bool
  dropped j [] = false
  dropped j ((k, v) ∷ es) =
      let rest = dropped j es in
      elim (e.dec k j) [ yes p ↦ if old v then true else rest | no p ↦ rest ]

  get-sweep_entries :
      (j : K) (es : List (K × V)) (m : Dict K V)
      → get j (sweep_entries old es m) ≡ (if dropped j es then none else get j m)
  unfolding sweep_entries dropped
  get-sweep_entries j [] m = refl
  get-sweep_entries j ((k, v) ∷ es) m =
      ground
        (arith, get-sweep_entries j es m, get-sweep_entries j es (delete k m), get-delete j k m)

  dropped_of_get :
      (j : K) (m : Dict K V)
      → Distinct m
      → dropped j m ≡ elim (get j m) [ none ↦ false | some v ↦ old v ]
  unfolding dropped get
  dropped_of_get j [] d = refl
  dropped_of_get j ((k, v) ∷ m) d = ground (arith, dropped_of_get j m)

  pub get-sweep : (j : K) (m : Dict K V) → Distinct m → get j (sweep old m) ≡ kept old (get j m)
  get-sweep j m d = ground (arith, get-sweep_entries j m m, dropped_of_get j m d)

  sweep_entries-Distinct :
      (es : List (K × V)) (m : Dict K V) → Distinct m → Distinct (sweep_entries old es m)
  unfolding sweep_entries
  sweep_entries-Distinct [] m d = d
  sweep_entries-Distinct ((k, v) ∷ es) m d =
      elim (old v)
        as (λ b. Distinct (sweep_entries old es (elim b [ true ↦ delete k m | false ↦ m ]))) [
          | true ↦ sweep_entries-Distinct es (delete k m) (delete-Distinct k m d)
          | false ↦ sweep_entries-Distinct es m d
        ]

  pub sweep-Distinct : (m : Dict K V) → Distinct m → Distinct (sweep old m)
  sweep-Distinct m d = sweep_entries-Distinct m m d

  size-sweep_entries-le :
      (es : List (K × V)) (m : Dict K V) → size (sweep_entries old es m) ≤ size m
  unfolding sweep_entries
  size-sweep_entries-le [] m = omega arith
  size-sweep_entries-le ((k, v) ∷ es) m =
      ground (
        arith,
        size-sweep_entries-le es m,
        size-sweep_entries-le es (delete k m),
        size-delete-le k m,
      )

  pub size-sweep-le : (m : Dict K V) → size (sweep old m) ≤ size m
  size-sweep-le m = size-sweep_entries-le m m
