-- ===== src/Dict.antt =====
-- A JavaScript `Map`: its entries in insertion order, each key once. `set` on a known key keeps
-- the entry's place; a `Set` is a map to `Unit`.
pub mod Laws
pub mod Reorder
pub mod Size
pub mod Sweep
use xpi_p2p_ts.Base.{
  ℕ, ◌≡◌, ◌≢◌, Bool, Option, none, some, List, [], ◌∷◌, map, ite, Key, length, is_some,
}

abbrev pub Dict {ℓ} : Type ℓ → Type ℓ → Type ℓ
Dict K V = List (K × V)

module _ {ℓ} {K V : Type ℓ} where
  abbrev pub size : Dict K V → ℕ
  size m = length m

  abbrev pub keys : Dict K V → List K
  keys = map (λ e. e.0)

  abbrev pub values : Dict K V → List V
  values = map (λ e. e.1)

module _ {ℓ} {K V : Type ℓ} ⦃e : Key K⦄ where
  unfoldable pub get : K → Dict K V → Option V
  get k [] = none
  get k ((j, v) ∷ m) = ite (e.dec j k) (some v) (get k m)

  unfoldable pub set : K → V → Dict K V → Dict K V
  set k v [] = (k, v) ∷ []
  set k v ((j, w) ∷ m) = ite (e.dec j k) ((j, v) ∷ m) ((j, w) ∷ set k v m)

  unfoldable pub delete : K → Dict K V → Dict K V
  delete k [] = []
  delete k ((j, v) ∷ m) = let rest = delete k m in ite (e.dec j k) rest ((j, v) ∷ rest)

  abbrev pub has : K → Dict K V → Bool
  has k m = is_some (get k m)

  -- A write to the object that is stored under a key, which the map then shows.
  unfoldable pub modify : K → (V → V) → Dict K V → Dict K V
  modify k f [] = []
  modify k f ((j, v) ∷ m) = ite (e.dec j k) ((j, f v) ∷ m) ((j, v) ∷ modify k f m)

  -- The loop `for (const [k, v] of map) if (old(v)) map.delete(k)`.
  unfoldable pub sweep_entries : (V → Bool) → List (K × V) → Dict K V → Dict K V
  sweep_entries old [] m = m
  sweep_entries old ((k, v) ∷ es) m =
      sweep_entries old es (elim (old v) [ Bool.true ↦ delete k m | Bool.false ↦ m ])

  abbrev pub sweep : (V → Bool) → Dict K V → Dict K V
  sweep old m = sweep_entries old m m

  -- No key twice.
  abbrev pub Distinct : Dict K V → Type ℓ
  Distinct [] = Unit
  Distinct (x ∷ m) = (get x.0 m ≡ none) × Distinct m
