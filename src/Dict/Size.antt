-- ===== src/Dict/Size.antt =====
-- How many entries a write leaves.
use xpi_p2p_ts.Base.{◌+◌, ◌≤◌, ◌≡◌, refl, none, some, [], ◌∷◌, Key, arith}
use xpi_p2p_ts.Dict.{Dict, size, get, set, delete, modify, Distinct}
use xpi_p2p_ts.Dict.Laws.{delete_absent}

module _ {ℓ} {K V : Type ℓ} ⦃e : Key K⦄ where
  pub size-set_absent :
      (k : K) (v : V) (m : Dict K V) → get k m ≡ none → size (set k v m) ≡ size m + 1
  unfolding get set
  size-set_absent k v [] h = omega arith
  size-set_absent k v ((i, w) ∷ m) h = ground (arith, size-set_absent k v m)

  pub size-set_present :
      (k : K) (v w : V) (m : Dict K V) → get k m ≡ some w → size (set k v m) ≡ size m
  unfolding get set
  size-set_present k v w [] h = ground arith
  size-set_present k v w ((i, u) ∷ m) h = ground (arith, size-set_present k v w m)

  pub size-set-le : (k : K) (v : V) (m : Dict K V) → size (set k v m) ≤ size m + 1
  unfolding set
  size-set-le k v [] = omega arith
  size-set-le k v ((i, w) ∷ m) = ground (arith, size-set-le k v m)

  pub size-modify : (k : K) (f : V → V) (m : Dict K V) → size (modify k f m) ≡ size m
  unfolding modify
  size-modify k f [] = refl
  size-modify k f ((i, w) ∷ m) = ground (arith, size-modify k f m)

  pub size-delete-le : (k : K) (m : Dict K V) → size (delete k m) ≤ size m
  unfolding delete
  size-delete-le k [] = omega arith
  size-delete-le k ((i, w) ∷ m) = ground (arith, size-delete-le k m)

  pub size-delete_present-le :
      (k : K) (v : V) (m : Dict K V) → get k m ≡ some v → size (delete k m) + 1 ≤ size m
  unfolding get delete
  size-delete_present-le k v [] h = ground arith
  size-delete_present-le k v ((i, w) ∷ m) h =
      ground (arith, size-delete_present-le k v m, size-delete-le k m)

  pub size-delete_present :
      (k : K) (v : V) (m : Dict K V)
      → Distinct m
      → get k m ≡ some v
      → size (delete k m) + 1 ≡ size m
  unfolding get delete
  size-delete_present k v [] d h = ground arith
  size-delete_present k v ((i, w) ∷ m) d h =
      ground (arith, size-delete_present k v m, delete_absent k m)
