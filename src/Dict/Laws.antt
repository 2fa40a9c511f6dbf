-- ===== src/Dict/Laws.antt =====
-- What can be read after a write.
use xpi_p2p_ts.Base.{◌≡◌, refl, ◌≢◌, none, some, [], ◌∷◌, ite, Key, arith}
use mathlib.Core.Option
use xpi_p2p_ts.Dict.{Dict, get, set, delete, modify, Distinct}

module _ {ℓ} {K V : Type ℓ} ⦃e : Key K⦄ where
  pub get-set :
      (j k : K) (v : V) (m : Dict K V) → get j (set k v m) ≡ ite (e.dec k j) (some v) (get j m)
  unfolding get set
  get-set j k v [] = refl
  get-set j k v ((i, w) ∷ m) = ground (arith, get-set j k v m)

  pub get-set_self : (k : K) (v : V) (m : Dict K V) → get k (set k v m) ≡ some v
  get-set_self k v m = ground (arith, get-set k k v m)

  pub get-set_ne : (j k : K) (v : V) (m : Dict K V) → k ≢ j → get j (set k v m) ≡ get j m
  get-set_ne j k v m h = ground (arith, get-set j k v m)

  pub get-delete : (j k : K) (m : Dict K V) → get j (delete k m) ≡ ite (e.dec k j) none (get j m)
  unfolding get delete
  get-delete j k [] = ground arith
  get-delete j k ((i, w) ∷ m) = ground (arith, get-delete j k m)

  pub get-delete_self : (k : K) (m : Dict K V) → get k (delete k m) ≡ none
  get-delete_self k m = ground (arith, get-delete k k m)

  pub get-delete_ne : (j k : K) (m : Dict K V) → k ≢ j → get j (delete k m) ≡ get j m
  get-delete_ne j k m h = ground (arith, get-delete j k m)

  pub get-modify :
      (j k : K) (f : V → V) (m : Dict K V)
      → get j (modify k f m) ≡ ite (e.dec k j) (Option.map f (get j m)) (get j m)
  unfolding get modify
  get-modify j k f [] = ground arith
  get-modify j k f ((i, w) ∷ m) = ground (arith, get-modify j k f m)

  pub delete_absent : (k : K) (m : Dict K V) → get k m ≡ none → delete k m ≡ m
  unfolding get delete
  delete_absent k [] h = refl
  delete_absent k ((i, w) ∷ m) h = ground (arith, delete_absent k m)

  pub set-Distinct : (k : K) (v : V) (m : Dict K V) → Distinct m → Distinct (set k v m)
  unfolding get set
  set-Distinct k v [] d = (refl, tt)
  set-Distinct k v ((i, w) ∷ m) d = ground (arith, set-Distinct k v m, get-set i k v m)

  pub delete-Distinct : (k : K) (m : Dict K V) → Distinct m → Distinct (delete k m)
  unfolding get delete
  delete-Distinct k [] d = d
  delete-Distinct k ((i, w) ∷ m) d = ground (arith, delete-Distinct k m, get-delete i k m)

  pub modify-Distinct : (k : K) (f : V → V) (m : Dict K V) → Distinct m → Distinct (modify k f m)
  unfolding get modify
  modify-Distinct k f [] d = d
  modify-Distinct k f ((i, w) ∷ m) d = ground (arith, modify-Distinct k f m, get-modify i k f m)
