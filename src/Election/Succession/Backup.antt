-- ===== src/Election/Succession/Backup.antt =====
-- getBackupCoordinator of lib/musig2/election.ts.
use xpi_p2p_ts.Dict
use xpi_p2p_ts.Dict.{Dict}
use xpi_p2p_ts.Election.{Crypto, ElectionMethod, insert_by, sort_by, index_from}
use xpi_p2p_ts.Election.Succession.{
  BackupResult, find_index, sort_by_hex, original_index_at, get_backup_for_lexicographic,
  get_backup_for_hash_based, get_backup_for_first_signer, get_backup_for_last_signer, backup_by,
  get_backup_coordinator, includes,
}
use xpi_p2p_ts.Base.{
  ℕ, zero, suc, ◌+◌, ◌%◌, ◌≤◌, ◌<◌, ◌≡◌, refl, sym, ◌∙◌, ap, ◌⊎◌, ◌==◌, nat_key, Bool, true, some,
  List, [], ◌∷◌, length, get_elem?, get_elem?_lt, arith, Bool-cases, inl, inr,
}

module _ {A : Type 0} where
  includes-index_from :
      (x i : ℕ) (xs : List A)
      → i ≤ x
      → x < i + length xs
      → includes x (Dict.keys (index_from i xs)) ≡ true
  unfolding includes index_from
  includes-index_from x i [] h k = absurd (omega arith)
  includes-index_from x i (y ∷ xs) h k = ground (arith, includes-index_from x (suc i) xs)

  index_from-below :
      (x i : ℕ) (xs : List A) → includes x (Dict.keys (index_from i xs)) ≡ true → x < i + length xs
  unfolding includes index_from
  index_from-below x i [] h = absurd (ground arith)
  index_from-below x i (y ∷ xs) h = ground (arith, index_from-below x (suc i) xs)

  length-index_from : (i : ℕ) (xs : List A) → length (index_from i xs) ≡ length xs
  unfolding index_from
  length-index_from i [] = refl
  length-index_from i (x ∷ xs) = ap suc (length-index_from (suc i) xs)

  find_index_present :
      (x : ℕ) (m : Dict ℕ A) → includes x (Dict.keys m) ≡ true → (i : ℕ) × (find_index x m ≡ some i)
  unfolding includes find_index
  find_index_present x [] h = absurd (ground arith)
  find_index_present x (e ∷ m) h = elim (Bool-cases (e.0 == x)) [
    | inl same ↦ (0, ground arith)
    | inr other ↦ let (i, found) = find_index_present x m (ground arith) in (suc i, ground arith)
  ]

  get_elem?-includes :
      (i : ℕ) (e : ℕ × A) (m : Dict ℕ A)
      → get_elem? m i ≡ some e
      → includes (e.0) (Dict.keys m) ≡ true
  unfolding includes
  get_elem?-includes i e [] h = absurd (ground arith)
  get_elem?-includes zero e (x ∷ m) h = ground arith
  get_elem?-includes (suc i) e (x ∷ m) h = ground (arith, get_elem?-includes i e m h)

module _ {A : Type 0} (le : ℕ × A → ℕ × A → Bool) where
  includes-insert_by :
      (x : ℕ) (e : ℕ × A) (m : Dict ℕ A)
      → includes x (Dict.keys (insert_by le e m)) ≡ includes x (Dict.keys (e ∷ m))
  unfolding includes insert_by
  includes-insert_by x e [] = refl
  includes-insert_by x e (y ∷ m) = ground (arith, includes-insert_by x e m)

  includes-sort_by :
      (x : ℕ) (m : Dict ℕ A) → includes x (Dict.keys (sort_by le m)) ≡ includes x (Dict.keys m)
  unfolding includes sort_by
  includes-sort_by x [] = refl
  includes-sort_by x (e ∷ m) =
      ground (arith, includes-insert_by x e (sort_by le m), includes-sort_by x m)

  length-insert_by : (e : ℕ × A) (m : Dict ℕ A) → length (insert_by le e m) ≡ length m + 1
  unfolding insert_by
  length-insert_by e [] = refl
  length-insert_by e (x ∷ m) = ground (arith, length-insert_by e m)

  length-sort_by : (m : Dict ℕ A) → length (sort_by le m) ≡ length m
  unfolding sort_by
  length-sort_by [] = refl
  length-sort_by (e ∷ m) = omega (arith, length-sort_by m, length-insert_by e (sort_by le m))

-- No backup, or one in range.
abbrev pub IsInRange : ℕ → BackupResult → Type 0
IsInRange n (BackupResult.index i) = i < n
IsInRange n BackupResult.null = Unit
IsInRange n BackupResult.nan = ⊥
IsInRange n BackupResult.thrown = ⊥

pub IsInRange-cases :
    (n : ℕ) (b : BackupResult)
    → IsInRange n b
    → ((i : ℕ) × (b ≡ BackupResult.index i) × (i < n)) ⊎ (b ≡ BackupResult.null)
IsInRange-cases n (BackupResult.index i) h = inl (i, refl, h)
IsInRange-cases n BackupResult.null h = inr refl
IsInRange-cases n BackupResult.nan h = absurd h
IsInRange-cases n BackupResult.thrown h = absurd h

module _ {PublicKey : Type 0} (lib : Crypto PublicKey) where
  get_backup_for_lexicographic-IsInRange :
      (signers : List PublicKey) (current : ℕ)
      → current < length signers
      → IsInRange (length signers) (get_backup_for_lexicographic lib signers current)
  unfolding get_backup_for_lexicographic original_index_at sort_by_hex
  get_backup_for_lexicographic-IsInRange signers current h =
      let indexed = sort_by_hex lib signers in
      let present : includes current (Dict.keys indexed) ≡ true =
        includes-sort_by _ current (index_from 0 signers)
        ∙ includes-index_from current 0 signers (omega arith) (omega arith) in
      let size : length indexed ≡ length signers =
        length-sort_by _ (index_from 0 signers) ∙ length-index_from 0 signers in
      let (i, found) = find_index_present current indexed present in
      let next : (i + 1) % length indexed < length indexed = omega arith in
      let (item, at) = get_elem?_lt indexed ((i + 1) % length indexed) next in
      let listed : includes (item.0) (Dict.keys (index_from 0 signers)) ≡ true =
        sym (includes-sort_by _ (item.0) (index_from 0 signers))
        ∙ get_elem?-includes ((i + 1) % length indexed) item indexed at in
      let below : item.0 < length signers =
        omega (arith, index_from-below (item.0) 0 signers listed) in
      rw (found, get_backup_for_lexicographic, at, original_index_at) below

  backup_by-IsInRange :
      (method : ElectionMethod) (signers : List PublicKey) (current : ℕ)
      → current < length signers
      → IsInRange (length signers) (backup_by lib method signers current)
  unfolding backup_by get_backup_for_hash_based get_backup_for_first_signer
      get_backup_for_last_signer
  backup_by-IsInRange ElectionMethod.lexicographic signers current h =
      get_backup_for_lexicographic-IsInRange signers current h
  backup_by-IsInRange ElectionMethod.hash_based [] current h = absurd (omega arith)
  backup_by-IsInRange ElectionMethod.hash_based (pk ∷ pks) current h = omega arith
  backup_by-IsInRange ElectionMethod.first_signer signers current h = ground arith
  backup_by-IsInRange ElectionMethod.last_signer signers zero h = tt
  backup_by-IsInRange ElectionMethod.last_signer signers (suc previous) h = omega arith

  -- From a coordinator in range, getBackupCoordinator neither throws nor leaves the range.
  pub get_backup_coordinator-IsInRange :
      (method : ElectionMethod) (signers : List PublicKey) (current : ℕ)
      → current < length signers
      → IsInRange (length signers) (get_backup_coordinator lib method signers current)
  unfolding get_backup_coordinator
  get_backup_coordinator-IsInRange method signers current h =
      elim (Bool-cases (length signers == 1)) [
        | inl one ↦ rw one tt
        | inr more ↦ rw more (backup_by-IsInRange method signers current h)
      ]
