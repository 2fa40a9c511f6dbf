-- ===== src/Election/Succession.antt =====
-- Failover of lib/musig2/election.ts: the backup coordinator and the priority list.
pub mod Counting
pub mod Backup
pub mod Termination
mod Tests
use xpi_p2p_ts.Dict
use xpi_p2p_ts.Dict.{Dict}
use xpi_p2p_ts.Election.{
  Crypto, ElectionMethod, ElectionResult, sort_by, index_from, elect_coordinator,
}
use xpi_p2p_ts.Base.{
  ℕ, zero, suc, ◌+◌, ◌-◌, ◌%◌, ltb, leb, ◌==◌, if◌then◌else◌, nat_key, Bool, true, false, Option,
  none, some, List, [], ◌∷◌, ◌++◌, length, get_elem?,
}

-- `number | null`, or a thrown error; `nan` is what `%` by 0 gives.
pub data BackupResult : Type 0 where
  index : ℕ → BackupResult
  null : BackupResult
  nan : BackupResult
  thrown : BackupResult

-- `findIndex(item => item.originalIndex === current)`
pub find_index : {A : Type 0} → ℕ → Dict ℕ A → Option ℕ
find_index current [] = none
find_index current (item ∷ items) =
    let rest = find_index current items in
    if item.0 == current then some 0 else elim rest [ none ↦ none | some i ↦ some (suc i) ]

module _ {PublicKey : Type 0} (lib : Crypto PublicKey) where
  -- `indexed.sort((a, b) => a.hex.localeCompare(b.hex))`
  pub sort_by_hex : List PublicKey → Dict ℕ PublicKey
  sort_by_hex signers =
      sort_by (λ a b. lib.locale_le (lib.to_string (a.1)) (lib.to_string (b.1)))
        (index_from 0 signers)

  pub original_index_at : ℕ → Dict ℕ PublicKey → BackupResult
  original_index_at i indexed = elim (get_elem? indexed i) [
    | none ↦ BackupResult.thrown
    | some item ↦ BackupResult.index (item.0)
  ]

  pub get_backup_for_lexicographic : List PublicKey → ℕ → BackupResult
  get_backup_for_lexicographic signers current =
      let indexed = sort_by_hex signers in
      elim (find_index current indexed) [
        | none ↦ BackupResult.thrown
        | some i ↦ original_index_at ((i + 1) % length indexed) indexed
      ]

  pub get_backup_for_hash_based : List PublicKey → ℕ → BackupResult
  get_backup_for_hash_based [] current = BackupResult.nan
  get_backup_for_hash_based (pk ∷ pks) current =
      BackupResult.index ((current + 1) % length (pk ∷ pks))

  pub get_backup_for_first_signer : List PublicKey → ℕ → BackupResult
  get_backup_for_first_signer signers current =
      if leb (length signers) (current + 1)
      then BackupResult.null
      else BackupResult.index (current + 1)

  pub get_backup_for_last_signer : List PublicKey → ℕ → BackupResult
  get_backup_for_last_signer signers zero = BackupResult.null
  get_backup_for_last_signer signers (suc previous) = BackupResult.index previous

  pub backup_by : ElectionMethod → List PublicKey → ℕ → BackupResult
  backup_by ElectionMethod.lexicographic signers current =
      get_backup_for_lexicographic signers current
  backup_by ElectionMethod.hash_based signers current = get_backup_for_hash_based signers current
  backup_by ElectionMethod.first_signer signers current =
      get_backup_for_first_signer signers current
  backup_by ElectionMethod.last_signer signers current = get_backup_for_last_signer signers current

  pub get_backup_coordinator : ElectionMethod → List PublicKey → ℕ → BackupResult
  get_backup_coordinator method signers current =
      if length signers == 1 then BackupResult.null else backup_by method signers current

-- `list.includes(i)`
pub includes : ℕ → List ℕ → Bool
includes i [] = false
includes i (x ∷ xs) = let rest = includes i xs in if x == i then true else rest

-- How the loop ends: with the list, with an error, with a NaN in the list, or not within the fuel.
pub data Priority : Type 0 where
  listed : List ℕ → Priority
  failed : Priority
  not_a_number : Priority
  out_of_fuel : Priority

module _ {PublicKey : Type 0} (lib : Crypto PublicKey) where
  -- The loop `while (true)`, by the number of its rounds.
  pub priority_loop : ℕ → ElectionMethod → List PublicKey → List ℕ → ℕ → Priority
  priority_loop zero method signers list current = Priority.out_of_fuel
  priority_loop (suc fuel) method signers list current =
      elim (get_backup_coordinator lib method signers current) [
        | BackupResult.index backup ↦ elim (includes backup list) [
          | true ↦ Priority.listed list
          | false ↦ priority_loop fuel method signers (list ++ backup ∷ []) backup
        ]
        | BackupResult.null ↦ Priority.listed list
        | BackupResult.nan ↦ Priority.not_a_number
        | BackupResult.thrown ↦ Priority.failed
      ]

  -- One round for each signer and one that stops.
  pub get_coordinator_priority_list : ElectionMethod → List PublicKey → Priority
  get_coordinator_priority_list method signers = elim (elect_coordinator lib method signers) [
    | none ↦ Priority.failed
    | some election ↦
        priority_loop (length signers + 1) method signers (election.coordinator_index ∷ [])
          (election.coordinator_index)
  ]
