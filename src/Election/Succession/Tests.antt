-- ===== src/Election/Succession/Tests.antt =====
-- Failover of lib/musig2/election.ts with keys of one byte.
use xpi_p2p_ts.Election.{
  Crypto, ElectionMethod, ElectionResult, elect_coordinator, index_from, sort_by, insert_by,
}
use xpi_p2p_ts.Election.Succession.{
  BackupResult, Priority, get_backup_coordinator, backup_by, get_backup_for_lexicographic,
  sort_by_hex, find_index, original_index_at, get_coordinator_priority_list,
}
use xpi_p2p_ts.Election.Succession.Counting.{Once}
use xpi_p2p_ts.Election.Succession.Termination.{get_coordinator_priority_list-ends}
use xpi_p2p_ts.Base.{
  ℕ, ◌≡◌, ◌<◌, refl, String, some, List, [], ◌∷◌, Bool, true, false, arith, leb, get_elem?, All,
  if◌then◌else◌,
}

-- The texts are ordered by their lengths here: "a" before "bb".
abbrev letter : ℕ → String
letter n = if leb n 1 then "a" else "bb"

abbrev shorter : String → String → Bool
shorter (String.◌∷◌ c (String.◌∷◌ d s)) (String.◌∷◌ c' String.[]) = false
shorter s t = true

abbrev toy : Crypto ℕ
toy = record {
  to_buffer = λ n. n ∷ [];
  to_string = letter;
  sha256_hex = λ s. s;
  sha256_head = λ s. 7;
  locale_le = shorter;
}

abbrev ballot : List ℕ
ballot = 2 ∷ 1 ∷ []

-- The coordinator of the signers 2 and 1 is 1, at index 0 of the sorted list; its backup is the
-- original index 1, which is the coordinator again.
backup_is_coordinator :
    (get_backup_coordinator toy ElectionMethod.lexicographic ballot 0 ≡ BackupResult.index 1)
    × (get_elem? ballot 1 ≡ some 1)
unfolding get_backup_coordinator backup_by get_backup_for_lexicographic sort_by_hex find_index
    original_index_at index_from sort_by insert_by
backup_is_coordinator = (refl, refl)

get_coordinator_priority_list-ends_example :
    (r : ElectionResult ℕ) × (rest : List ℕ) × (elect_coordinator toy ElectionMethod.hash_based
        (2 ∷ 1 ∷ 3 ∷ [])
      ≡ some r)
    × (get_coordinator_priority_list toy ElectionMethod.hash_based (2 ∷ 1 ∷ 3 ∷ [])
        ≡ Priority.listed (r.coordinator_index ∷ rest))
    × Once (r.coordinator_index ∷ rest)
    × All (λ x. x < 3) (r.coordinator_index ∷ rest)
get_coordinator_priority_list-ends_example =
    get_coordinator_priority_list-ends toy ElectionMethod.hash_based (2 ∷ 1 ∷ 3 ∷ []) (omega arith)
