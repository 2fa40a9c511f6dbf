-- ===== src/Election.antt =====
-- Coordinator election (lib/musig2/election.ts). The public keys, sha256 and the locale's order of
-- texts are third-party code: the record Crypto. `Option` is a result or a thrown error.
pub mod Sorting
pub mod Winner
pub mod Mapping
pub mod Succession
mod Tests
use Prim.Native.String.{◌++◌}
use text.Mathlib.Text.{◌==◌ as same_text}
use Prim.Native.Char.{code}
use xpi_p2p_ts.Dict
use xpi_p2p_ts.Dict.{Dict}
unfoldable pub use xpi_p2p_ts.Sorting.{insert_by, sort_by}
use xpi_p2p_ts.Base.{
  ℕ, zero, suc, ◌+◌, ◌-◌, ◌%◌, ltb, leb, ◌==◌, ◌&&◌, if◌then◌else◌, String, string_key, nat_key,
  Bool, true, false, Option, none, some, List, [], ◌∷◌, map, length, get_elem?,
}

pub record Crypto (PublicKey : Type 0) : Type 0 where
  pub to_buffer : PublicKey → List ℕ
  pub to_string : PublicKey → String
  -- `sha256` of the text's bytes in hexadecimal, and its first four bytes as a number.
  pub sha256_hex : String → String
  pub sha256_head : String → ℕ
  -- `a.localeCompare(b) <= 0`
  pub locale_le : String → String → Bool

-- `Buffer.compare(a, b) <= 0`: byte by byte, a prefix first.
pub bytes_le : List ℕ → List ℕ → Bool
bytes_le [] ys = true
bytes_le (x ∷ xs) [] = false
bytes_le (x ∷ xs) (y ∷ ys) =
    let rest = bytes_le xs ys in if ltb x y then true else (if ltb y x then false else rest)

pub codes : String → List ℕ
codes String.[] = []
codes (String.◌∷◌ c s) = code c ∷ codes s

-- The order of `Array.sort()` on texts.
pub text_le : String → String → Bool
text_le s t = bytes_le (codes s) (codes t)

pub join : List String → String
join [] = ""
join (s ∷ ss) = s ++ join ss

pub data ElectionMethod : Type 0 where
  lexicographic : ElectionMethod
  hash_based : ElectionMethod
  first_signer : ElectionMethod
  last_signer : ElectionMethod

pub record ElectionResult (PublicKey : Type 0) : Type 0 where
  pub coordinator_index : ℕ
  pub coordinator_public_key : Option PublicKey
  pub sorted_signers : List PublicKey
  pub index_mapping : Dict ℕ ℕ
  pub election_proof : String

-- The signers with their original indices.
pub index_from : {PublicKey : Type 0} → ℕ → List PublicKey → Dict ℕ PublicKey
index_from i [] = []
index_from i (pk ∷ pks) = (i, pk) ∷ index_from (suc i) pks

-- `indexed.forEach((item, sortedIdx) => indexMapping.set(item.originalIndex, sortedIdx))`
pub mapping_from : {PublicKey : Type 0} → ℕ → Dict ℕ PublicKey → Dict ℕ ℕ → Dict ℕ ℕ
mapping_from i [] m = m
mapping_from i (item ∷ items) m = mapping_from (suc i) items (Dict.set (item.0) i m)

module _ {PublicKey : Type 0} (lib : Crypto PublicKey) where
  pub key_le : PublicKey → PublicKey → Bool
  key_le a b = bytes_le (lib.to_buffer a) (lib.to_buffer b)

  -- `indexed.sort((a, b) => a.buffer.compare(b.buffer))`
  pub sort_indexed : List PublicKey → Dict ℕ PublicKey
  sort_indexed signers = sort_by (λ a b. key_le (a.1) (b.1)) (index_from 0 signers)

  pub compute_election_proof : List PublicKey → String
  compute_election_proof signers =
      lib.sha256_hex (join (sort_by text_le (map (lib.to_string) signers)))

  pub elect_by_lexicographic : List PublicKey → ElectionResult PublicKey
  elect_by_lexicographic signers =
      let indexed = sort_indexed signers in
      let sorted = Dict.values indexed in
      record {
        coordinator_index = 0;
        coordinator_public_key = get_elem? sorted 0;
        sorted_signers = sorted;
        index_mapping = mapping_from 0 indexed [];
        election_proof = compute_election_proof signers;
      }

  pub hash_index : List PublicKey → ℕ
  hash_index sorted = lib.sha256_head (join (map (lib.to_string) sorted)) % length sorted

  pub elect_by_hash : List PublicKey → ElectionResult PublicKey
  elect_by_hash signers =
      let indexed = sort_indexed signers in
      let sorted = Dict.values indexed in
      record {
        coordinator_index = hash_index sorted;
        coordinator_public_key = get_elem? sorted (hash_index sorted);
        sorted_signers = sorted;
        index_mapping = mapping_from 0 indexed [];
        election_proof = compute_election_proof signers;
      }

  pub elect_first_signer : List PublicKey → ElectionResult PublicKey
  elect_first_signer signers =
      let indexed = sort_indexed signers in
      let sorted = Dict.values indexed in
      record {
        coordinator_index = 0;
        coordinator_public_key = get_elem? sorted 0;
        sorted_signers = sorted;
        index_mapping = mapping_from 0 indexed [];
        election_proof = compute_election_proof signers;
      }

  pub elect_last_signer : List PublicKey → ElectionResult PublicKey
  elect_last_signer signers =
      let indexed = sort_indexed signers in
      let sorted = Dict.values indexed in
      record {
        coordinator_index = length sorted - 1;
        coordinator_public_key = get_elem? sorted (length sorted - 1);
        sorted_signers = sorted;
        index_mapping = mapping_from 0 indexed [];
        election_proof = compute_election_proof signers;
      }

  pub elect_by : ElectionMethod → List PublicKey → ElectionResult PublicKey
  elect_by ElectionMethod.lexicographic signers = elect_by_lexicographic signers
  elect_by ElectionMethod.hash_based signers = elect_by_hash signers
  elect_by ElectionMethod.first_signer signers = elect_first_signer signers
  elect_by ElectionMethod.last_signer signers = elect_last_signer signers

  -- No signers: an error. One: that one.
  pub elect_coordinator : ElectionMethod → List PublicKey → Option (ElectionResult PublicKey)
  elect_coordinator method [] = none
  elect_coordinator method (pk ∷ []) = some (record {
    coordinator_index = 0;
    coordinator_public_key = some pk;
    sorted_signers = pk ∷ [];
    index_mapping = (0, 0) ∷ [];
    election_proof = compute_election_proof (pk ∷ []);
  })
  elect_coordinator method (pk ∷ pk' ∷ pks) = some (elect_by method (pk ∷ pk' ∷ pks))

  pub verify_election_result :
      ElectionMethod → List PublicKey → ElectionResult PublicKey → Option Bool
  verify_election_result method signers result = elim (elect_coordinator method signers) [
    | none ↦ none
    | some expected ↦ some (
        (expected.coordinator_index == result.coordinator_index)
        && same_text (expected.election_proof) (result.election_proof))
  ]

  -- A negative index, which this model has none of, is refused as one out of range is.
  pub is_coordinator : ElectionMethod → List PublicKey → ℕ → Option Bool
  is_coordinator method signers i =
      if leb (length signers) i then some false else elim (elect_coordinator method signers) [
        | none ↦ none
        | some election ↦ some (election.coordinator_index == i)
      ]

  pub get_coordinator_public_key : ElectionMethod → List PublicKey → Option (Option PublicKey)
  get_coordinator_public_key method signers = elim (elect_coordinator method signers) [
    | none ↦ none
    | some election ↦ some (election.coordinator_public_key)
  ]
