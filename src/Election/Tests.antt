-- ===== src/Election/Tests.antt =====
-- Elections of lib/musig2/election.ts with keys of one byte.
use mathlib.Core.List.{Permᴰ}
use xpi_p2p_ts.Dict
use xpi_p2p_ts.Election.{
  Crypto, ElectionMethod, ElectionResult, elect_coordinator, elect_by, elect_by_lexicographic,
  sort_indexed, index_from, mapping_from, key_le, bytes_le, sort_by, insert_by,
  compute_election_proof,
}
use xpi_p2p_ts.Election.Winner.{agreed_on, elect_coordinator-Perm}
use xpi_p2p_ts.Election.Mapping.{elect_coordinator-mapping}
use xpi_p2p_ts.Base.{
  ℕ, ◌≡◌, refl, String, ℕ_discrete, if◌then◌else◌, nat_key, some, List, [], ◌∷◌, true, leb,
  get_elem?,
}

-- Keys are numbers, as bytes and as texts of one letter; the hash is the constant 7.
abbrev letter : ℕ → String
letter n = if leb n 1 then "a" else "b"

abbrev toy : Crypto ℕ
toy = record {
  to_buffer = λ n. n ∷ [];
  to_string = letter;
  sha256_hex = λ s. s;
  sha256_head = λ s. 7;
  locale_le = λ s t. true;
}

toy-injective : (a b : ℕ) → toy.to_buffer a ≡ toy.to_buffer b → a ≡ b
toy-injective a b h = cc

abbrev ballot : List ℕ
ballot = 2 ∷ 1 ∷ []

abbrev ballot' : List ℕ
ballot' = 1 ∷ 2 ∷ []

swapped : Permᴰ ballot ballot'
swapped = Permᴰ.swap refl refl

abbrev elected : ElectionResult ℕ
elected = record {
  coordinator_index = 0;
  coordinator_public_key = some 1;
  sorted_signers = 1 ∷ 2 ∷ [];
  index_mapping = (1, 0) ∷ (0, 1) ∷ [];
  election_proof = compute_election_proof toy ballot;
}

elects : elect_coordinator toy ElectionMethod.lexicographic ballot ≡ some elected
unfolding elect_coordinator elect_by elect_by_lexicographic sort_indexed index_from mapping_from
    key_le bytes_le sort_by insert_by Dict.set ℕ_discrete
elects = refl

elect_coordinator-Perm_example :
    agreed_on toy (elect_coordinator toy ElectionMethod.hash_based ballot)
    ≡ agreed_on toy (elect_coordinator toy ElectionMethod.hash_based ballot')
elect_coordinator-Perm_example =
    elect_coordinator-Perm toy ElectionMethod.hash_based toy-injective swapped

elect_coordinator-mapping_example :
    (j : ℕ) × (Dict.get 1 (elected.index_mapping) ≡ some j)
    × (get_elem? (elected.sorted_signers) j ≡ some 1)
elect_coordinator-mapping_example =
    elect_coordinator-mapping toy ElectionMethod.lexicographic 1 1 ballot elected refl elects
