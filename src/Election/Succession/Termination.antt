-- ===== src/Election/Succession/Termination.antt =====
-- The loop of getCoordinatorPriorityList (lib/musig2/election.ts).
use xpi_p2p_ts.Election.{Crypto, ElectionMethod, ElectionResult, elect_coordinator}
use xpi_p2p_ts.Election.Winner.{elect_coordinator-total}
use xpi_p2p_ts.Election.Succession.{
  Priority, get_backup_coordinator, includes, priority_loop, get_coordinator_priority_list,
}
use xpi_p2p_ts.Election.Succession.Counting.{Once, length-Once, append-Once, append-below}
use xpi_p2p_ts.Election.Succession.Backup.{IsInRange-cases, get_backup_coordinator-IsInRange}
use xpi_p2p_ts.Base.{
  ℕ, zero, suc, ◌+◌, ◌<◌, ◌≡◌, refl, some, List, [], ◌∷◌, ◌++◌, length, length-append, All, arith,
  Bool-cases, inl, inr,
}

module _ {PublicKey : Type 0} (lib : Crypto PublicKey) where
  priority_loop-ends :
      (fuel : ℕ) (method : ElectionMethod) (signers : List PublicKey) (first : ℕ) (list : List ℕ)
      (current : ℕ)
      → Once (first ∷ list)
      → All (λ x. x < length signers) (first ∷ list)
      → current < length signers
      → length signers + 1 < fuel + length (first ∷ list) + 1
      → (rest : List ℕ) × (priority_loop lib fuel method signers (first ∷ list) current
          ≡ Priority.listed (first ∷ rest))
        × Once (first ∷ rest)
        × All (λ x. x < length signers) (first ∷ rest)
  unfolding priority_loop
  priority_loop-ends zero method signers first list current o a h f =
      absurd (omega (arith, length-Once (length signers) (first ∷ list) o a))
  priority_loop-ends (suc fuel) method signers first list current o a h f =
      let found =
        IsInRange-cases (length signers) (get_backup_coordinator lib method signers current)
          (get_backup_coordinator-IsInRange lib method signers current h) in
      elim found [
        | inl (i, e, r) ↦ elim (Bool-cases (includes i (first ∷ list))) [
          | inl seen ↦ (list, rw (e, priority_loop, seen) refl, o, a)
          | inr new ↦
              rw (e, priority_loop, new)
                (priority_loop-ends fuel method signers first (list ++ i ∷ []) i
                  (append-Once i (first ∷ list) new o)
                  (append-below (length signers) i (first ∷ list) r a) r
                  (omega (arith, length-append list (i ∷ []))))
        ]
        | inr e ↦ (list, rw (e, priority_loop) refl, o, a)
      ]

  -- With at least one signer the priority list is built in at most one round for each signer and
  -- one more: it begins with the elected coordinator, has every index once at most, and each is the
  -- index of a signer.
  pub get_coordinator_priority_list-ends :
      (method : ElectionMethod) (signers : List PublicKey)
      → 0 < length signers
      → (r : ElectionResult PublicKey) × (rest : List ℕ) × (elect_coordinator lib method signers
          ≡ some r)
        × (get_coordinator_priority_list lib method signers
            ≡ Priority.listed (r.coordinator_index ∷ rest))
        × Once (r.coordinator_index ∷ rest)
        × All (λ x. x < length signers) (r.coordinator_index ∷ rest)
  unfolding get_coordinator_priority_list includes
  get_coordinator_priority_list-ends method signers h =
      let (r, elected, below, size, pk, key, at) = elect_coordinator-total lib method signers h in
      let first = r.coordinator_index in
      let (rest, ends, o, a) =
        priority_loop-ends (length signers + 1) method signers first [] first (refl, tt) (below, tt)
          below (omega arith) in
      (r, rest, elected, rw (elected, get_coordinator_priority_list) ends, o, a)
