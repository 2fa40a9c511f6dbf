-- ===== src/Election/Mapping.antt =====
-- The index mapping of an election (lib/musig2/election.ts).
use mathlib.Core.Option.{some-injective}
use xpi_p2p_ts.Dict
use xpi_p2p_ts.Dict.{Dict}
use xpi_p2p_ts.Dict.Laws.{get-set}
use xpi_p2p_ts.Election.{
  Crypto, ElectionMethod, ElectionResult, insert_by, sort_by, index_from, sort_indexed,
  mapping_from, elect_by, elect_by_lexicographic, elect_by_hash, elect_first_signer,
  elect_last_signer, elect_coordinator,
}
use xpi_p2p_ts.Base.{
  ℕ, zero, suc, ◌+◌, ◌<◌, ◌≡◌, refl, ap, ◌∙◌, subst, nat_key, ℕ_discrete, Bool, none, some, List,
  [], ◌∷◌, arith, get_elem?, ite,
}

module _ {A : Type 0} (le : ℕ × A → ℕ × A → Bool) where
  get-insert_by :
      (k : ℕ) (e : ℕ × A) (es : Dict ℕ A)
      → Dict.get (e.0) es ≡ none
      → Dict.get k (insert_by le e es) ≡ Dict.get k (e ∷ es)
  unfolding insert_by Dict.get
  get-insert_by k e [] new = refl
  get-insert_by k e (x ∷ es) new = ground (arith, get-insert_by k e es)

  insert_by-Distinct :
      (e : ℕ × A) (es : Dict ℕ A)
      → Dict.get (e.0) es ≡ none
      → Dict.Distinct es
      → Dict.Distinct (insert_by le e es)
  unfolding insert_by Dict.get
  insert_by-Distinct e [] new d = (refl, tt)
  insert_by-Distinct e (x ∷ es) new d =
      ground (arith, insert_by-Distinct e es, get-insert_by (x.0) e es)

  sort_by-get :
      (es : Dict ℕ A)
      → Dict.Distinct es
      → Dict.Distinct (sort_by le es) × ((k : ℕ) → Dict.get k (sort_by le es) ≡ Dict.get k es)
  unfolding sort_by Dict.get
  sort_by-get [] d = (tt, λ k. refl)
  sort_by-get (e ∷ es) d =
      let (d', same) = sort_by-get es (d.1) in
      let new = same (e.0) ∙ d.0 in
      (
        insert_by-Distinct e (sort_by le es) new d',
        λ k.
            get-insert_by k e (sort_by le es) new
            ∙ ap (ite (ℕ_discrete (e.0) k) (some (e.1))) (same k),
      )

module _ {A : Type 0} where
  get-index_from_below : (i k : ℕ) (xs : List A) → k < i → Dict.get k (index_from i xs) ≡ none
  unfolding index_from Dict.get
  get-index_from_below i k [] h = refl
  get-index_from_below i k (x ∷ xs) h = ground (arith, get-index_from_below (suc i) k xs)

  index_from-Distinct : (i : ℕ) (xs : List A) → Dict.Distinct (index_from i xs)
  unfolding index_from
  index_from-Distinct i [] = tt
  index_from-Distinct i (x ∷ xs) =
      (get-index_from_below (suc i) i xs (omega arith), index_from-Distinct (suc i) xs)

  get-index_from :
      (i k n : ℕ) (xs : List A) → n ≡ i + k → Dict.get n (index_from i xs) ≡ get_elem? xs k
  unfolding index_from Dict.get
  get-index_from i k n [] h = refl
  get-index_from i zero n (x ∷ xs) h = ground arith
  get-index_from i (suc k) n (x ∷ xs) h = ground (arith, get-index_from (suc i) k n xs)

  -- A later item does not touch the entry of an index that it does not have.
  get-mapping_from_absent :
      (k i : ℕ) (es : Dict ℕ A) (m : Dict ℕ ℕ)
      → Dict.get k es ≡ none
      → Dict.get k (mapping_from i es m) ≡ Dict.get k m
  unfolding mapping_from Dict.get
  get-mapping_from_absent k i [] m h = refl
  get-mapping_from_absent k i (e ∷ es) m h =
      ground (arith, get-mapping_from_absent k (suc i) es (Dict.set (e.0) i m), get-set k (e.0) i m)

  get-mapping_from :
      (k i : ℕ) (x : A) (es : Dict ℕ A) (m : Dict ℕ ℕ)
      → Dict.Distinct es
      → Dict.get k es ≡ some x
      → (j : ℕ) × (Dict.get k (mapping_from i es m) ≡ some (i + j))
        × (get_elem? (Dict.values es) j ≡ some x)
  unfolding mapping_from Dict.get
  get-mapping_from k i x [] m d h = absurd (ground arith)
  get-mapping_from k i x (e ∷ es) m d h = elim (ℕ_discrete (e.0) k) [
    | yes same ↦
        let value : some (e.1) ≡ some x = ground arith in
        let absent : Dict.get k es ≡ none = rw (← same) (d.0) in
        let written : Dict.get k (Dict.set (e.0) i m) ≡ some i =
          ground (arith, get-set k (e.0) i m) in
        (
          0,
          get-mapping_from_absent k (suc i) es (Dict.set (e.0) i m) absent
              ∙ written
              ∙ ap some (omega arith),
          value,
        )
    | no other ↦
        let later : Dict.get k es ≡ some x = ground arith in
        let (j, there, at) = get-mapping_from k (suc i) x es (Dict.set (e.0) i m) (d.1) later in
        (suc j, there ∙ ap some (omega arith), at)
  ]

module _ {PublicKey : Type 0} (lib : Crypto PublicKey) where
  elect_by_mapping :
      (method : ElectionMethod) (signers : List PublicKey)
      → let r = elect_by lib method signers in
        (r.index_mapping ≡ mapping_from 0 (sort_indexed lib signers) [])
        × (r.sorted_signers ≡ Dict.values (sort_indexed lib signers))
  unfolding elect_by elect_by_lexicographic elect_by_hash elect_first_signer elect_last_signer
  elect_by_mapping ElectionMethod.lexicographic signers = (refl, refl)
  elect_by_mapping ElectionMethod.hash_based signers = (refl, refl)
  elect_by_mapping ElectionMethod.first_signer signers = (refl, refl)
  elect_by_mapping ElectionMethod.last_signer signers = (refl, refl)

  abbrev Places : ℕ → PublicKey → ElectionResult PublicKey → Type 0
  Places i pk r =
      (j : ℕ) × (Dict.get i (r.index_mapping) ≡ some j) × (get_elem? (r.sorted_signers) j ≡ some pk)

  mapped :
      (i : ℕ) (pk : PublicKey) (signers : List PublicKey)
      → get_elem? signers i ≡ some pk
      → (j : ℕ) × (Dict.get i (mapping_from 0 (sort_indexed lib signers) []) ≡ some j)
        × (get_elem? (Dict.values (sort_indexed lib signers)) j ≡ some pk)
  unfolding sort_indexed
  mapped i pk signers h =
      let from_zero : i ≡ 0 + i = omega arith in
      let (d, same) = sort_by-get _ (index_from 0 signers) (index_from-Distinct 0 signers) in
      let (j, there, found) =
        get-mapping_from i 0 pk _ [] d (same i ∙ get-index_from 0 i i signers from_zero ∙ h) in
      (j, there ∙ ap some (omega arith), found)

  -- Every signer of an election has an entry in the index mapping, and the sorted list has that
  -- signer's key at the index that the entry gives.
  pub elect_coordinator-mapping :
      (method : ElectionMethod) (i : ℕ) (pk : PublicKey) (signers : List PublicKey)
      (r : ElectionResult PublicKey)
      → get_elem? signers i ≡ some pk
      → elect_coordinator lib method signers ≡ some r
      → (j : ℕ) × (Dict.get i (r.index_mapping) ≡ some j)
        × (get_elem? (r.sorted_signers) j ≡ some pk)
  unfolding elect_coordinator Dict.get
  elect_coordinator-mapping method i pk [] r at h = absurd (ground arith)
  elect_coordinator-mapping method i pk (x ∷ []) r at h =
      subst (Places i pk) (some-injective _ _ h) (only i at)
    where
      only :
          (i : ℕ)
          → get_elem? (x ∷ []) i ≡ some pk
          → (j : ℕ) × (Dict.get i ((0, 0) ∷ []) ≡ some j) × (get_elem? (x ∷ []) j ≡ some pk)
      only zero at = (0, ground arith, at)
      only (suc i) at = absurd (ground arith)
  elect_coordinator-mapping method i pk (x ∷ y ∷ pks) r at h =
      let same = elect_by_mapping method (x ∷ y ∷ pks) in
      let (j, there, found) = mapped i pk (x ∷ y ∷ pks) at in
      subst (Places i pk) (some-injective _ _ h) (j, rw same.0 there, rw same.1 found)
