-- ===== src/Election/Winner.antt =====
-- The elected coordinator (lib/musig2/election.ts) and the order of the signers.
use mathlib.Core.List.{Permᴰ}
use text.Mathlib.Text.{◌==◌ as same_text}
use text.Mathlib.TextEquality.{eq_iff}
use xpi_p2p_ts.Dict
use xpi_p2p_ts.Dict.{Dict}
use xpi_p2p_ts.Election.{
  Crypto, ElectionMethod, ElectionResult, insert_by, sort_by, join, text_le, key_le, index_from,
  sort_indexed, compute_election_proof, hash_index, elect_by, elect_by_lexicographic, elect_by_hash,
  elect_first_signer, elect_last_signer, elect_coordinator, verify_election_result,
}
use xpi_p2p_ts.Election.Sorting.{by-IsOrder, text_le-IsOrder}
use xpi_p2p_ts.Sorting.{sort_by-Perm, map_Perm}
use xpi_p2p_ts.Base.{
  ℕ, suc, ◌+◌, ◌-◌, ◌<◌, ◌≡◌, refl, sym, ap, ◌∙◌, String, nat_key, true, Option, none, some, List,
  [], ◌∷◌, arith, Bool-cases, Option-cases, ◌==◌, ◌&&◌, inl, inr, length, get_elem?, get_elem?_lt,
}

module _ {PublicKey : Type 0} (lib : Crypto PublicKey) where
  values-insert_by :
      (e : ℕ × PublicKey) (l : Dict ℕ PublicKey)
      → Dict.values
          (insert_by (λ (a : ℕ × PublicKey) (b : ℕ × PublicKey). key_le lib (a.1) (b.1)) e l)
        ≡ insert_by (key_le lib) (e.1) (Dict.values l)
  unfolding insert_by
  values-insert_by e [] = refl
  values-insert_by e (x ∷ l) = ground (arith, values-insert_by e l)

  values-sort :
      (i : ℕ) (signers : List PublicKey)
      → Dict.values (
          sort_by
            (λ (a : ℕ × PublicKey) (b : ℕ × PublicKey). key_le lib (a.1) (b.1))
            (index_from i signers))
        ≡ sort_by (key_le lib) signers
  unfolding sort_by index_from
  values-sort i [] = refl
  values-sort i (pk ∷ pks) =
      values-insert_by (i, pk)
        (sort_by (λ (a : ℕ × PublicKey) (b : ℕ × PublicKey). key_le lib (a.1) (b.1))
          (index_from (suc i) pks))
      ∙ ap (insert_by (key_le lib) pk) (values-sort (suc i) pks)

  abbrev winner : ElectionMethod → List PublicKey → ℕ
  winner ElectionMethod.hash_based sorted = hash_index lib sorted
  winner ElectionMethod.last_signer sorted = length sorted - 1
  winner _ sorted = 0

  -- What a result says without the indices of the signers.
  abbrev pub agreed : ElectionResult PublicKey → ℕ × Option PublicKey × List PublicKey × String
  agreed r = (r.coordinator_index, r.coordinator_public_key, r.sorted_signers, r.election_proof)

  abbrev pub agreed_on :
      Option (ElectionResult PublicKey) → Option (ℕ × Option PublicKey × List PublicKey × String)
  agreed_on none = none
  agreed_on (some r) = some (agreed r)

  elect_by-winner :
      (method : ElectionMethod) (signers : List PublicKey)
      → let sorted = sort_by (key_le lib) signers in
        agreed (elect_by lib method signers) ≡ (
          winner method sorted,
          get_elem? sorted (winner method sorted),
          sorted,
          compute_election_proof lib signers,
        )
  unfolding elect_by elect_by_lexicographic elect_by_hash elect_first_signer elect_last_signer
      sort_indexed
  elect_by-winner ElectionMethod.lexicographic signers = rw (values-sort 0 signers) refl
  elect_by-winner ElectionMethod.hash_based signers = rw (values-sort 0 signers) refl
  elect_by-winner ElectionMethod.first_signer signers = rw (values-sort 0 signers) refl
  elect_by-winner ElectionMethod.last_signer signers = rw (values-sort 0 signers) refl

  winner-single : (method : ElectionMethod) (pk : PublicKey) → winner method (pk ∷ []) ≡ 0
  unfolding hash_index
  winner-single ElectionMethod.lexicographic pk = refl
  winner-single ElectionMethod.hash_based pk = omega arith
  winner-single ElectionMethod.first_signer pk = refl
  winner-single ElectionMethod.last_signer pk = refl

  -- One signer is elected as by any method.
  elect_coordinator-winner :
      (method : ElectionMethod) (pk : PublicKey) (pks : List PublicKey)
      → let signers = pk ∷ pks in
        let sorted = sort_by (key_le lib) signers in
        (r : ElectionResult PublicKey) × (elect_coordinator lib method signers ≡ some r)
        × (agreed r ≡ (
          winner method sorted,
          get_elem? sorted (winner method sorted),
          sorted,
          compute_election_proof lib signers,
        ))
  unfolding elect_coordinator sort_by insert_by
  elect_coordinator-winner method pk [] = (
    record {
      coordinator_index = 0;
      coordinator_public_key = some pk;
      sorted_signers = pk ∷ [];
      index_mapping = (0, 0) ∷ [];
      election_proof = compute_election_proof lib (pk ∷ []);
    },
    refl,
    rw (winner-single method pk) refl,
  )
  elect_coordinator-winner method pk (pk' ∷ pks) =
      (elect_by lib method (pk ∷ pk' ∷ pks), refl, elect_by-winner method (pk ∷ pk' ∷ pks))

  -- All that is agreed on, from the sorted signers and the proof.
  abbrev view :
      ElectionMethod
      → List PublicKey
      → String
      → Option (ℕ × Option PublicKey × List PublicKey × String)
  view method [] proof = none
  view method (pk ∷ pks) proof =
      let sorted = pk ∷ pks in
      some (winner method sorted, get_elem? sorted (winner method sorted), sorted, proof)

  view-insert_by :
      (method : ElectionMethod) (pk : PublicKey) (pks : List PublicKey) (proof : String)
      → let sorted = insert_by (key_le lib) pk pks in
        view method sorted proof
        ≡ some (winner method sorted, get_elem? sorted (winner method sorted), sorted, proof)
  unfolding insert_by
  view-insert_by method pk [] proof = refl
  view-insert_by method pk (x ∷ pks) proof = elim (Bool-cases (key_le lib pk x)) [
    | inl le ↦ rw le refl
    | inr gt ↦ rw gt refl
  ]

  elect_coordinator-view :
      (method : ElectionMethod) (signers : List PublicKey)
      → agreed_on (elect_coordinator lib method signers)
        ≡ view method (sort_by (key_le lib) signers) (compute_election_proof lib signers)
  unfolding elect_coordinator sort_by
  elect_coordinator-view method [] = refl
  elect_coordinator-view method (pk ∷ pks) =
      let (r, elected, same) = elect_coordinator-winner method pk pks in
      rw elected (ap some same ∙ sym (view-insert_by method pk (sort_by (key_le lib) pks) _))

  -- Signers that list each other in any order elect the same coordinator by every method, those of
  -- the first and of the last signer included, which take them in sorted order: the same index, key,
  -- sorted list and proof, or both an error, if different keys have different bytes.
  pub elect_coordinator-Perm :
      (method : ElectionMethod) {xs ys : List PublicKey}
      → ((a b : PublicKey) → lib.to_buffer a ≡ lib.to_buffer b → a ≡ b)
      → Permᴰ xs ys
      → agreed_on (elect_coordinator lib method xs) ≡ agreed_on (elect_coordinator lib method ys)
  unfolding compute_election_proof key_le
  elect_coordinator-Perm method {xs} {ys} injective p =
      let keys = sort_by-Perm (key_le lib) (by-IsOrder (lib.to_buffer) injective) p in
      let texts = sort_by-Perm text_le text_le-IsOrder (map_Perm (lib.to_string) p) in
      elect_coordinator-view method xs
      ∙ (λ i. view method (keys i) (lib.sha256_hex (join (texts i))))
      ∙ sym (elect_coordinator-view method ys)

  accepts :
      (r r' : ElectionResult PublicKey)
      → some (agreed r) ≡ some (agreed r')
      → ((r'.coordinator_index == r.coordinator_index)
          && same_text (r'.election_proof) (r.election_proof))
        ≡ true
  accepts r r' h =
      let index : r'.coordinator_index ≡ r.coordinator_index = cc in
      let proof : r'.election_proof ≡ r.election_proof = cc in
      ground (arith, (eq_iff (r'.election_proof) (r.election_proof)).1 proof)

  -- Where different keys have different bytes, the result of one signer passes the check of another
  -- that lists the signers in another order.
  pub verify_election_result-Perm :
      (method : ElectionMethod) {xs ys : List PublicKey} (r : ElectionResult PublicKey)
      → ((a b : PublicKey) → lib.to_buffer a ≡ lib.to_buffer b → a ≡ b)
      → Permᴰ xs ys
      → elect_coordinator lib method xs ≡ some r
      → verify_election_result lib method ys r ≡ some true
  unfolding verify_election_result
  verify_election_result-Perm method {xs} {ys} r injective p h =
      let same = elect_coordinator-Perm method injective p in
      elim (Option-cases (elect_coordinator lib method ys)) [
        | inl e ↦ absurd (ground arith)
        | inr (r', e) ↦
            let agree : some (agreed r) ≡ some (agreed r') =
              sym (ap agreed_on h) ∙ same ∙ ap agreed_on e in
            rw (e, verify_election_result) (ap some (accepts r r' agree))
      ]

  length-insert_by :
      (pk : PublicKey) (pks : List PublicKey)
      → length (insert_by (key_le lib) pk pks) ≡ length pks + 1
  unfolding insert_by
  length-insert_by pk [] = refl
  length-insert_by pk (x ∷ pks) = ground (arith, length-insert_by pk pks)

  length-sort_by : (pks : List PublicKey) → length (sort_by (key_le lib) pks) ≡ length pks
  unfolding sort_by
  length-sort_by [] = refl
  length-sort_by (pk ∷ pks) =
      omega (arith, length-sort_by pks, length-insert_by pk (sort_by (key_le lib) pks))

  winner-lt :
      (method : ElectionMethod) (sorted : List PublicKey)
      → 0 < length sorted
      → winner method sorted < length sorted
  unfolding hash_index
  winner-lt ElectionMethod.lexicographic sorted h = h
  winner-lt ElectionMethod.hash_based sorted h = omega arith
  winner-lt ElectionMethod.first_signer sorted h = h
  winner-lt ElectionMethod.last_signer sorted h = omega arith

  -- An election among at least one signer succeeds, its index lies in the sorted list, which has as
  -- many keys as there are signers, and the coordinator's key stands there.
  pub elect_coordinator-total :
      (method : ElectionMethod) (signers : List PublicKey)
      → 0 < length signers
      → (r : ElectionResult PublicKey) × (elect_coordinator lib method signers ≡ some r)
        × (r.coordinator_index < length signers)
        × (length (r.sorted_signers) ≡ length signers)
        × (pk : PublicKey) × (r.coordinator_public_key ≡ some pk)
        × (get_elem? (r.sorted_signers) (r.coordinator_index) ≡ some pk)
  elect_coordinator-total method [] h = absurd (omega arith)
  elect_coordinator-total method (pk ∷ pks) h =
      let (r, elected, same) = elect_coordinator-winner method pk pks in
      let index = ap (λ x. x.0) same in
      let key = ap (λ x. x.1) same in
      let sorted = ap (λ x. x.2) same in
      let size = length-sort_by (pk ∷ pks) in
      let below = winner-lt method (sort_by (key_le lib) (pk ∷ pks)) (omega arith) in
      let (it, at) =
        get_elem?_lt (sort_by (key_le lib) (pk ∷ pks))
          (winner method (sort_by (key_le lib) (pk ∷ pks))) below in
      (
        r,
        elected,
        rw (index, ← size) below,
        ap length sorted ∙ size,
        it,
        key ∙ at,
        rw (sorted, index) at,
      )
