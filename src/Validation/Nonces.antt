-- ===== src/Validation/Nonces.antt =====
-- Public nonces between a signer that writes them (lib/musig2/serialization.ts) and one that checks
-- them (lib/musig2/validation.ts) and reads them.
use mathlib.Core.List.{Permᴰ}
use xpi_p2p_ts.Dict
use xpi_p2p_ts.Dict.{Dict}
use xpi_p2p_ts.Dict.Reorder.{get_Perm, Distinct-shown}
use xpi_p2p_ts.Text.{Text, text_key, is_same, is_same-eq, is_same_refl, literal}
use xpi_p2p_ts.Text.Hex.{is_hex, is_hex-to_hex, from_hex-to_hex, length-to_hex}
use xpi_p2p_ts.Outcome.{>>=-eq-ok}
use xpi_p2p_ts.Value.{Value, Fields, object, text, property, own_keys, or_undefined}
use xpi_p2p_ts.Sorting.{sort_by, length-sort_by, All-Perm}
use xpi_p2p_ts.Serialization.{
  Bitcore, nonce_key, is_nonce_key, by_number, object_of, nonce_keys, deserialize_nonces,
  deserialize_public_nonces,
}
use xpi_p2p_ts.Serialization.RoundTrip.{
  IsFaithful, point_bytes, point_bytes-AreBytes, point_bytes-size,
}
use xpi_p2p_ts.Serialization.Nonces.{
  entries, point_text, entries-Distinct, length-entries, nonce_keys_lem, keys_are_nonces,
  property-object_of, names-object_of, All-map,
}
use xpi_p2p_ts.Validation.{
  all_well, fields_of, has_length, nonce_names, are_sequential, validate_each_nonce,
  validate_public_nonces, validate_object,
}
use xpi_p2p_ts.Validation.Checks.{
  seq_iff, require_iff, IsObject, validate_hex_string_iff, validate_object_iff,
}
use xpi_p2p_ts.Base.{
  ℕ, zero, suc, ◌+◌, ◌≤◌, ◌<◌, ◌≡◌, refl, sym, ap, ◌∙◌, ◌↔◌, subst, leb, leb→le, le→leb, true, some,
  List, [], ◌∷◌, ◌++◌, length, keep, All, arith, Bool-cases, inl, inr,
}

-- `r` with the numbers from an index on.
abbrev pub first_keys : ℕ → ℕ → List Text
first_keys i zero = []
first_keys i (suc n) = nonce_key (i + 1) ∷ first_keys (suc i) n

are_sequential-eq :
    (i : ℕ) (ks : List Text) → are_sequential i ks ≡ true → ks ≡ first_keys i (length ks)
unfolding are_sequential
are_sequential-eq i [] h = refl
are_sequential-eq i (k ∷ ks) h = elim (Bool-cases (is_same k (nonce_key (i + 1)))) [
  | inl e ↦
      let rest = are_sequential-eq (suc i) ks (rw e at h) in
      λ j. is_same-eq k (nonce_key (i + 1)) e j ∷ rest j
  | inr e ↦ absurd (let h' = rw e at h in cc)
]

nonces_iff :
    (name : Text) (fs : Fields)
    → (validate_public_nonces name (object fs) ≡ all_well) ↔ (
        (leb 2 (length (nonce_names fs)) ≡ true)
        × ((validate_each_nonce name fs (nonce_names fs) ≡ all_well)
            × (are_sequential 0 (sort_by by_number (nonce_names fs)) ≡ true)))
unfolding validate_public_nonces validate_object
nonces_iff name fs =
    let keys = nonce_names fs in
    let each = validate_each_nonce name fs keys in
    seq_iff _ _ (require_iff (leb 2 (length keys)) _)
      (seq_iff each _ (λ h. h, λ h. h) (require_iff (are_sequential 0 (sort_by by_number keys)) _))

validate_public_nonces-IsObject :
    (name : Text) (v : Value) → validate_public_nonces name v ≡ all_well → IsObject v
unfolding validate_public_nonces
validate_public_nonces-IsObject name v h =
    let (tt, e, _) = >>=-eq-ok (validate_object name v) _ h in (validate_object_iff name v).0 e

module _ {Point BN PublicKey : Type 0} (lib : Bitcore Point BN PublicKey) where
  nonce_keys-names : (fs : Fields) → nonce_keys lib (object fs) ≡ sort_by by_number (nonce_names fs)
  unfolding own_keys
  nonce_keys-names fs = refl

  validated_object :
      (name : Text) (fs : Fields)
      → validate_public_nonces name (object fs) ≡ all_well
      → (deserialize_public_nonces lib (object fs)
          ≡ deserialize_nonces lib (object fs) (first_keys 0 (length (nonce_names fs))))
        × (2 ≤ length (nonce_names fs))
  unfolding deserialize_public_nonces
  validated_object name fs h =
      let (two, (_, sequential)) = (nonces_iff name fs).0 h in
      let size = length-sort_by by_number (nonce_names fs) in
      let keys =
        are_sequential-eq 0 (sort_by by_number (nonce_names fs)) sequential
        ∙ ap (first_keys 0) size in
      (
        rw (nonce_keys-names fs, size, two) (ap (deserialize_nonces lib (object fs)) keys),
        leb→le 2 _ two,
      )

  -- Nonces that pass the check are at least two, and are read from the keys `r1`, `r2` and so on, as
  -- many as there are.
  pub deserialize_public_nonces-validated :
      (name : Text) (v : Value)
      → validate_public_nonces name v ≡ all_well
      → (deserialize_public_nonces lib v
          ≡ deserialize_nonces lib v (first_keys 0 (length (nonce_names (fields_of v)))))
        × (2 ≤ length (nonce_names (fields_of v)))
  deserialize_public_nonces-validated name v h =
      let (fs, e) = validate_public_nonces-IsObject name v h in
      let validated = subst (λ w. validate_public_nonces name w ≡ all_well) e h in
      subst
        (λ w.
          (deserialize_public_nonces lib w
            ≡ deserialize_nonces lib w (first_keys 0 (length (nonce_names (fields_of w)))))
          × (2 ≤ length (nonce_names (fields_of w))))
        (sym e) (validated_object name fs validated)

  module _ (faithful : IsFaithful lib) where
    are_sequential-entries :
        (i : ℕ) (ps : List Point) → are_sequential i (Dict.keys (entries lib faithful i ps)) ≡ true
    unfolding are_sequential entries
    are_sequential-entries i [] = refl
    are_sequential-entries i (p ∷ ps) =
        rw (is_same_refl (nonce_key (i + 1)), are_sequential-entries (suc i) ps)

    -- A text with the bytes of a point.
    abbrev IsPointText : Text → Type 0
    IsPointText t = (0 < length t) × ((is_hex t ≡ true) × (has_length (some 33) t ≡ true))

    point_text-IsPointText : (p : Point) → IsPointText (point_text lib faithful p)
    unfolding point_text has_length
    point_text-IsPointText p =
        let bytes = point_bytes lib faithful p in
        let a = point_bytes-AreBytes lib faithful p in
        let size = point_bytes-size lib faithful p in
        (
          omega (arith, length-to_hex bytes, size),
          (is_hex-to_hex bytes a, rw (from_hex-to_hex bytes a, size)),
        )

    entries-IsPointText :
        (i : ℕ) (ps : List Point)
        → All (λ (e : Text × Text). IsPointText e.1) (entries lib faithful i ps)
    unfolding entries
    entries-IsPointText i [] = tt
    entries-IsPointText i (p ∷ ps) = (point_text-IsPointText p, entries-IsPointText (suc i) ps)

    validate_each :
        (name : Text) (fs : Fields) (m : Dict Text Text)
        → All (λ (e : Text × Text). property e.0 fs ≡ some (text e.1)) m
        → All (λ (e : Text × Text). IsPointText e.1) m
        → validate_each_nonce name fs (Dict.keys m) ≡ all_well
    unfolding validate_each_nonce or_undefined
    validate_each name fs [] stored points = refl
    validate_each name fs ((k, t) ∷ m) stored points =
        let hex =
          (validate_hex_string_iff (some 33) (name ++ (literal "." ++ k)) (text t)).1
            ((t, refl, points.0.0), points.0.1) in
        rw (stored.0, hex, validate_each name fs m stored.1 points.1)

    -- What is written for two nonces or more passes the check of the receiver, in whatever order the
    -- object lists its entries, if xpi-ts writes points in compressed form.
    pub validate_public_nonces-serialized :
        (name : Text) (ps : List Point) (m : Dict Text Text)
        → 2 ≤ length ps
        → Permᴰ (entries lib faithful 0 ps) m
        → validate_public_nonces name (object (object_of m)) ≡ all_well
    validate_public_nonces-serialized name ps m h p =
        let fs = object_of m in
        let distinct = (get_Perm p (entries-Distinct lib faithful 0 ps)).1 in
        let stored =
          All-map m (λ (e : Text × Text) g. property-object_of e.0 e.1 m g)
            (Distinct-shown m distinct) in
        let points = All-Perm (λ (e : Text × Text). IsPointText e.1) p (entries-IsPointText 0 ps) in
        let listed : nonce_names fs ≡ Dict.keys m =
          ap (keep is_nonce_key) (names-object_of m) ∙ keys_are_nonces lib faithful ps m p in
        let sorted : sort_by by_number (nonce_names fs) ≡ Dict.keys (entries lib faithful 0 ps) =
          sym (nonce_keys-names fs) ∙ nonce_keys_lem lib faithful ps m p in
        let size =
          sym (length-sort_by by_number (nonce_names fs))
          ∙ ap length sorted
          ∙ length-entries lib faithful 0 ps in
        (nonces_iff name fs).1 (
          le→leb 2 _ (omega (arith, size)),
          (
            ap (validate_each_nonce name fs) listed ∙ validate_each name fs m stored points,
            ap (are_sequential 0) sorted ∙ are_sequential-entries 0 ps,
          ),
        )
