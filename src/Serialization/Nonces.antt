-- ===== src/Serialization/Nonces.antt =====
-- The public nonces of a signer, written and read (lib/musig2/serialization.ts).
use mathlib.Core.List.{Permᴰ, append-nil}
use xpi_p2p_ts.Dict
use xpi_p2p_ts.Dict.{Dict, Distinct}
use xpi_p2p_ts.Dict.Reorder.{get_Perm, Distinct-shown}
use xpi_p2p_ts.Text.{Text, text_key}
use xpi_p2p_ts.Text.Hex.{to_hex, length-to_hex}
use xpi_p2p_ts.Text.Decimal.{parse_int-decimal, are_digits-decimal}
use xpi_p2p_ts.Outcome.{ok}
use xpi_p2p_ts.Value.{Value, object, text, names, property, read, own_keys, or_undefined}
use xpi_p2p_ts.Sorting.{sort_by, insert_by, IsOrderOn, sort_by-Perm_on, map_Perm, All-Perm}
use xpi_p2p_ts.Serialization.{
  Bitcore, nonce_key, is_nonce_key, key_number, by_number, object_of, nonce_keys,
  serialize_nonces_from, serialize_public_nonces, deserialize_nonce, deserialize_nonces,
  deserialize_public_nonces,
}
use xpi_p2p_ts.Serialization.RoundTrip.{
  IsFaithful, point_bytes, serialize_point_lem, deserialize_point-to_hex,
}
use xpi_p2p_ts.Base.{
  ℕ, suc, ◌+◌, ◌≤◌, ◌<◌, ◌≡◌, refl, sym, ap, ◌∙◌, le→leb, lt→ltb, Bool, true, none, some, List, [],
  ◌∷◌, ◌++◌, map, length, length-map, keep, All, arith,
}

key_number-nonce_key : (i : ℕ) → key_number (nonce_key i) ≡ i
unfolding key_number nonce_key
key_number-nonce_key i = parse_int-decimal i

is_nonce_key-nonce_key : (i : ℕ) → is_nonce_key (nonce_key i) ≡ true
unfolding is_nonce_key nonce_key
is_nonce_key-nonce_key i = ground (arith, are_digits-decimal i)

-- The keys that the writer gives, among which a number has one key.
pub IsWritten : Text → Type 0
IsWritten k = k ≡ nonce_key (key_number k)

nonce_key-IsWritten : (i : ℕ) → IsWritten (nonce_key i)
unfolding IsWritten
nonce_key-IsWritten i = ap nonce_key (sym (key_number-nonce_key i))

by_number-IsOrderOn : IsOrderOn IsWritten by_number
unfolding IsWritten
by_number-IsOrderOn = record {
  total = λ a b h. ground arith;
  trans = λ a b c h k. ground arith;
  antisym = λ a b p q h k.
      let same : key_number a ≡ key_number b = ground arith in p ∙ ap nonce_key same ∙ sym q;
}

IsWritten-is_nonce_key : (k : Text) → IsWritten k → is_nonce_key k ≡ true
unfolding IsWritten
IsWritten-is_nonce_key k h = rw h (is_nonce_key-nonce_key (key_number k))

keep-All : (p : Text → Bool) (xs : List Text) → All (λ x. p x ≡ true) xs → keep p xs ≡ xs
keep-All p [] a = refl
keep-All p (x ∷ xs) a = ground (arith, keep-All p xs a.1)

pub All-map {ℓ κ μ} :
    {A : Type ℓ} {P : A → Type κ} {Q : A → Type μ} (xs : List A)
    → ((x : A) → P x → Q x)
    → All P xs
    → All Q xs
All-map [] f a = tt
All-map (x ∷ xs) f a = (f x a.0, All-map xs f a.1)

pub names-object_of : (m : Dict Text Text) → names (object_of m) ≡ Dict.keys m
names-object_of [] = refl
names-object_of ((k, t) ∷ m) = ap (◌∷◌ k) (names-object_of m)

own_keys-object_of : (m : Dict Text Text) → own_keys (object (object_of m)) ≡ Dict.keys m
unfolding own_keys
own_keys-object_of m = names-object_of m

pub property-object_of :
    (k t : Text) (m : Dict Text Text)
    → Dict.get k m ≡ some t
    → property k (object_of m) ≡ some (text t)
unfolding property Dict.get
property-object_of k t [] h = cc
property-object_of k t ((j, u) ∷ m) h = ground (arith, property-object_of k t m)

read-object_of :
    (k t : Text) (m : Dict Text Text)
    → Dict.get k m ≡ some t
    → read k (object (object_of m)) ≡ text t
unfolding read or_undefined
read-object_of k t m h = rw (property-object_of k t m h)

-- A new key stands last.
set_last :
    (k t : Text) (m : Dict Text Text)
    → All (λ (e : Text × Text). key_number e.0 < key_number k) m
    → Dict.set k t m ≡ m ++ (k, t) ∷ []
unfolding Dict.set
set_last k t [] a = refl
set_last k t ((j, u) ∷ m) a = ground (arith, set_last k t m a.1)

insert_first :
    (x y : Text) (ys : List Text)
    → key_number x ≤ key_number y
    → insert_by by_number x (y ∷ ys) ≡ x ∷ y ∷ ys
unfolding insert_by
insert_first x y ys h = ground arith

-- `m ++ e ∷ n` bracketed to the left.
snoc_append {ℓ} : {A : Type ℓ} (m : List A) (e : A) (n : List A) → (m ++ e ∷ []) ++ n ≡ m ++ e ∷ n
snoc_append [] e n = refl
snoc_append (x ∷ m) e n = ap (◌∷◌ x) (snoc_append m e n)

All-snoc {ℓ κ} :
    {A : Type ℓ} (P : A → Type κ) (xs : List A) (x : A) → All P xs → P x → All P (xs ++ x ∷ [])
All-snoc P [] x a p = (p, tt)
All-snoc P (y ∷ xs) x a p = (a.0, All-snoc P xs x a.1 p)

module _ {Point BN PublicKey : Type 0} (lib : Bitcore Point BN PublicKey)
    (faithful : IsFaithful lib) where
  unfoldable pub point_text : Point → Text
  point_text p = to_hex (point_bytes lib faithful p)

  -- The entries that are written for nonces from an index on.
  unfoldable pub entries : ℕ → List Point → Dict Text Text
  unfolding point_text
  entries i [] = []
  entries i (p ∷ ps) = (nonce_key (i + 1), point_text p) ∷ entries (suc i) ps

  entries-Written : (i : ℕ) (ps : List Point) → All IsWritten (Dict.keys (entries i ps))
  unfolding entries
  entries-Written i [] = tt
  entries-Written i (p ∷ ps) = (nonce_key-IsWritten (i + 1), entries-Written (suc i) ps)

  entries_fresh : (i j : ℕ) (ps : List Point) → i ≤ j → Dict.get (nonce_key i) (entries j ps) ≡ none
  unfolding entries Dict.get
  entries_fresh i j [] h = refl
  entries_fresh i j (p ∷ ps) h =
      ground
        (arith, key_number-nonce_key i, key_number-nonce_key (j + 1), entries_fresh i (suc j) ps)

  pub entries-Distinct : (i : ℕ) (ps : List Point) → Distinct (entries i ps)
  unfolding entries
  entries-Distinct i [] = tt
  entries-Distinct i (p ∷ ps) =
      (entries_fresh (i + 1) (suc i) ps (omega arith), entries-Distinct (suc i) ps)

  entries-sorted :
      (i : ℕ) (ps : List Point)
      → sort_by by_number (Dict.keys (entries i ps)) ≡ Dict.keys (entries i ps)
  unfolding entries sort_by
  entries-sorted i [] = refl
  entries-sorted i (p ∷ []) = refl
  entries-sorted i (p ∷ q ∷ ps) =
      ap (insert_by by_number (nonce_key (i + 1))) (entries-sorted (suc i) (q ∷ ps))
      ∙ insert_first (nonce_key (i + 1)) (nonce_key (suc i + 1)) _
          (omega (arith, key_number-nonce_key (i + 1), key_number-nonce_key (suc i + 1)))

  serialize_nonces_from_lem :
      (i : ℕ) (ps : List Point) (m : Dict Text Text)
      → All (λ (e : Text × Text). key_number e.0 < i + 1) m
      → serialize_nonces_from lib i (map some ps) m ≡ ok (m ++ entries i ps)
  unfolding serialize_nonces_from entries point_text
  serialize_nonces_from_lem i [] m a = ap ok (sym (append-nil m))
  serialize_nonces_from_lem i (p ∷ ps) m a =
      let number = key_number-nonce_key (i + 1) in
      let e : Text × Text = (nonce_key (i + 1), to_hex (point_bytes lib faithful p)) in
      rw
        (
          serialize_point_lem lib faithful p,
          set_last (nonce_key (i + 1)) (to_hex (point_bytes lib faithful p)) m (rw number a),
        )
        (serialize_nonces_from_lem (suc i) ps (m ++ e ∷ []) (
            All-snoc _ m e (All-map m (λ x (h : key_number x.0 < i + 1). omega arith) a)
              (omega (arith, number)))
          ∙ ap ok (snoc_append m e (entries (suc i) ps)))

  serialize_public_nonces_lem :
      (ps : List Point)
      → 2 ≤ length ps
      → serialize_public_nonces lib (some (map some ps)) ≡ ok (entries 0 ps)
  unfolding serialize_public_nonces
  serialize_public_nonces_lem ps h =
      let written = serialize_nonces_from_lem 0 ps [] tt in
      rw (length-map ps (λ (p : Point). some p), le→leb 2 (length ps) h) written

  deserialize_nonce_lem :
      (v : Value) (k : Text) (p : Point)
      → read k v ≡ text (point_text p)
      → deserialize_nonce lib v k ≡ ok p
  unfolding deserialize_nonce point_text
  deserialize_nonce_lem v k p h =
      let size = length-to_hex (point_bytes lib faithful p) in
      rw (h, lt→ltb 0 (length (to_hex (point_bytes lib faithful p))) (omega arith))
        (rw (deserialize_point-to_hex lib faithful p))

  deserialize_nonces_lem :
      (v : Value) (i : ℕ) (ps : List Point)
      → All (λ (e : Text × Text). read e.0 v ≡ text e.1) (entries i ps)
      → deserialize_nonces lib v (Dict.keys (entries i ps)) ≡ ok ps
  unfolding deserialize_nonces entries
  deserialize_nonces_lem v i [] a = refl
  deserialize_nonces_lem v i (p ∷ ps) a =
      rw
        (deserialize_nonce_lem v (nonce_key (i + 1)) p a.0, deserialize_nonces_lem v (suc i) ps a.1)

  pub keys_are_nonces :
      (ps : List Point) (m : Dict Text Text)
      → Permᴰ (entries 0 ps) m
      → keep is_nonce_key (Dict.keys m) ≡ Dict.keys m
  keys_are_nonces ps m p =
      let same = map_Perm (λ (e : Text × Text). e.0) p in
      keep-All is_nonce_key (Dict.keys m) (
        All-map (Dict.keys m) IsWritten-is_nonce_key
          (All-Perm IsWritten same (entries-Written 0 ps)))

  -- The keys that are read from a map with the entries in any order.
  pub nonce_keys_lem :
      (ps : List Point) (m : Dict Text Text)
      → Permᴰ (entries 0 ps) m
      → nonce_keys lib (object (object_of m)) ≡ Dict.keys (entries 0 ps)
  nonce_keys_lem ps m p =
      let same = map_Perm (λ (e : Text × Text). e.0) p in
      let written = entries-Written 0 ps in
      ap (λ ks. sort_by by_number (keep is_nonce_key ks)) (own_keys-object_of m)
      ∙ ap (sort_by by_number) (keys_are_nonces ps m p)
      ∙ sym (sort_by-Perm_on IsWritten by_number by_number-IsOrderOn same written)
      ∙ entries-sorted 0 ps

  pub length-entries : (i : ℕ) (ps : List Point) → length (Dict.keys (entries i ps)) ≡ length ps
  unfolding entries
  length-entries i [] = refl
  length-entries i (p ∷ ps) = ap suc (length-entries (suc i) ps)

  deserialize_public_nonces_lem :
      (ps : List Point) (n : Dict Text Text)
      → 2 ≤ length ps
      → Permᴰ (entries 0 ps) n
      → deserialize_public_nonces lib (object (object_of n)) ≡ ok ps
  unfolding deserialize_public_nonces
  deserialize_public_nonces_lem ps n h p =
      let d = entries-Distinct 0 ps in
      let same = (get_Perm p d).0 in
      let shown =
        All-map (entries 0 ps)
          (λ (e : Text × Text) k. read-object_of e.0 e.1 n (sym (same e.0) ∙ k))
          (Distinct-shown (entries 0 ps) d) in
      rw (nonce_keys_lem ps n p, length-entries 0 ps, le→leb 2 (length ps) h)
        (deserialize_nonces_lem (object (object_of n)) 0 ps shown)

  -- Two nonces or more are written as one entry each, `r1` and so on, and are read back in their order
  -- from an object with these entries, in whatever order it lists them, if xpi-ts makes a point again
  -- from its compressed form.
  pub deserialize_public_nonces-serialize :
      (ps : List Point) (m : Dict Text Text)
      → 2 ≤ length ps
      → Permᴰ (entries 0 ps) m
      → (serialize_public_nonces lib (some (map some ps)) ≡ ok (entries 0 ps))
        × (deserialize_public_nonces lib (object (object_of m)) ≡ ok ps)
  deserialize_public_nonces-serialize ps m h p =
      (serialize_public_nonces_lem ps h, deserialize_public_nonces_lem ps m h p)
