-- ===== src/SessionPersistence/Expiry.antt =====
-- Sessions that are too old (lib/musig2/session-persistence.ts).
use xpi_p2p_ts.Dict
use xpi_p2p_ts.Dict.{Dict}
use xpi_p2p_ts.Dict.Laws.{delete_absent}
use xpi_p2p_ts.Text.{Text, text_key}
use xpi_p2p_ts.Serialization.{Bitcore}
use xpi_p2p_ts.SessionPersistence.{SerializedSession}
use xpi_p2p_ts.SessionPersistence.Store.{
  Storage, Persistence, is_expired, delete_expired, cleanup_expired, load_all, load_active,
  deserialize_each,
}
use xpi_p2p_ts.Base.{
  ℕ, suc, ◌+◌, ◌≡◌, ◌≢◌, refl, sym, ap, ◌∙◌, subst, Bool, true, false, not, none, List, [], ◌∷◌,
  keep, length, All, leb, ltb, arith, Bool-cases, inl, inr,
}

-- Each session is stored under its own id, once.
pub record IsKept (m : Storage) : Type 0 where
  pub distinct : Dict.Distinct m
  pub named : All (λ (x : Text × SerializedSession). x.1.session_id ≡ x.0) m

abbrev survivors : (ℕ → Bool) → Storage → Storage
survivors old m = keep (λ (x : Text × SerializedSession). not (old x.1.last_activity)) m

absent-survivors :
    (old : ℕ → Bool) (k : Text) (m : Storage)
    → Dict.get k m ≡ none
    → Dict.get k (survivors old m) ≡ none
unfolding Dict.get
absent-survivors old k [] h = refl
absent-survivors old k (x ∷ m) h = ground (arith, absent-survivors old k m)

-- The loop passes over an entry that it does not delete.
delete_expired-cons :
    (old : ℕ → Bool) (x : Text × SerializedSession) (ds : List SerializedSession) (m : Storage)
    (n : ℕ)
    → All (λ (d : SerializedSession). d.session_id ≢ x.0) ds
    → delete_expired old ds (x ∷ m, n)
      ≡ (x ∷ (delete_expired old ds (m, n)).0, (delete_expired old ds (m, n)).1)
unfolding delete_expired Dict.delete
delete_expired-cons old x [] m n a = refl
delete_expired-cons old x (d ∷ ds) m n a = ground (
  arith,
  a.0,
  delete_expired-cons old x ds (Dict.delete d.session_id m) (suc n) a.1,
  delete_expired-cons old x ds m n a.1,
)

others_differ :
    (k : Text) (m : Storage)
    → Dict.get k m ≡ none
    → All (λ (x : Text × SerializedSession). x.1.session_id ≡ x.0) m
    → All (λ (d : SerializedSession). d.session_id ≢ k) (Dict.values m)
unfolding Dict.get
others_differ k [] h a = tt
others_differ k (x ∷ m) h a = (λ e. ground (arith, a.0, e), others_differ k m (ground arith) a.1)

delete_expired_lem :
    (old : ℕ → Bool) (m : Storage) (n : ℕ)
    → IsKept m
    → ((delete_expired old (Dict.values m) (m, n)).0 ≡ survivors old m)
      × ((delete_expired old (Dict.values m) (m, n)).1 + length (survivors old m) ≡ n + length m)
unfolding delete_expired Dict.delete
delete_expired_lem old [] n k = (refl, refl)
delete_expired_lem old (x ∷ m) n k =
    let rest : IsKept m = record { distinct = k.distinct.1; named = k.named.1 } in
    let differ = others_differ x.0 m k.distinct.0 k.named.1 in
    elim (Bool-cases (old x.1.last_activity)) [
      | inl e ↦ ground (
        arith,
        e,
        k.named.0,
        delete_absent x.0 m k.distinct.0,
        delete_expired_lem old m (suc n) rest,
      )
      | inr e ↦ ground (
        arith,
        e,
        delete_expired-cons old x (Dict.values m) m n differ,
        delete_expired_lem old m n rest,
      )
    ]

IsKept-if :
    (b : Bool) (x : Text × SerializedSession) (m : Storage)
    → IsKept m
    → IsKept (x ∷ m)
    → IsKept (elim b [ true ↦ x ∷ m | false ↦ m ])
IsKept-if true x m k l = l
IsKept-if false x m k l = k

survivors-IsKept : (old : ℕ → Bool) (m : Storage) → IsKept m → IsKept (survivors old m)
survivors-IsKept old [] k = k
survivors-IsKept old (x ∷ m) k =
    let rest = survivors-IsKept old m (record { distinct = k.distinct.1; named = k.named.1 }) in
    IsKept-if (not (old x.1.last_activity)) x (survivors old m) rest (record {
      distinct = (absent-survivors old x.0 m k.distinct.0, rest.distinct);
      named = (k.named.0, rest.named);
    })

keep-values :
    (old : ℕ → Bool) (p : SerializedSession → Bool)
    → ((d : SerializedSession) → p d ≡ not (old d.last_activity))
    → (m : Storage) → keep p (Dict.values m) ≡ Dict.values (survivors old m)
keep-values old p same [] = refl
keep-values old p same (x ∷ m) = ground (arith, same x.1, keep-values old p same m)

-- After a cleanup, exactly the sessions are loaded that were active before it, in the same order; the
-- count is the number of those that are gone, and each session is stored under its own id, as before.
pub load_all-cleanup_expired :
    {Point BN PublicKey : Type 0} (lib : Bitcore Point BN PublicKey) (now : ℕ) (p : Persistence)
    → IsKept p.storage
    → (load_all lib (cleanup_expired now p).0 ≡ load_active lib now p)
      × ((cleanup_expired now p).1 + Dict.size (cleanup_expired now p).0.storage
          ≡ Dict.size p.storage)
      × IsKept (cleanup_expired now p).0.storage
unfolding load_all load_active cleanup_expired is_expired
load_all-cleanup_expired lib now p k =
    let old = λ (t : ℕ). leb (t + p.session_expiry) now in
    let (left, count) = delete_expired_lem old p.storage 0 k in
    let active =
      keep-values old (λ d. ltb now (d.last_activity + p.session_expiry)) (λ d. ground arith)
        p.storage in
    (
      ap (λ (m : Storage). deserialize_each lib (Dict.values m)) left
          ∙ ap (deserialize_each lib) (sym active),
      omega (arith, count, ap (λ (m : Storage). length m) left),
      subst IsKept (sym left) (survivors-IsKept old p.storage k),
    )
