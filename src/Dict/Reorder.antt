-- ===== src/Dict/Reorder.antt =====
-- Maps with the same entries in another order.
use mathlib.Core.List.{Permᴰ}
use xpi_p2p_ts.Dict.{Dict, get, Distinct}
use xpi_p2p_ts.Base.{subst, ◌≡◌, refl, sym, ap, ◌∙◌, none, some, [], ◌∷◌, All, Key, arith}

module _ {K V : Type 0} ⦃e : Key K⦄ where
  get-cons :
      (k : K) (x y : K × V) (m n : Dict K V)
      → x ≡ y
      → get k m ≡ get k n
      → get k (x ∷ m) ≡ get k (y ∷ n)
  unfolding get
  get-cons k x y m n p h = ground (arith, ap (λ (e : K × V). e.0) p, ap (λ (e : K × V). e.1) p)

  get-swap :
      (k : K) (x y : K × V) (m : Dict K V)
      → Distinct (x ∷ y ∷ m)
      → get k (x ∷ y ∷ m) ≡ get k (y ∷ x ∷ m)
  unfolding get
  get-swap k x y m d = ground arith

  swap-Distinct : (x y : K × V) (m : Dict K V) → Distinct (x ∷ y ∷ m) → Distinct (y ∷ x ∷ m)
  unfolding get
  swap-Distinct x y m d = ground arith

  pub get_Perm :
      {m n : Dict K V} → Permᴰ m n → Distinct m → ((k : K) → get k m ≡ get k n) × Distinct n
  get_Perm Permᴰ.nil d = ((λ k. refl), d)
  get_Perm (Permᴰ.cons {a = a} {b = b} {l₁ = m} {l₂ = n} p q) d =
      let (same, d') = get_Perm q d.1 in
      (
        (λ k. get-cons k a b m n p (same k)),
        (sym (ap (λ (x : K × V). get x.0 n) p) ∙ sym (same a.0) ∙ d.0, d'),
      )
  get_Perm (Permᴰ.swap {a = a} {b = b} {l = l} p q) d = (
    (λ k. get-swap k a b l d ∙ (λ i. get k (q i ∷ p i ∷ l))),
    subst (λ (z : (K × V) × (K × V)). Distinct (z.0 ∷ z.1 ∷ l)) (λ i. (q i, p i))
        (swap-Distinct a b l d),
  )
  get_Perm (Permᴰ.trans p q) d =
      let (same, d') = get_Perm p d in
      let (same', d'') = get_Perm q d' in ((λ k. same k ∙ same' k), d'')

  shown_later :
      (x : K × V) (m n : Dict K V)
      → get x.0 m ≡ none
      → All (λ (y : K × V). get y.0 m ≡ some y.1) n
      → All (λ (y : K × V). get y.0 (x ∷ m) ≡ some y.1) n
  unfolding get
  shown_later x m [] fresh a = tt
  shown_later x m (y ∷ n) fresh a = (ground arith, shown_later x m n fresh a.1)

  -- Each entry is what its key shows.
  pub Distinct-shown : (m : Dict K V) → Distinct m → All (λ (x : K × V). get x.0 m ≡ some x.1) m
  unfolding get
  Distinct-shown [] d = tt
  Distinct-shown (x ∷ m) d = (ground arith, shown_later x m m d.0 (Distinct-shown m d.1))
