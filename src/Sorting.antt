-- ===== src/Sorting.antt =====
-- `Array.sort(compare)` of JavaScript, which is stable, as an insertion sort.
use mathlib.Core.List.{Permᴰ}
use xpi_p2p_ts.Base.{
  suc, length, ap, map, subst, ◌≡◌, refl, ◌∙◌, Bool, true, false, List, [], ◌∷◌, All, if◌then◌else◌,
  arith,
}

module _ {A : Type 0} (le : A → A → Bool) where
  unfoldable pub insert_by : A → List A → List A
  insert_by x [] = x ∷ []
  insert_by x (y ∷ ys) = let rest = insert_by x ys in if le x y then x ∷ y ∷ ys else y ∷ rest

  unfoldable pub sort_by : List A → List A
  unfolding insert_by
  sort_by [] = []
  sort_by (x ∷ xs) = insert_by x (sort_by xs)

module _ {A : Type 0} (le : A → A → Bool) where
  length-insert_by : (x : A) (xs : List A) → length (insert_by le x xs) ≡ suc (length xs)
  unfolding insert_by
  length-insert_by x [] = refl
  length-insert_by x (y ∷ ys) = ground (arith, length-insert_by x ys)

  pub length-sort_by : (xs : List A) → length (sort_by le xs) ≡ length xs
  unfolding sort_by
  length-sort_by [] = refl
  length-sort_by (x ∷ xs) = length-insert_by x (sort_by le xs) ∙ ap suc (length-sort_by xs)

-- A total preorder that is antisymmetric where `P` holds.
pub record IsOrderOn {A : Type 0} (P : A → Type 0) (le : A → A → Bool) : Type 0 where
  pub total : (a b : A) → le a b ≡ false → le b a ≡ true
  pub trans : (a b c : A) → le a b ≡ true → le b c ≡ true → le a c ≡ true
  pub antisym : (a b : A) → P a → P b → le a b ≡ true → le b a ≡ true → a ≡ b

pub record IsOrder {A : Type 0} (le : A → A → Bool) : Type 0 where
  pub total : (a b : A) → le a b ≡ false → le b a ≡ true
  pub trans : (a b c : A) → le a b ≡ true → le b c ≡ true → le a c ≡ true
  pub antisym : (a b : A) → le a b ≡ true → le b a ≡ true → a ≡ b

pub All-Perm : {A : Type 0} (P : A → Type 0) {xs ys : List A} → Permᴰ xs ys → All P xs → All P ys
All-Perm P Permᴰ.nil a = a
All-Perm P (Permᴰ.cons e p) a = (subst P e (a.0), All-Perm P p a.1)
All-Perm P (Permᴰ.swap e f) a = (subst P f (a.1.0), (subst P e (a.0), a.1.1))
All-Perm P (Permᴰ.trans p q) a = All-Perm P q (All-Perm P p a)

module _ {A : Type 0} (P : A → Type 0) (le : A → A → Bool) (o : IsOrderOn P le) where
  insert_by_comm :
      (x y : A) (l : List A)
      → P x
      → P y
      → insert_by le x (insert_by le y l) ≡ insert_by le y (insert_by le x l)
  unfolding insert_by
  insert_by_comm x y [] p q = ground (arith, o.total x y, o.total y x, o.antisym x y p q)
  insert_by_comm x y (z ∷ l) p q = ground (
    arith,
    insert_by_comm x y l p q,
    o.total x y,
    o.total y x,
    o.antisym x y p q,
    o.trans x y z,
    o.trans y x z,
    o.total x z,
    o.total y z,
    o.trans x z y,
    o.trans y z x,
  )

  pub sort_by-Perm_on : {xs ys : List A} → Permᴰ xs ys → All P xs → sort_by le xs ≡ sort_by le ys
  unfolding sort_by
  sort_by-Perm_on Permᴰ.nil a = refl
  sort_by-Perm_on (Permᴰ.cons e p) a = λ i. insert_by le (e i) (sort_by-Perm_on p a.1 i)
  sort_by-Perm_on (Permᴰ.swap {a = a} {b = b} {l = l} e f) h =
      insert_by_comm a b (sort_by le l) h.0 (h.1.0)
      ∙ (λ i. insert_by le (f i) (insert_by le (e i) (sort_by le l)))
  sort_by-Perm_on (Permᴰ.trans p q) a = sort_by-Perm_on p a ∙ sort_by-Perm_on q (All-Perm P p a)

All-any : {A : Type 0} (xs : List A) → All (λ (x : A). Unit {0}) xs
All-any [] = tt
All-any (x ∷ xs) = (tt, All-any xs)

pub sort_by-Perm :
    {A : Type 0} (le : A → A → Bool)
    → IsOrder le
    → {xs ys : List A} → Permᴰ xs ys
    → sort_by le xs ≡ sort_by le ys
sort_by-Perm le o {xs} p =
    sort_by-Perm_on (λ x. Unit) le
      (record { total = o.total; trans = o.trans; antisym = λ a b _ _. o.antisym a b }) p
      (All-any xs)

pub map_Perm :
    {A B : Type 0} (f : A → B) {xs ys : List A} → Permᴰ xs ys → Permᴰ (map f xs) (map f ys)
map_Perm f Permᴰ.nil = Permᴰ.nil
map_Perm f (Permᴰ.cons e p) = Permᴰ.cons (ap f e) (map_Perm f p)
map_Perm f (Permᴰ.swap e g) = Permᴰ.swap (ap f e) (ap f g)
map_Perm f (Permᴰ.trans p q) = Permᴰ.trans (map_Perm f p) (map_Perm f q)
