-- ===== src/Election/Succession/Counting.antt =====
-- Lists without repetition, as `priorityList.includes` (lib/musig2/election.ts) keeps one.
use xpi_p2p_ts.Election.Succession.{includes}
use xpi_p2p_ts.Base.{
  ℕ, zero, suc, ◌+◌, ◌≤◌, ◌<◌, ◌≡◌, refl, ◌==◌, true, false, List, [], ◌∷◌, ◌++◌, length, keep, All,
  arith, if◌then◌else◌, not,
}

abbrev pub Once : List ℕ → Type 0
Once [] = Unit
Once (x ∷ xs) = (includes x xs ≡ false) × Once xs

abbrev without : ℕ → List ℕ → List ℕ
without n = keep (λ x. not (x == n))

length-without_absent :
    (n : ℕ) (xs : List ℕ) → includes n xs ≡ false → length (without n xs) ≡ length xs
unfolding includes
length-without_absent n [] h = refl
length-without_absent n (x ∷ xs) h = ground (arith, length-without_absent n xs)

length-without : (n : ℕ) (xs : List ℕ) → Once xs → length xs ≤ length (without n xs) + 1
length-without n [] o = omega arith
length-without n (x ∷ xs) o = ground (arith, length-without n xs, length-without_absent n xs)

includes-without :
    (x n : ℕ) (xs : List ℕ) → includes x xs ≡ false → includes x (without n xs) ≡ false
unfolding includes
includes-without x n [] h = refl
includes-without x n (y ∷ xs) h = ground (arith, includes-without x n xs)

without-Once : (n : ℕ) (xs : List ℕ) → Once xs → Once (without n xs)
without-Once n [] o = tt
without-Once n (x ∷ xs) o = ground (arith, without-Once n xs (o.1), includes-without x n xs (o.0))

without-below : (n : ℕ) (xs : List ℕ) → All (λ x. x < suc n) xs → All (λ x. x < n) (without n xs)
without-below n [] a = tt
without-below n (x ∷ xs) a = ground (arith, without-below n xs (a.1))

-- A list of numbers below n without repetition has at most n of them.
pub length-Once : (n : ℕ) (xs : List ℕ) → Once xs → All (λ x. x < n) xs → length xs ≤ n
length-Once n [] o a = omega arith
length-Once zero (x ∷ xs) o a = absurd (omega arith)
length-Once (suc n) (x ∷ xs) o a =
    let all = x ∷ xs in
    let fewer = length-Once n (without n all) (without-Once n all o) (without-below n all a) in
    omega (arith, length-without n all o, fewer)

includes-append :
    (x y : ℕ) (xs : List ℕ) → includes x (xs ++ y ∷ []) ≡ (if y == x then true else includes x xs)
unfolding includes
includes-append x y [] = ground arith
includes-append x y (z ∷ xs) = ground (arith, includes-append x y xs)

pub append-Once : (y : ℕ) (xs : List ℕ) → includes y xs ≡ false → Once xs → Once (xs ++ y ∷ [])
unfolding includes
append-Once y [] h o = (refl, tt)
append-Once y (x ∷ xs) h o = ground (arith, append-Once y xs, includes-append x y xs)

pub append-below :
    (n y : ℕ) (xs : List ℕ) → y < n → All (λ x. x < n) xs → All (λ x. x < n) (xs ++ y ∷ [])
append-below n y [] h a = (h, tt)
append-below n y (x ∷ xs) h a = (a.0, append-below n y xs h (a.1))
