-- ===== src/SessionLock/Herd.antt =====
-- Callers of `acquire` (lib/musig2/session-lock.ts) that wait for the same lock.
use xpi_p2p_ts.Dict
use xpi_p2p_ts.Dict.{Dict}
use xpi_p2p_ts.SessionLock.{
  SessionLock, Release, Callers, Step, Run, init, start, enter, acquire_start, acquire_finish,
  release, is_resolved,
}
use xpi_p2p_ts.Base.{
  ℕ, zero, suc, ◌+◌, ◌≡◌, refl, String, string_key, true, some, List, [], ◌∷◌, length, All, arith,
}

abbrev callers : SessionLock → List Release → List Release → Callers
callers l waiting holding = record { lock = l; waiting = waiting; holding = holding }

-- Callers that hold one session, as many as given.
abbrev pub AllHold : String → ℕ → Callers → Type 0
AllHold id n c = (length c.holding ≡ n) × All (λ r. r.0 ≡ id) c.holding

-- Only calls of `acquire`, which return at once, wait or go on after their wait, and of the release
-- function: nobody calls tryAcquire, and no lock is forced.
abbrev pub IsPlain : {a b : Callers} → Step a b → Type 0
IsPlain (Step.tries c id l r got) = ⊥
IsPlain (Step.fails c id l got) = ⊥
IsPlain (Step.forces c id) = ⊥
IsPlain _ = Unit

abbrev pub ArePlain : {a b : Callers} → Run a b → Type 0
ArePlain (Run.stop c) = Unit
ArePlain (Run.then s r) = IsPlain s × ArePlain r

abbrev one_if_release : {a b : Callers} → Step a b → ℕ
one_if_release (Step.releases l waiting before after r) = 1
one_if_release _ = 0

-- The calls of a release function in a run.
abbrev pub count_releases : {a b : Callers} → Run a b → ℕ
count_releases (Run.stop c) = 0
count_releases (Run.then s r) = one_if_release s + count_releases r

-- A plain run with so many releases, after which so many callers hold the session.
abbrev HerdsFrom : Callers → ℕ → String → ℕ → Type 0
HerdsFrom a releases id n =
    (c : Callers) × (r : Run a c) × ArePlain r × (count_releases r ≡ releases) × AllHold id n c

herd_resumes :
    (id : String) (waiting : List Release) (l : SessionLock) (holding : List Release)
    → All (λ r. (r.0 ≡ id) × (is_resolved (r.1) l.resolved ≡ true)) waiting
    → All (λ r. r.0 ≡ id) holding
    → HerdsFrom (callers l waiting holding) 0 id (length waiting + length holding)
herd_resumes id [] l holding w h = (callers l [] holding, Run.stop _, tt, refl, (omega arith, h))
herd_resumes id ((s, p) ∷ waiting) l holding w h =
    let entered = enter s (callers l waiting holding) in
    let (c, run, plain, none_released, (size, holds)) =
      herd_resumes id waiting entered.lock entered.holding (w.1) (w.0.0, h) in
    (
      c,
      Run.then (Step.resumes l [] waiting holding s p (w.0.1)) run,
      (tt, plain),
      omega (arith, none_released),
      (omega (arith, size), holds),
    )

abbrev add : ℕ → Release → List Release → List Release
add zero r waiting = waiting
add (suc n) r waiting = add n r (r ∷ waiting)

wait_all :
    (k : ℕ) (id : String) (p : ℕ) (l : SessionLock) (waiting holding : List Release)
    (releases n : ℕ)
    → acquire_start id l ≡ some p
    → HerdsFrom (callers l (add k (id, p) waiting) holding) releases id n
    → HerdsFrom (callers l waiting holding) releases id n
wait_all zero id p l waiting holding releases n taken herd = herd
wait_all (suc k) id p l waiting holding releases n taken herd =
    let (c, run, plain, released, holds) =
      wait_all k id p l ((id, p) ∷ waiting) holding releases n taken herd in
    (
      c,
      Run.then (Step.waits (callers l waiting holding) id p taken) run,
      (tt, plain),
      omega (arith, released),
      holds,
    )

length-add : (n : ℕ) (r : Release) (w : List Release) → length (add n r w) ≡ n + length w
length-add zero r w = omega arith
length-add (suc n) r w = omega (arith, length-add n r (r ∷ w))

All-add :
    (P : Release → Type 0) (n : ℕ) (r : Release) (w : List Release)
    → P r
    → All P w
    → All P (add n r w)
All-add P zero r w p a = a
All-add P (suc n) r w p a = All-add P n r (r ∷ w) p (p, a)

-- The lock that one caller holds and has then released.
abbrev taken : String → SessionLock
taken id = (acquire_finish id init).0

-- From the empty lock, for every session and every number there is a run of calls of `acquire` and of
-- the release function alone, with one release in it, that ends with as many callers that hold the
-- session at once.
pub run-herd :
    (id : String) (n : ℕ)
    → (c : Callers) × (r : Run start c) × ArePlain r × (count_releases r ≡ 1) × AllHold id n c
unfolding Dict.get Dict.set
run-herd id n =
    let waiting = add n (id, 0) [] in
    let freed = release (id, 0) (taken id) in
    let (c, run, plain, none_released, (size, holds)) =
      herd_resumes id waiting freed [] (All-add _ n (id, 0) [] (refl, refl) tt) tt in
    let (c', run', plain', released', holds') =
      wait_all n id 0 (taken id) [] ((id, 0) ∷ []) 1 n (ground arith) (
        c,
        Run.then (Step.releases (taken id) waiting [] [] (id, 0)) run,
        (tt, plain),
        omega (arith, none_released),
        (omega (arith, size, length-add n (id, 0) []), holds),
      ) in
    (
      c',
      Run.then (Step.acquires start id refl) run',
      (tt, plain'),
      omega (arith, released'),
      holds',
    )
