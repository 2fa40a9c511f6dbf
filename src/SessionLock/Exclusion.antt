-- ===== src/SessionLock/Exclusion.antt =====
-- Holders of one lock (SessionLock, lib/musig2/session-lock.ts).
use mathlib.Core.Option.{some-injective}
use xpi_p2p_ts.Dict
use xpi_p2p_ts.Dict.{Dict}
use xpi_p2p_ts.SessionLock.{
  SessionLock, Release, Callers, Step, Run, start, acquire_finish, try_acquire,
}
use xpi_p2p_ts.SessionLock.Orderly.{
  IsOrderly, enter-IsOrderly, waits-IsOrderly, resumes-IsOrderly, releases-IsOrderly,
}
use xpi_p2p_ts.Base.{
  ◌≡◌, refl, ap, subst, String, string_key, none, some, ◌∷◌, arith, Option-cases, inl, inr,
}

-- While a caller waits for a session no other enters it or waits for it; nothing is forced.
abbrev pub IsCareful : {a b : Callers} → Step a b → Type 0
IsCareful (Step.acquires c id free) = Dict.get id c.waiting ≡ none
IsCareful (Step.waits c id promise taken) = Dict.get id c.waiting ≡ none
IsCareful (Step.tries c id l r got) = Dict.get id c.waiting ≡ none
IsCareful (Step.forces c id) = ⊥
IsCareful _ = Unit

abbrev pub AreCareful : {a b : Callers} → Run a b → Type 0
AreCareful (Run.stop c) = Unit
AreCareful (Run.then s r) = IsCareful s × AreCareful r

-- A call of tryAcquire that gets the lock found the session free, and enters it.
pub try_acquire-free :
    (id : String) (l l' : SessionLock) (r : Release)
    → try_acquire id l ≡ (l', some r)
    → (Dict.get id l.locks ≡ none) × (acquire_finish id l ≡ (l', r))
unfolding try_acquire
try_acquire-free id l l' r got = elim (Option-cases (Dict.get id l.locks)) [
  | inl free ↦
      let entered : ((acquire_finish id l).0, some (acquire_finish id l).1) ≡ (l', some r) =
        rw (free, try_acquire) at got in
      (free, λ i. (ap (λ e. e.0) entered i, some-injective _ _ (ap (λ e. e.1) entered) i))
  | inr (p, taken) ↦ absurd (ground arith)
]

-- A call of tryAcquire that does not get the lock changes nothing.
pub try_acquire-taken : (id : String) (l l' : SessionLock) → try_acquire id l ≡ (l', none) → l ≡ l'
unfolding try_acquire
try_acquire-taken id l l' got = elim (Option-cases (Dict.get id l.locks)) [
  | inl free ↦ absurd (ground arith)
  | inr (p, taken) ↦ ap (λ e. e.0) (rw (taken, try_acquire) at got)
]

Step-IsOrderly : {a b : Callers} (s : Step a b) → IsCareful s → IsOrderly a → IsOrderly b
unfolding try_acquire
Step-IsOrderly (Step.acquires c id free) nobody o = enter-IsOrderly c id free nobody o
Step-IsOrderly (Step.waits c id promise taken) nobody o =
    waits-IsOrderly c id promise taken nobody o
Step-IsOrderly (Step.resumes l before after holding id promise done) careful o =
    resumes-IsOrderly l before after holding id promise done o
Step-IsOrderly (Step.tries c id l r got) nobody o =
    let (free, entered) = try_acquire-free id c.lock l r got in
    subst (λ e. IsOrderly (record { lock = e.0; waiting = c.waiting; holding = e.1 ∷ c.holding }))
      entered (enter-IsOrderly c id free nobody o)
Step-IsOrderly (Step.fails c id l got) careful o =
    subst (λ l'. IsOrderly (record c { lock = l' })) (try_acquire-taken id c.lock l got) o
Step-IsOrderly (Step.releases l waiting before after r) careful o =
    releases-IsOrderly l waiting before after r o
Step-IsOrderly (Step.forces c id) careful o = absurd careful

Run-IsOrderly : {a b : Callers} (r : Run a b) → AreCareful r → IsOrderly a → IsOrderly b
Run-IsOrderly (Run.stop c) careful o = o
Run-IsOrderly (Run.then s r) careful o =
    Run-IsOrderly r (careful.1) (Step-IsOrderly s (careful.0) o)

start-IsOrderly : IsOrderly start
unfolding Dict.get
start-IsOrderly = record {
  exclusive = (tt, λ id. refl);
  alone = tt;
  awaited = λ id p h. absurd (ground arith);
  pending = λ id p h. absurd (ground arith);
  own = λ id id' p h h'. absurd (ground arith);
  past = λ p h. absurd (ground arith);
}

-- From the empty lock, in any interleaving of callers in which nobody forces a lock and, while a
-- caller waits for a session, no other enters it or waits for it, no session ever has two holders, and
-- a session is locked exactly while it has one.
pub run-excludes :
    {c : Callers} (r : Run start c)
    → AreCareful r
    → Dict.Distinct c.holding × ((id : String) → Dict.has id c.lock.locks ≡ Dict.has id c.holding)
unfolding Dict.get
run-excludes r careful =
    let (d, same) = (Run-IsOrderly r careful start-IsOrderly).exclusive in
    (d, λ id. rw (same id) refl)
