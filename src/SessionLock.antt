-- ===== src/SessionLock.antt =====
-- SessionLock of lib/musig2/session-lock.ts. A promise and its resolver are one number; what runs
-- between two awaits is one step, so that `acquire` is cut at its `await`.
pub mod Orderly
pub mod Exclusion
pub mod Herd
pub mod Clearing
mod Tests
use xpi_p2p_ts.Dict
use xpi_p2p_ts.Dict.{Dict}
use xpi_p2p_ts.Base.{
  ℕ, ◌+◌, ◌≡◌, ◌==◌, String, string_key, Bool, true, false, Option, none, some, List, [], ◌∷◌, ◌++◌,
  if◌then◌else◌,
}

pub record SessionLock : Type 0 where
  pub locks : Dict String ℕ
  pub resolvers : Dict String ℕ
  -- The promises that are resolved, and the number of the next one.
  pub resolved : List ℕ
  pub next : ℕ

abbrev pub init : SessionLock
init = record { locks = []; resolvers = []; resolved = []; next = 0 }

-- What a caller of `acquire` or `tryAcquire` gets: the release function of a lock.
abbrev pub Release : Type 0
Release = String × ℕ

abbrev pub is_resolved : ℕ → List ℕ → Bool
is_resolved p [] = false
is_resolved p (q ∷ qs) = let rest = is_resolved p qs in if q == p then true else rest

-- The promise that `acquire` awaits, if there is one.
abbrev pub acquire_start : String → SessionLock → Option ℕ
acquire_start id l = Dict.get id l.locks

-- The rest of `acquire`.
abbrev pub acquire_finish : String → SessionLock → SessionLock × Release
acquire_finish id l = (
  record {
    locks = Dict.set id l.next l.locks;
    resolvers = Dict.set id l.next l.resolvers;
    resolved = l.resolved;
    next = l.next + 1;
  },
  (id, l.next),
)

-- A call of the release function.
abbrev pub release : Release → SessionLock → SessionLock
release (id, promise) l = record {
  locks = Dict.delete id l.locks;
  resolvers = Dict.delete id l.resolvers;
  resolved = promise ∷ l.resolved;
  next = l.next;
}

unfoldable pub try_acquire : String → SessionLock → SessionLock × Option Release
try_acquire id l =
    if Dict.has id l.locks then (l, none) else (let (l', r) = acquire_finish id l in (l', some r))

pub is_locked : String → SessionLock → Bool
is_locked id l = Dict.has id l.locks

unfoldable pub force_release : String → SessionLock → SessionLock
force_release id l = elim (Dict.get id l.resolvers) [
  | none ↦ l
  | some promise ↦ release (id, promise) l
]

pub force_all : List String → SessionLock → SessionLock
force_all [] l = l
force_all (id ∷ ids) l = force_all ids (force_release id l)

pub clear_all : SessionLock → SessionLock
clear_all l = force_all (Dict.keys l.resolvers) l

pub get_size : SessionLock → ℕ
get_size l = Dict.size l.locks

-- The lock with its callers: those that await a promise in `acquire`, and those that hold a release
-- function which they have not called.
pub record Callers : Type 0 where
  pub lock : SessionLock
  pub waiting : List Release
  pub holding : List Release

abbrev pub enter : String → Callers → Callers
enter id c =
    let (l, r) = acquire_finish id c.lock in
    record { lock = l; waiting = c.waiting; holding = r ∷ c.holding }

-- One step of one caller.
pub data Step : Callers → Callers → Type 0 where
  acquires : (c : Callers) (id : String) → acquire_start id c.lock ≡ none → Step c (enter id c)
  waits :
      (c : Callers) (id : String) (promise : ℕ)
      → acquire_start id c.lock ≡ some promise
      → Step c (record c { waiting = (id, promise) ∷ c.waiting })
  resumes :
      (l : SessionLock) (before after holding : List Release) (id : String) (promise : ℕ)
      → is_resolved promise l.resolved ≡ true
      → Step
          (record { lock = l; waiting = before ++ (id, promise) ∷ after; holding = holding })
          (enter id (record { lock = l; waiting = before ++ after; holding = holding }))
  tries :
      (c : Callers) (id : String) (l : SessionLock) (r : Release)
      → try_acquire id c.lock ≡ (l, some r)
      → Step c (record { lock = l; waiting = c.waiting; holding = r ∷ c.holding })
  fails :
      (c : Callers) (id : String) (l : SessionLock)
      → try_acquire id c.lock ≡ (l, none)
      → Step c (record c { lock = l })
  releases :
      (l : SessionLock) (waiting before after : List Release) (r : Release)
      → Step
          (record { lock = l; waiting = waiting; holding = before ++ r ∷ after })
          (record { lock = release r l; waiting = waiting; holding = before ++ after })
  forces : (c : Callers) (id : String) → Step c (record c { lock = force_release id c.lock })

pub data Run : Callers → Callers → Type 0 where
  stop : (c : Callers) → Run c c
  then : {a b c : Callers} → Step a b → Run b c → Run a c

abbrev pub start : Callers
start = record { lock = init; waiting = []; holding = [] }
