-- ===== src/SessionLock/Tests.antt =====
-- Runs of SessionLock (lib/musig2/session-lock.ts).
use xpi_p2p_ts.Dict
use xpi_p2p_ts.Dict.{Dict}
use xpi_p2p_ts.SessionLock.{Callers, Step, Run, start, enter, release, try_acquire}
use xpi_p2p_ts.SessionLock.Exclusion.{run-excludes}
use xpi_p2p_ts.SessionLock.Herd.{ArePlain, count_releases, AllHold, run-herd}
use xpi_p2p_ts.Base.{◌≡◌, refl, String, string_key, String_discrete, none, some, [], ◌∷◌}

-- One caller enters the session s, another awaits it.
abbrev busy : Callers
busy = record (enter "s" start) { waiting = ("s", 0) ∷ [] }

-- The first caller releases the session, and the second goes on after its wait.
abbrev passed_on : Callers
passed_on = enter "s" (record { lock = release ("s", 0) busy.lock; waiting = []; holding = [] })

-- The second has released it too, and a call of tryAcquire has got it.
abbrev tried : Callers
tried = enter "s" (record { lock = release ("s", 1) passed_on.lock; waiting = []; holding = [] })

gets_it : try_acquire "s" (release ("s", 1) passed_on.lock) ≡ (tried.lock, some ("s", 2))
unfolding try_acquire Dict.get Dict.set Dict.delete String_discrete
gets_it = refl

is_held : try_acquire "s" busy.lock ≡ (busy.lock, none)
unfolding try_acquire Dict.get Dict.set String_discrete
is_held = refl

-- Enter, wait, a call of tryAcquire that fails, release, resume, release, tryAcquire.
passed_run : Run start tried
unfolding Dict.get Dict.set String_discrete
passed_run = Run.then (Step.acquires start "s" refl) (
    Run.then (Step.waits (enter "s" start) "s" 0 refl) (
      Run.then (Step.fails busy "s" busy.lock is_held) (
        Run.then (Step.releases busy.lock (("s", 0) ∷ []) [] [] ("s", 0)) (
          Run.then (Step.resumes (release ("s", 0) busy.lock) [] [] [] "s" 0 refl) (
            Run.then (Step.releases passed_on.lock [] [] [] ("s", 1)) (
              Run.then
                (Step.tries
                  (record { lock = release ("s", 1) passed_on.lock; waiting = []; holding = [] })
                  "s" tried.lock ("s", 2) gets_it)
                (Run.stop tried)))))))

-- A second call of tryAcquire gets nothing.
excluded : (try_acquire "s" busy.lock).1 ≡ none
unfolding try_acquire Dict.get Dict.set String_discrete
excluded = refl

run-excludes_example :
    Dict.Distinct tried.holding
    × ((id : String) → Dict.has id tried.lock.locks ≡ Dict.has id tried.holding)
unfolding passed_run Dict.get
run-excludes_example = run-excludes passed_run (refl, (refl, (tt, (tt, (tt, (tt, (refl, tt)))))))

run-herd_example :
    (c : Callers) × (r : Run start c) × ArePlain r × (count_releases r ≡ 1) × AllHold "s" 3 c
run-herd_example = run-herd "s" 3
