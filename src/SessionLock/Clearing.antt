-- ===== src/SessionLock/Clearing.antt =====
-- What releases leave behind (lib/musig2/session-lock.ts).
use xpi_p2p_ts.Dict
use xpi_p2p_ts.Dict.{Dict}
use xpi_p2p_ts.Dict.Laws.{set-Distinct, delete-Distinct, delete_absent}
use xpi_p2p_ts.SessionLock.{
  SessionLock, Release, acquire_finish, Callers, Step, Run, start, force_release, force_all,
  clear_all, get_size, release,
}
use xpi_p2p_ts.SessionLock.Exclusion.{try_acquire-free, try_acquire-taken}
use xpi_p2p_ts.Base.{
  ℕ, ◌≡◌, refl, ap, ◌∙◌, subst, String, string_key, some, [], ◌∷◌, length, arith, Option-cases, inl,
  inr,
}

-- Both maps have the same entries, each session once.
abbrev pub IsPaired : SessionLock → Type 0
IsPaired l = (l.locks ≡ l.resolvers) × Dict.Distinct l.resolvers

acquire_finish-IsPaired :
    (id : String) (l : SessionLock) → IsPaired l → IsPaired (acquire_finish id l).0
acquire_finish-IsPaired id l (same, d) =
    (ap (Dict.set id l.next) same, set-Distinct id l.next l.resolvers d)

release-IsPaired : (r : Release) (l : SessionLock) → IsPaired l → IsPaired (release r l)
release-IsPaired r l (same, d) = (ap (Dict.delete (r.0)) same, delete-Distinct (r.0) l.resolvers d)

force_release-IsPaired :
    (id : String) (l : SessionLock) → IsPaired l → IsPaired (force_release id l)
unfolding force_release
force_release-IsPaired id l h = elim (Option-cases (Dict.get id l.resolvers)) [
  | inl e ↦ rw (e, force_release) h
  | inr (p, e) ↦ rw (e, force_release) (release-IsPaired (id, p) l h)
]

Step-IsPaired : {a b : Callers} → Step a b → IsPaired a.lock → IsPaired b.lock
Step-IsPaired (Step.acquires c id free) h = acquire_finish-IsPaired id c.lock h
Step-IsPaired (Step.waits c id p taken) h = h
Step-IsPaired (Step.resumes l before after holding id p done) h = acquire_finish-IsPaired id l h
Step-IsPaired (Step.tries c id l r got) h =
    let (free, entered) = try_acquire-free id c.lock l r got in
    subst (λ e. IsPaired (e.0)) entered (acquire_finish-IsPaired id c.lock h)
Step-IsPaired (Step.fails c id l got) h = subst IsPaired (try_acquire-taken id c.lock l got) h
Step-IsPaired (Step.releases l waiting before after r) h = release-IsPaired r l h
Step-IsPaired (Step.forces c id) h = force_release-IsPaired id c.lock h

run-IsPaired : {a b : Callers} → Run a b → IsPaired a.lock → IsPaired b.lock
run-IsPaired (Run.stop c) h = h
run-IsPaired (Run.then s r) h = run-IsPaired r (Step-IsPaired s h)

get-head : (x : String × ℕ) (m : Dict String ℕ) → Dict.get (x.0) (x ∷ m) ≡ some (x.1)
unfolding Dict.get
get-head x m = ground arith

delete-head :
    (x : String × ℕ) (m : Dict String ℕ) → Dict.Distinct (x ∷ m) → Dict.delete (x.0) (x ∷ m) ≡ m
unfolding Dict.delete
delete-head x m d = ground (arith, delete_absent (x.0) m (d.0))

force_release_first :
    (x : String × ℕ) (m : Dict String ℕ) (l : SessionLock)
    → l.resolvers ≡ x ∷ m
    → Dict.Distinct (x ∷ m)
    → (force_release (x.0) l).resolvers ≡ m
unfolding force_release
force_release_first x m l e d =
    let found : Dict.get (x.0) l.resolvers ≡ some (x.1) = ap (Dict.get (x.0)) e ∙ get-head x m in
    rw (found, force_release) (ap (Dict.delete (x.0)) e ∙ delete-head x m d)

force_all-empty :
    (m : Dict String ℕ) (l : SessionLock)
    → l.resolvers ≡ m
    → IsPaired l
    → (force_all (Dict.keys m) l).locks ≡ []
unfolding force_all
force_all-empty [] l e h = h.0 ∙ e
force_all-empty (x ∷ m) l e h =
    let first = force_release_first x m l e (subst Dict.Distinct e (h.1)) in
    force_all-empty m (force_release (x.0) l) first (force_release-IsPaired (x.0) l h)

-- Whatever the callers did, also with forced locks and waiters that resumed on a taken session,
-- clearing all leaves no lock.
pub run-clear_all : {c : Callers} → Run start c → get_size (clear_all c.lock) ≡ 0
unfolding clear_all get_size
run-clear_all r = ap length (force_all-empty _ _ refl (run-IsPaired r (refl, tt)))
