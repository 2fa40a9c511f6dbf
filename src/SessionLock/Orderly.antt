-- ===== src/SessionLock/Orderly.antt =====
-- Callers of SessionLock (lib/musig2/session-lock.ts) of whom one at most waits for a session.
use xpi_p2p_ts.Dict
use xpi_p2p_ts.Dict.{Dict}
use xpi_p2p_ts.Dict.Laws.{get-set, get-delete}
use xpi_p2p_ts.SessionLock.{SessionLock, Release, Callers, enter, is_resolved, release}
use xpi_p2p_ts.Base.{
  ℕ, ◌<◌, ◌≡◌, ◌≢◌, ◌⊎◌, sym, ap, ◌∙◌, String, string_key, String_discrete, true, false, none, some,
  List, [], ◌∷◌, ◌++◌, ite, arith, inl, inr,
}

-- A session has one holder at most, and the map has its promise as long as it does.
abbrev pub IsExclusive : Callers → Type 0
IsExclusive c =
    Dict.Distinct c.holding × ((id : String) → Dict.get id c.lock.locks ≡ Dict.get id c.holding)

has-middle :
    (before after : Dict String ℕ) (r : Release) → Dict.has (r.0) (before ++ r ∷ after) ≡ true
unfolding Dict.get
has-middle [] after r = ground arith
has-middle (x ∷ before) after r = ground (arith, has-middle before after r)

remove-middle :
    (before after : Dict String ℕ) (r : Release)
    → Dict.Distinct (before ++ r ∷ after)
    → Dict.Distinct (before ++ after)
      × ((k : String)
          → Dict.get k (before ++ after)
            ≡ ite (String_discrete (r.0) k) none (Dict.get k (before ++ r ∷ after)))
unfolding Dict.get
remove-middle [] after r d = (d.1, λ k. ground (arith, d.0))
remove-middle (x ∷ before) after r d =
    let (d', same) = remove-middle before after r (d.1) in
    (
      (ground (arith, same (x.0), d.0), d'),
      λ k. ground (arith, same k, d.0, has-middle before after r),
    )

get-middle :
    (before after : Dict String ℕ) (r : Release)
    → Dict.Distinct (before ++ r ∷ after)
    → Dict.get (r.0) (before ++ r ∷ after) ≡ some (r.1)
unfolding Dict.get
get-middle [] after r d = ground arith
get-middle (x ∷ before) after r d =
    ground (arith, get-middle before after r (d.1), d.0, has-middle before after r)

enter-IsExclusive :
    (c : Callers) (id : String)
    → Dict.get id c.lock.locks ≡ none
    → IsExclusive c
    → IsExclusive (enter id c)
unfolding Dict.get
enter-IsExclusive c id free (d, same) = (
  (sym (same id) ∙ free, d),
  λ k.
      get-set k id c.lock.next c.lock.locks
      ∙ ap (ite (String_discrete id k) (some c.lock.next)) (same k),
)

of_delete :
    (k id : String) (p : ℕ) (m : Dict String ℕ)
    → Dict.get k (Dict.delete id m) ≡ some p
    → (id ≢ k) × (Dict.get k m ≡ some p)
of_delete k id p m h = elim (String_discrete id k) [
  | yes same ↦ absurd (ground (arith, h, get-delete k id m))
  | no other ↦ (other, ground (arith, h, get-delete k id m))
]

-- No two callers wait for one session, and what a caller waits for is the promise of its session or
-- one that nothing has followed; the promises in the map are open, each under one session.
pub record IsOrderly (c : Callers) : Type 0 where
  pub exclusive : IsExclusive c
  pub alone : Dict.Distinct c.waiting
  pub awaited :
      (id : String) (p : ℕ)
      → Dict.get id c.waiting ≡ some p
      → (Dict.get id c.lock.locks ≡ some p) ⊎ (Dict.get id c.lock.locks ≡ none)
  pub pending :
      (id : String) (p : ℕ)
      → Dict.get id c.lock.locks ≡ some p
      → (is_resolved p c.lock.resolved ≡ false) × (p < c.lock.next)
  pub own :
      (id id' : String) (p : ℕ)
      → Dict.get id c.lock.locks ≡ some p
      → Dict.get id' c.lock.locks ≡ some p
      → id ≡ id'
  pub past : (p : ℕ) → is_resolved p c.lock.resolved ≡ true → p < c.lock.next

pub enter-IsOrderly :
    (c : Callers) (id : String)
    → Dict.get id c.lock.locks ≡ none
    → Dict.get id c.waiting ≡ none
    → IsOrderly c
    → IsOrderly (enter id c)
enter-IsOrderly c id free nobody o =
    let set = λ (k : String). get-set k id c.lock.next c.lock.locks in
    record {
      exclusive = enter-IsExclusive c id free o.exclusive;
      alone = o.alone;
      awaited = λ k p w. ground (arith, set k, nobody, o.awaited k p w);
      pending = λ k p h. ground (arith, set k, o.pending k p, o.past p);
      own =
          λ k k' p h h'. ground (arith, set k, set k', o.own k k' p, o.pending k p, o.pending k' p);
      past = λ p h. omega (arith, o.past p h);
    }

pub waits-IsOrderly :
    (c : Callers) (id : String) (promise : ℕ)
    → Dict.get id c.lock.locks ≡ some promise
    → Dict.get id c.waiting ≡ none
    → IsOrderly c
    → IsOrderly (record c { waiting = (id, promise) ∷ c.waiting })
unfolding Dict.get
waits-IsOrderly c id promise taken nobody o = record {
  exclusive = o.exclusive;
  alone = (nobody, o.alone);
  awaited = λ k p w. ground (arith, taken, w, o.awaited k p);
  pending = o.pending;
  own = o.own;
  past = o.past;
}

-- A caller that goes on after its wait finds its session free.
pub resumes-IsOrderly :
    (l : SessionLock) (before after holding : List Release) (id : String) (promise : ℕ)
    → is_resolved promise l.resolved ≡ true
    → IsOrderly (record { lock = l; waiting = before ++ (id, promise) ∷ after; holding = holding })
    → IsOrderly (enter id (record { lock = l; waiting = before ++ after; holding = holding }))
resumes-IsOrderly l before after holding id promise done o =
    let (alone, got) = remove-middle before after (id, promise) o.alone in
    let waited = get-middle before after (id, promise) o.alone in
    let free : Dict.get id l.locks ≡ none = elim (o.awaited id promise waited) [
      | inl taken ↦ absurd (ground (arith, done, (o.pending id promise taken).0))
      | inr free ↦ free
    ] in
    let left : Callers = record { lock = l; waiting = before ++ after; holding = holding } in
    enter-IsOrderly left id free (ground (arith, got id)) (record {
      exclusive = o.exclusive;
      alone = alone;
      awaited = λ k p w. o.awaited k p (ground (arith, w, got k));
      pending = o.pending;
      own = o.own;
      past = o.past;
    })

releases-IsExclusive :
    (l : SessionLock) (waiting before after : List Release) (r : Release)
    → IsExclusive (record { lock = l; waiting = waiting; holding = before ++ r ∷ after })
    → IsExclusive (record { lock = release r l; waiting = waiting; holding = before ++ after })
releases-IsExclusive l waiting before after r (d, same) =
    let (d', got) = remove-middle before after r d in
    (
      d',
      λ k.
          get-delete k (r.0) l.locks
          ∙ ap (ite (String_discrete (r.0) k) none) (same k)
          ∙ sym (got k),
    )

pub releases-IsOrderly :
    (l : SessionLock) (waiting before after : List Release) (r : Release)
    → IsOrderly (record { lock = l; waiting = waiting; holding = before ++ r ∷ after })
    → IsOrderly (record { lock = release r l; waiting = waiting; holding = before ++ after })
releases-IsOrderly l waiting before after (id, promise) o =
    let (d, same) = o.exclusive in
    let held : Dict.get id l.locks ≡ some promise =
      same id ∙ get-middle before after (id, promise) d in
    let deleted = λ (k : String). get-delete k id l.locks in
    record {
      exclusive = releases-IsExclusive l waiting before after (id, promise) o.exclusive;
      alone = o.alone;
      awaited = λ k p w. ground (arith, deleted k, o.awaited k p w);
      pending = λ k p h.
          let (other, kept) = of_delete k id p l.locks h in
          let apart : promise ≢ p = λ e. other (o.own id k p (rw (← e) held) kept) in
          let (unresolved, below) = o.pending k p kept in
          (ground (arith, apart, unresolved), below);
      own = λ k k' p h h'.
          o.own k k' p (of_delete k id p l.locks h).1 (of_delete k' id p l.locks h').1;
      past = λ p h. ground (arith, o.past p, h, (o.pending id promise held).1);
    }
