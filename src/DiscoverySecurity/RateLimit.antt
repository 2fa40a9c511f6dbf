-- ===== src/DiscoverySecurity/RateLimit.antt =====
-- Operations of a peer within one window (checkRateLimit, lib/discovery/security.ts).
use xpi_p2p_ts.Dict
use xpi_p2p_ts.Dict.{Dict}
use xpi_p2p_ts.Dict.Laws.{get-set_self, get-set_ne}
use xpi_p2p_ts.DiscoverySecurity.{
  Validator, Tracker, Operation, rate_key, max_operations, check_rate_limit,
}
use xpi_p2p_ts.Base.{
  ℕ, ◌+◌, ◌-◌, ◌≤◌, ◌≡◌, ◌≢◌, refl, ◌∙◌, ap, subst, String, string_key, String_discrete, some, List,
  [], ◌∷◌, true, if◌then◌else◌, not, leb, ite, arith, All, inl, inr, Bool-cases,
}

module _ {Ad : Type 0} where
  -- A run of operations of one kind, with the number of those under one key that were let through.
  pub run_allowed : String → Operation → List (ℕ × String) → Validator Ad → ℕ
  run_allowed key op [] v = 0
  run_allowed key op ((now, p) ∷ calls) v =
      let (v', ok) = check_rate_limit now p op v in
      let later = run_allowed key op calls v' in
      if ok then ite (String_discrete (rate_key p op) key) (later + 1) later else later

  check_rate_limit_policy :
      (now : ℕ) (p : String) (op : Operation) (v : Validator Ad)
      → (check_rate_limit now p op v).0.policy ≡ v.policy
  unfolding check_rate_limit
  check_rate_limit_policy now p op v = ground arith

  -- An operation under a key whose window still runs: it passes if there is room, and is counted.
  check_rate_limit_running :
      (now : ℕ) (p : String) (op : Operation) (v : Validator Ad) (t : Tracker)
      → v.policy.enable_rate_limiting ≡ true
      → Dict.get (rate_key p op) v.rate_limit_tracker ≡ some t
      → now ≤ t.window_start + v.policy.rate_limits.window_size_ms
      → let r = check_rate_limit now p op v in
        let full = leb (max_operations op v.policy) (t.count) in
        (Dict.get (rate_key p op) r.0.rate_limit_tracker
          ≡ some (if full then t else record t { count = t.count + 1 }))
        × (r.1 ≡ not full)
  unfolding check_rate_limit
  check_rate_limit_running now p op v t on at h =
      let full = leb (max_operations op v.policy) (t.count) in
      let counted = if full then t else record t { count = t.count + 1 } in
      let written = get-set_self (rate_key p op) counted v.rate_limit_tracker in
      ground (arith, written)

  check_rate_limit_other :
      (key : String) (now : ℕ) (p : String) (op : Operation) (v : Validator Ad)
      → rate_key p op ≢ key
      → Dict.get key (check_rate_limit now p op v).0.rate_limit_tracker
        ≡ Dict.get key v.rate_limit_tracker
  unfolding check_rate_limit
  check_rate_limit_other key now p op v ne = elim (Bool-cases v.policy.enable_rate_limiting) [
    | inl on ↦ rw (on, check_rate_limit) (get-set_ne key (rate_key p op) _ v.rate_limit_tracker ne)
    | inr off ↦ rw (off, check_rate_limit) refl
  ]

  -- As long as a window runs, no more operations are let through than the policy allows for their
  -- kind, less those that the window has already counted.
  pub run_allowed-le :
      (key : String) (op : Operation) (calls : List (ℕ × String)) (v : Validator Ad) (t : Tracker)
      → v.policy.enable_rate_limiting ≡ true
      → Dict.get key v.rate_limit_tracker ≡ some t
      → All (λ c. c.0 ≤ t.window_start + v.policy.rate_limits.window_size_ms) calls
      → run_allowed key op calls v ≤ max_operations op v.policy - t.count
  unfolding run_allowed
  run_allowed-le key op [] v t on at h = omega arith
  run_allowed-le key op ((now, p) ∷ calls) v t on at h =
      let r = check_rate_limit now p op v in
      let kept = check_rate_limit_policy now p op v in
      let later = run_allowed-le key op calls r.0 in
      elim (String_discrete (rate_key p op) key) [
        | yes same ↦
            let (stored, passed) = check_rate_limit_running now p op v t on (rw same at) (h.0) in
            let full = leb (max_operations op v.policy) (t.count) in
            let more = record t { count = t.count + 1 } in
            let stored' : Dict.get key r.0.rate_limit_tracker ≡ some (if full then t else more) =
              subst (λ k. Dict.get k r.0.rate_limit_tracker ≡ some (if full then t else more)) same
                stored in
            elim (Bool-cases full) [
              | inl e ↦ ground (
                arith,
                passed,
                later t (rw kept on) (stored' ∙ ap (λ b. some (if b then t else more)) e)
                    (rw kept (h.1)),
              )
              | inr e ↦ ground (
                arith,
                passed,
                later more (rw kept on) (stored' ∙ ap (λ b. some (if b then t else more)) e)
                    (rw kept (h.1)),
              )
            ]
        | no other ↦
            let same = check_rate_limit_other key now p op v other in
            ground (arith, later t (rw kept on) (same ∙ at) (rw kept (h.1)))
      ]
