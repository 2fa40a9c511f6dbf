-- ===== src/Security/RateLimiter/Tests.antt =====
-- Runs of DHTAnnouncementRateLimiter (lib/security.ts).
use xpi_p2p_ts.Dict
use xpi_p2p_ts.Security.RateLimiter.{RateLimiter, can_announce, cleanup}
use xpi_p2p_ts.Security.RateLimiter.Spacing.{Spaced, run_times, run_times-Spaced, cleanup_harmless}
use xpi_p2p_ts.Base.{ℕ, ◌≡◌, refl, String, string_key, String_discrete, some, List, [], ◌∷◌, arith}

abbrev seen_alice : RateLimiter
seen_alice = record {
  last_announcement = ("alice", 1000) ∷ [];
  announcement_count = ("alice", 1) ∷ [];
}

abbrev calls : List (ℕ × String)
calls = (1010, "alice") ∷ (1030, "bob") ∷ (1060, "alice") ∷ []

alice_waits : run_times "alice" 50 calls seen_alice ≡ 1060 ∷ []
unfolding run_times can_announce Dict.get Dict.set String_discrete
alice_waits = refl

run_times-Spaced_example : Spaced 50 (some 1000) (run_times "alice" 50 calls seen_alice)
unfolding Dict.get String_discrete
run_times-Spaced_example = run_times-Spaced "alice" 50 calls seen_alice

cleanup_harmless_example :
    (can_announce "alice" 50 1070 (cleanup 1060 seen_alice)).1
    ≡ (can_announce "alice" 50 1070 seen_alice).1
unfolding Dict.get String_discrete
cleanup_harmless_example =
    cleanup_harmless "alice" 50 1060 1070 seen_alice (refl, tt) (omega arith) (omega arith)
