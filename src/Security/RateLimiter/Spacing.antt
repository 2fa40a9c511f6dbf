-- ===== src/Security/RateLimiter/Spacing.antt =====
-- Announcements of one peer in a row (DHTAnnouncementRateLimiter, lib/security.ts).
use xpi_p2p_ts.Dict
use xpi_p2p_ts.Dict.{Dict}
use xpi_p2p_ts.Dict.Laws.{get-set}
use xpi_p2p_ts.Dict.Sweep.{get-sweep}
use xpi_p2p_ts.Security.RateLimiter.{
  RateLimiter, can_announce, get_count, count_or_zero, max_age, is_old, forget, cleanup_entries,
  cleanup,
}
use xpi_p2p_ts.Base.{
  ℕ, ◌+◌, ◌≤◌, ◌≡◌, refl, ap, ◌⊎◌, ◌↔◌, String, string_key, String_discrete, Option, none, some,
  List, [], ◌∷◌, arith, true, ite, if◌then◌else◌,
}

-- The last accepted announcement is none, has the time 0, or lies the interval back.
abbrev pub IsSpaced : ℕ → ℕ → Option ℕ → Type 0
IsSpaced interval now none = Unit
IsSpaced interval now (some last) = (last ≡ 0) ⊎ (last + interval ≤ now)

-- An announcement is accepted exactly if the peer's last accepted one lies the interval back.
pub can_announce_iff :
    (peer : String) (interval now : ℕ) (rl : RateLimiter)
    → ((can_announce peer interval now rl).1 ≡ true)
      ↔ IsSpaced interval now (Dict.get peer rl.last_announcement)
unfolding can_announce
can_announce_iff peer interval now rl = ground arith

-- What is stored after an announcement: its time and one count more for the peer if it was
-- accepted, and else nothing new; other peers are left alone.
pub can_announce_state :
    (peer other : String) (interval now : ℕ) (rl : RateLimiter)
    → let r = can_announce peer interval now rl in
      (Dict.get other r.0.last_announcement ≡ (
        if r.1
        then ite (String_discrete peer other) (some now) (Dict.get other rl.last_announcement)
        else Dict.get other rl.last_announcement))
      × (get_count other r.0 ≡ (
          if r.1
          then ite (String_discrete peer other) (get_count peer rl + 1) (get_count other rl)
          else get_count other rl))
unfolding can_announce get_count
can_announce_state peer other interval now rl = ground (
  arith,
  get-set other peer now rl.last_announcement,
  get-set other peer (count_or_zero peer rl.announcement_count + 1) rl.announcement_count,
)

-- A run of announcements, with the times of those of one peer that were accepted.
unfoldable pub run_times : String → ℕ → List (ℕ × String) → RateLimiter → List ℕ
run_times peer interval [] rl = []
run_times peer interval ((now, p) ∷ calls) rl =
    let (rl', ok) = can_announce p interval now rl in
    let later = run_times peer interval calls rl' in
    if ok then ite (String_discrete p peer) (now ∷ later) later else later

-- Each time lies the interval after the one before.
abbrev pub Spaced : ℕ → Option ℕ → List ℕ → Type 0
Spaced interval last [] = Unit
Spaced interval last (t ∷ ts) = IsSpaced interval t last × Spaced interval (some t) ts

-- In every run each accepted announcement of a peer lies at least the interval after the one
-- accepted before it, be that in the run or stored at its start, or that one has the time 0.
pub run_times-Spaced :
    (peer : String) (interval : ℕ) (calls : List (ℕ × String)) (rl : RateLimiter)
    → Spaced interval (Dict.get peer rl.last_announcement) (run_times peer interval calls rl)
unfolding run_times
run_times-Spaced peer interval [] rl = tt
run_times-Spaced peer interval ((now, p) ∷ calls) rl = ground (
  arith,
  run_times-Spaced peer interval calls (can_announce p interval now rl).0,
  can_announce_state p peer interval now rl,
  can_announce_iff p interval now rl,
)

cleanup_entries-sweep :
    (now : ℕ) (es : List (String × ℕ)) (rl : RateLimiter)
    → (cleanup_entries now es rl).last_announcement
      ≡ Dict.sweep_entries (is_old now) es rl.last_announcement
unfolding cleanup_entries forget Dict.sweep_entries
cleanup_entries-sweep now [] rl = refl
cleanup_entries-sweep now ((p, t) ∷ es) rl =
    ground (arith, cleanup_entries-sweep now es (forget p rl), cleanup_entries-sweep now es rl)

-- A cleanup never changes what the limiter answers from then on, if the interval is at most the 24
-- hours after which it forgets a peer, and each peer has one entry.
pub cleanup_harmless :
    (peer : String) (interval now later : ℕ) (rl : RateLimiter)
    → Dict.Distinct rl.last_announcement
    → interval ≤ max_age
    → now ≤ later
    → (can_announce peer interval later (cleanup now rl)).1
      ≡ (can_announce peer interval later rl).1
unfolding can_announce cleanup
cleanup_harmless peer interval now later rl d short after = ground (
  arith,
  ap (Dict.get peer) (cleanup_entries-sweep now rl.last_announcement rl),
  get-sweep (is_old now) peer rl.last_announcement d,
)
