-- ===== src/Security/RateLimiter.antt =====
-- DHTAnnouncementRateLimiter of lib/security.ts; `Date.now()` is an argument.
mod Tests
pub mod Spacing
use xpi_p2p_ts.Dict
use xpi_p2p_ts.Dict.{Dict}
use xpi_p2p_ts.Base.{
  ℕ, ◌+◌, ◌*◌, ltb, if◌then◌else◌, is_nonzero, String, string_key, Bool, true, false, Option, none,
  some, List, [], ◌∷◌,
}

pub record RateLimiter : Type 0 where
  pub last_announcement : Dict String ℕ
  pub announcement_count : Dict String ℕ

abbrev pub init : RateLimiter
init = record { last_announcement = []; announcement_count = [] }

-- `map.get(key) || 0`
abbrev pub count_or_zero : String → Dict String ℕ → ℕ
count_or_zero k m = elim (Dict.get k m) [ none ↦ 0 | some n ↦ n ]

pub increment_count : String → RateLimiter → RateLimiter
increment_count peer rl = record rl {
  announcement_count =
      Dict.set peer (count_or_zero peer rl.announcement_count + 1) rl.announcement_count;
}

pub accept : String → ℕ → RateLimiter → RateLimiter
accept peer now rl =
    increment_count peer (record rl { last_announcement = Dict.set peer now rl.last_announcement })

unfoldable pub can_announce : String → ℕ → ℕ → RateLimiter → RateLimiter × Bool
unfolding accept increment_count
can_announce peer min_interval now rl = elim (Dict.get peer rl.last_announcement) [
  | none ↦ (accept peer now rl, true)
  | some last ↦
      if is_nonzero last
      then if ltb now (last + min_interval) then (rl, false) else (accept peer now rl, true)
      else (accept peer now rl, true)
]

pub get_count : String → RateLimiter → ℕ
get_count peer rl = count_or_zero peer rl.announcement_count

abbrev pub max_age : ℕ
max_age = 24 * 60 * 60 * 1000

-- `now - timestamp > maxAge`, without the subtraction.
abbrev pub is_old : ℕ → ℕ → Bool
is_old now timestamp = ltb (timestamp + max_age) now

pub forget : String → RateLimiter → RateLimiter
forget peer rl = record {
  last_announcement = Dict.delete peer rl.last_announcement;
  announcement_count = Dict.delete peer rl.announcement_count;
}

pub cleanup_entries : ℕ → List (String × ℕ) → RateLimiter → RateLimiter
cleanup_entries now [] rl = rl
cleanup_entries now ((peer, t) ∷ es) rl =
    cleanup_entries now es (if is_old now t then forget peer rl else rl)

unfoldable pub cleanup : ℕ → RateLimiter → RateLimiter
unfolding cleanup_entries forget
cleanup now rl = cleanup_entries now rl.last_announcement rl
