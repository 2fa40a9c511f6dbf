-- ===== src/Security/BanManager.antt =====
-- CorePeerBanManager of lib/security.ts: the blacklist, temporary bans and warnings.
mod Tests
pub mod Escalation
use xpi_p2p_ts.Dict
use xpi_p2p_ts.Dict.{Dict}
use xpi_p2p_ts.Security.RateLimiter.{count_or_zero}
use xpi_p2p_ts.Base.{
  ℕ, ◌+◌, ◌*◌, ltb, leb, if◌then◌else◌, is_nonzero, not, ◌&&◌, String, string_key, Bool, true,
  false, Option, none, some, List, [], ◌∷◌, ◌++◌, map,
}

pub data Event : Type 0 where
  banned : String → String → Event
  temp_banned : String → ℕ → String → Event
  warned : String → ℕ → String → Event
  unbanned : String → Event

pub record BanManager : Type 0 where
  pub blacklist : Dict String (Unit {0})
  pub temp_bans : Dict String ℕ
  pub warning_count : Dict String ℕ

abbrev pub init : BanManager
init = record { blacklist = []; temp_bans = []; warning_count = [] }

-- The manager, and the events that the calls so far have emitted.
abbrev pub Emitting : Type 0
Emitting = BanManager × List Event

unfoldable pub ban_peer : String → String → Emitting → Emitting
ban_peer peer reason (bm, events) =
    (record bm { blacklist = Dict.set peer tt bm.blacklist }, events ++ banned peer reason ∷ [])

unfoldable pub temp_ban_peer : ℕ → String → ℕ → String → Emitting → Emitting
temp_ban_peer now peer duration reason (bm, events) = (
  record bm { temp_bans = Dict.set peer (now + duration) bm.temp_bans },
  events ++ temp_banned peer duration reason ∷ [],
)

abbrev pub one_hour : ℕ
one_hour = 60 * 60 * 1000

abbrev pub count_warning : String → String → ℕ → Emitting → Emitting
count_warning peer reason count (bm, events) = (
  record bm { warning_count = Dict.set peer count bm.warning_count },
  events ++ warned peer count reason ∷ [],
)

-- After 5 warnings a temporary ban, after 10 one for good.
unfoldable pub warn_peer : ℕ → String → String → Emitting → Emitting
unfolding ban_peer temp_ban_peer
warn_peer now peer reason e =
    let count = count_or_zero peer e.0.warning_count + 1 in
    let told = count_warning peer reason count e in
    let slowed =
      if leb 5 count then temp_ban_peer now peer one_hour "repeated-warnings" told else told in
    if leb 10 count then ban_peer peer "excessive-warnings" slowed else slowed

-- The end of a temporary ban, if it is set and not 0.
abbrev pub is_running : ℕ → Option ℕ → Bool
is_running now none = false
is_running now (some until) = is_nonzero until && ltb now until

abbrev pub has_run_out : ℕ → Option ℕ → Bool
has_run_out now none = false
has_run_out now (some until) = is_nonzero until && leb until now

unfoldable pub is_allowed : ℕ → String → BanManager → BanManager × Bool
is_allowed now peer bm =
    if Dict.has peer bm.blacklist
    then (bm, false)
    else if is_running now (Dict.get peer bm.temp_bans)
    then (bm, false)
    else if has_run_out now (Dict.get peer bm.temp_bans)
    then (record bm { temp_bans = Dict.delete peer bm.temp_bans }, true)
    else (bm, true)

unfoldable pub unban_peer : String → Emitting → Emitting
unban_peer peer (bm, events) = (
  record {
    blacklist = Dict.delete peer bm.blacklist;
    temp_bans = Dict.delete peer bm.temp_bans;
    warning_count = Dict.delete peer bm.warning_count;
  },
  events ++ unbanned peer ∷ [],
)

pub get_banned_count : BanManager → ℕ
get_banned_count bm = Dict.size bm.blacklist

-- The number of peers with a warning.
pub get_warning_count : BanManager → ℕ
get_warning_count bm = Dict.size bm.warning_count

pub get_banned_peers : BanManager → List String
get_banned_peers bm = Dict.keys bm.blacklist
