-- ===== src/Security/BanManager/Escalation.antt =====
-- Warnings and bans of CorePeerBanManager (lib/security.ts).
use xpi_p2p_ts.Dict
use xpi_p2p_ts.Dict.{Dict}
use xpi_p2p_ts.Dict.Laws.{get-set, get-set_self, get-delete}
use xpi_p2p_ts.Security.RateLimiter.{count_or_zero}
use xpi_p2p_ts.Security.BanManager.{BanManager, Emitting, warn_peer, is_allowed, one_hour}
use xpi_p2p_ts.Base.{
  ℕ, ◌+◌, ◌≤◌, ◌<◌, ◌≡◌, ◌≢◌, ◌⊎◌, ◌↔◌, String, string_key, String_discrete, Option, none, some,
  List, [], ◌∷◌, arith, true, false, leb, ite, if_neg, if◌then◌else◌,
}

-- No temporary ban of the peer runs at a time.
abbrev pub IsOver : ℕ → Option ℕ → Type 0
IsOver now none = Unit
IsOver now (some until) = (until ≡ 0) ⊎ (until ≤ now)

-- A peer is allowed exactly if it is not on the blacklist and no temporary ban of it still runs.
pub is_allowed_iff :
    (now : ℕ) (peer : String) (bm : BanManager)
    → ((is_allowed now peer bm).1 ≡ true)
      ↔ ((Dict.get peer bm.blacklist ≡ none) × IsOver now (Dict.get peer bm.temp_bans))
unfolding is_allowed
is_allowed_iff now peer bm = ground arith

-- Asking for a peer changes no answer, for any peer, at the same time or later.
pub is_allowed_again :
    (now later : ℕ) (peer other : String) (bm : BanManager)
    → now ≤ later
    → (is_allowed later other (is_allowed now peer bm).0).1 ≡ (is_allowed later other bm).1
unfolding is_allowed
is_allowed_again now later peer other bm after = ground (arith, get-delete other peer bm.temp_bans)

unfoldable pub warnings : String → BanManager → ℕ
warnings peer bm = count_or_zero peer bm.warning_count

-- What a warning does to the peer: one warning more, a ban of an hour from the fifth on, and a
-- place on the blacklist from the tenth on.
pub warn_peer_effect :
    (now : ℕ) (peer reason : String) (e : Emitting)
    → let bm = e.0 in
      let bm' = (warn_peer now peer reason e).0 in
      (warnings peer bm' ≡ warnings peer bm + 1)
      × (Dict.get peer bm'.temp_bans ≡ (
          if leb 4 (warnings peer bm) then some (now + one_hour) else Dict.get peer bm.temp_bans))
      × (Dict.get peer bm'.blacklist
          ≡ (if leb 9 (warnings peer bm) then some tt else Dict.get peer bm.blacklist))
unfolding warn_peer warnings
warn_peer_effect now peer reason (bm, events) = ground (
  arith,
  get-set_self peer (count_or_zero peer bm.warning_count + 1) bm.warning_count,
  get-set_self peer (now + one_hour) bm.temp_bans,
  get-set_self peer tt bm.blacklist,
)

-- Other peers do not feel a warning.
pub warn_peer_others :
    (now : ℕ) (peer other reason : String) (e : Emitting)
    → peer ≢ other
    → let bm' = (warn_peer now peer reason e).0 in
      (Dict.get other bm'.warning_count ≡ Dict.get other e.0.warning_count)
      × (Dict.get other bm'.temp_bans ≡ Dict.get other e.0.temp_bans)
      × (Dict.get other bm'.blacklist ≡ Dict.get other e.0.blacklist)
unfolding warn_peer
warn_peer_others now peer other reason (bm, events) ne = ground (
  arith,
  get-set other peer (count_or_zero peer bm.warning_count + 1) bm.warning_count,
  get-set other peer (now + one_hour) bm.temp_bans,
  get-set other peer tt bm.blacklist,
)

-- Warnings to several peers, each with its time.
pub warn_all : String → List (ℕ × String) → Emitting → Emitting
warn_all reason [] e = e
warn_all reason ((now, peer) ∷ calls) e = warn_all reason calls (warn_peer now peer reason e)

unfoldable pub warnings_in : String → List (ℕ × String) → ℕ
warnings_in peer [] = 0
warnings_in peer ((now, p) ∷ calls) =
    let later = warnings_in peer calls in ite (String_discrete p peer) (later + 1) later

-- A peer with ten warnings is on the blacklist.
abbrev pub IsStrict : String → BanManager → Type 0
IsStrict peer bm = (warnings peer bm < 10) ⊎ (Dict.get peer bm.blacklist ≡ some tt)

warnings-eq :
    (peer : String) (bm bm' : BanManager)
    → Dict.get peer bm'.warning_count ≡ Dict.get peer bm.warning_count
    → warnings peer bm' ≡ warnings peer bm
unfolding warnings
warnings-eq peer bm bm' h = ground arith

-- One warning, to this peer or to another.
warn_peer-IsStrict :
    (now : ℕ) (peer p reason : String) (e : Emitting)
    → IsStrict peer e.0
    → (warnings peer (warn_peer now p reason e).0
        ≡ ite (String_discrete p peer) (warnings peer e.0 + 1) (warnings peer e.0))
      × IsStrict peer (warn_peer now p reason e).0
warn_peer-IsStrict now peer p reason e strict = elim (String_discrete p peer) [
  | yes same ↦ rw same (ground (arith, warn_peer_effect now peer reason e))
  | no other ↦ rw (if_neg _ other) (kept other)
]
  where
    kept :
        p ≢ peer
        → (warnings peer (warn_peer now p reason e).0 ≡ warnings peer e.0)
          × IsStrict peer (warn_peer now p reason e).0
    kept other =
        let others = warn_peer_others now p peer reason e other in
        let same = warnings-eq peer e.0 (warn_peer now p reason e).0 others.0 in
        (same, ground (arith, others.2))

warn_all_effect :
    (peer reason : String) (calls : List (ℕ × String)) (e : Emitting)
    → IsStrict peer e.0
    → (warnings peer (warn_all reason calls e).0 ≡ warnings peer e.0 + warnings_in peer calls)
      × IsStrict peer (warn_all reason calls e).0
unfolding warn_all warnings_in
warn_all_effect peer reason [] e strict = (omega arith, strict)
warn_all_effect peer reason ((now, p) ∷ calls) e strict =
    let (counted, strict') = warn_peer-IsStrict now peer p reason e strict in
    let (later, strict'') = warn_all_effect peer reason calls (warn_peer now p reason e) strict' in
    (ground arith, strict'')

-- A peer that has been warned ten times in all, among warnings to any peers, is not allowed at any
-- time afterwards, if it was on the blacklist already wherever it had ten warnings before.
pub warn_all-not_allowed :
    (peer reason : String) (calls : List (ℕ × String)) (e : Emitting) (later : ℕ)
    → IsStrict peer e.0
    → 10 ≤ warnings peer e.0 + warnings_in peer calls
    → (is_allowed later peer (warn_all reason calls e).0).1 ≡ false
unfolding is_allowed
warn_all-not_allowed peer reason calls e later strict ten =
    ground (arith, warn_all_effect peer reason calls e strict)
