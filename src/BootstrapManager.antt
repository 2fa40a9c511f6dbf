-- ===== src/BootstrapManager.antt =====
-- BootstrapManager of lib/bootstrap-manager.ts, with the types of lib/types.ts. libp2p is outside: a dial
-- is listed until it ends, its end and the peers' connections are calls of their own, and whether an
-- address can be parsed is an argument. So are `Date.now()` and `Math.random()`, in thousandths.
pub mod Operations
pub mod Watched
pub mod Delay
pub mod Loops
pub mod Calls
pub mod Run
mod Tests
use Prim.Native.Nat.{◌^◌, min}
use xpi_p2p_ts.Dict
use xpi_p2p_ts.Dict.{Dict}
use xpi_p2p_ts.Text.{Text, literal, is_same, text_key}
use xpi_p2p_ts.Outcome.{Result, ok, err}
use xpi_p2p_ts.Base.{
  ℕ, zero, suc, ◌+◌, ◌-◌, ◌*◌, leb, if◌then◌else◌, not, ◌&&◌, ◌||◌, Bool, true, false, Option, none,
  some, List, [], ◌∷◌, ◌++◌, length, drop, keep, is_some, every,
}

-- The jitter is in thousandths; no limit on the attempts is `none`.
pub record Config : Type 0 where
  pub reconnect_base_delay : ℕ
  pub reconnect_max_delay : ℕ
  pub reconnect_jitter : ℕ
  pub max_reconnect_attempts : Option ℕ
  pub health_check_interval : ℕ
  pub connection_timeout : ℕ

abbrev pub default_config : Config
default_config = record {
  reconnect_base_delay = 1000;
  reconnect_max_delay = 60000;
  reconnect_jitter = 300;
  max_reconnect_attempts = none;
  health_check_interval = 30000;
  connection_timeout = 10000;
}

pub record Connection : Type 0 where
  pub peer_id : Text
  pub multiaddr : Text
  pub is_connected : Bool
  pub reconnect_attempts : ℕ
  pub last_connected : Option ℕ
  pub last_disconnected : Option ℕ

-- A timer is its delay, in millionths of a millisecond.
pub record Manager : Type 0 where
  pub has_node : Bool
  pub bootstrap_peers : Dict Text Connection
  pub reconnect_timers : Dict Text ℕ
  pub has_health_check : Bool
  pub config : Config
  pub registered_capabilities : Dict Text (Unit {0})
  pub is_started : Bool
  -- The peers of the dials that are awaited.
  pub dialing : List Text

abbrev pub create : Config → Manager
create c = record {
  has_node = false;
  bootstrap_peers = [];
  reconnect_timers = [];
  has_health_check = false;
  config = c;
  registered_capabilities = [];
  is_started = false;
  dialing = [];
}

pub data Event : Type 0 where
  connected : Text → Text → Event
  disconnected : Text → Event
  reconnecting : Text → ℕ → ℕ → Event
  failed : Text → ℕ → Event
  all_connected : Event
  all_disconnected : Event

-- The manager, and the events that the calls so far have emitted.
abbrev pub Emitting : Type 0
Emitting = Manager × List Event

unfoldable pub initialize : Manager → Manager
initialize m = record m { has_node = true }

-- The text after the last `/p2p/`, of those that `split` finds from left to right.
abbrev pub starts_with : Text → Text → Bool
starts_with [] t = true
starts_with (c ∷ s) [] = false
starts_with (c ∷ s) (d ∷ t) = is_same (c ∷ []) (d ∷ []) && starts_with s t

unfoldable pub last_part : ℕ → Option Text → Text → Option Text
last_part skip found [] = found
last_part (suc k) found (c ∷ t) = last_part k found t
last_part zero found (c ∷ t) =
    let is_here = starts_with (literal "/p2p/") (c ∷ t) in
    last_part (if is_here then 4 else 0) (if is_here then some (drop 4 t) else found) t

unfoldable pub extract_peer_id : Text → Option Text
unfolding last_part
extract_peer_id address = last_part 0 none address

-- An id that is empty counts as none.
abbrev pub usable : Option Text → Option Text
usable (some []) = none
usable o = o

abbrev pub has_given_up : Config → Connection → Bool
has_given_up c connection = elim (c.max_reconnect_attempts) [
  | none ↦ false
  | some most ↦ leb most connection.reconnect_attempts
]

unfoldable pub base_delay : Config → ℕ → ℕ
base_delay c attempts = min (c.reconnect_base_delay * 2 ^ attempts) c.reconnect_max_delay

-- `Math.max(0, base + base * jitter * (random - 0.5))`, in millionths.
unfoldable pub jittered : Config → ℕ → ℕ → ℕ
jittered c base random =
    base * 1000000 + base * c.reconnect_jitter * random - base * c.reconnect_jitter * 500

unfoldable pub delay : Config → ℕ → ℕ → ℕ
unfolding base_delay jittered
delay c attempts random = jittered c (base_delay c attempts) random

unfoldable pub schedule : ℕ → Text → Connection → Emitting → Emitting
schedule random peer c (m, events) =
    if has_given_up m.config c then (m, events ++ failed peer c.reconnect_attempts ∷ []) else (
      record m {
        bootstrap_peers =
            Dict.modify peer
              (λ (x : Connection). record x { reconnect_attempts = x.reconnect_attempts + 1 })
              m.bootstrap_peers;
        reconnect_timers =
            Dict.set peer (delay m.config c.reconnect_attempts random) m.reconnect_timers;
      },
      events
          ++ reconnecting peer (c.reconnect_attempts + 1)
              (delay m.config c.reconnect_attempts random)
            ∷ [],
    )

abbrev pub schedule_known : ℕ → Text → Option Connection → Emitting → Emitting
schedule_known random peer none e = e
schedule_known random peer (some c) e = schedule random peer c e

unfoldable pub schedule_reconnect : ℕ → Text → Emitting → Emitting
unfolding schedule
schedule_reconnect random peer e = schedule_known random peer (Dict.get peer e.0.bootstrap_peers) e

-- `_connectToPeer` up to its dial. An address that cannot be parsed fails at once.
abbrev pub dial_known : (Text → Bool) → ℕ → Text → Option Connection → Emitting → Emitting
dial_known can_parse random peer none e = e
dial_known can_parse random peer (some c) (m, events) =
    if can_parse c.multiaddr
    then (record m { dialing = peer ∷ m.dialing }, events)
    else schedule random peer c (m, events)

unfoldable pub connect_to_peer : (Text → Bool) → ℕ → Text → Emitting → Emitting
unfolding schedule
connect_to_peer can_parse random peer e =
    if e.0.has_node
    then dial_known can_parse random peer (Dict.get peer e.0.bootstrap_peers) e
    else e

-- One entry less for a dial that has ended.
unfoldable pub remove_one : Text → List Text → List Text
remove_one p [] = []
remove_one p (q ∷ qs) = let rest = remove_one p qs in if is_same p q then qs else q ∷ rest

unfoldable pub end_dial : Text → Manager → Manager
unfolding remove_one
end_dial peer m = record m { dialing = remove_one peer m.dialing }

-- The dial has failed or run into its timeout.
unfoldable pub dial_failed : ℕ → Text → Emitting → Emitting
unfolding end_dial schedule_reconnect
dial_failed random peer (m, events) = schedule_reconnect random peer (end_dial peer m, events)

unfoldable pub is_connected_to_bootstrap : Manager → Bool
is_connected_to_bootstrap m =
    not (every (λ (c : Connection). not c.is_connected) (Dict.values m.bootstrap_peers))

unfoldable pub get_connected_count : Manager → ℕ
get_connected_count m =
    length (keep (λ (c : Connection). c.is_connected) (Dict.values m.bootstrap_peers))

unfoldable pub are_all_connected : Manager → Bool
are_all_connected m = every (λ (c : Connection). c.is_connected) (Dict.values m.bootstrap_peers)
