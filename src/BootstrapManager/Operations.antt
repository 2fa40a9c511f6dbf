-- ===== src/BootstrapManager/Operations.antt =====
-- The calls that change a BootstrapManager (lib/bootstrap-manager.ts): those of its user, of libp2p and of
-- its timers.
use xpi_p2p_ts.Dict
use xpi_p2p_ts.Dict.{Dict}
use xpi_p2p_ts.Text.{Text, text_key}
use xpi_p2p_ts.Outcome.{Result, ok, err}
use xpi_p2p_ts.BootstrapManager.{
  Connection, Manager, Event, connected, disconnected, all_connected, all_disconnected, Emitting,
  extract_peer_id, usable, schedule_reconnect, connect_to_peer, is_connected_to_bootstrap,
  are_all_connected,
}
use xpi_p2p_ts.Base.{
  ℕ, if◌then◌else◌, ◌&&◌, Bool, true, false, Option, none, some, List, [], ◌∷◌, ◌++◌,
}

abbrev pub emit_if : Bool → Event → List Event
emit_if b e = if b then e ∷ [] else []

abbrev pub mark_connected : ℕ → Connection → Connection
mark_connected now c = record c {
  is_connected = true;
  reconnect_attempts = 0;
  last_connected = some now;
}

abbrev pub mark_disconnected : ℕ → Connection → Connection
mark_disconnected now c = record c { is_connected = false; last_disconnected = some now }

abbrev pub connect_known : ℕ → Text → Option Connection → Emitting → Emitting
connect_known now peer none e = e
connect_known now peer (some c) (m, events) =
    let m' = record m {
      reconnect_timers = Dict.delete peer m.reconnect_timers;
      bootstrap_peers = Dict.modify peer (mark_connected now) m.bootstrap_peers;
    } in
    (m', events ++ (connected peer c.multiaddr ∷ emit_if (are_all_connected m') all_connected))

-- `peer:connect` of libp2p.
unfoldable pub handle_bootstrap_connect : ℕ → Text → Emitting → Emitting
handle_bootstrap_connect now peer e = connect_known now peer (Dict.get peer e.0.bootstrap_peers) e

abbrev pub lost_events : Text → Bool → Manager → List Event
lost_events peer was_connected m =
    if was_connected
    then disconnected peer ∷ (if is_connected_to_bootstrap m then [] else all_disconnected ∷ [])
    else []

abbrev pub disconnect_known : ℕ → ℕ → Text → Option Connection → Emitting → Emitting
disconnect_known now random peer none e = e
disconnect_known now random peer (some c) (m, events) =
    let m' = record m {
      bootstrap_peers = Dict.modify peer (mark_disconnected now) m.bootstrap_peers;
    } in
    let e' : Emitting = (m', events ++ lost_events peer c.is_connected m') in
    if m.is_started then schedule_reconnect random peer e' else e'

-- `peer:disconnect` of libp2p.
unfoldable pub handle_bootstrap_disconnect : ℕ → ℕ → Text → Emitting → Emitting
handle_bootstrap_disconnect now random peer e =
    disconnect_known now random peer (Dict.get peer e.0.bootstrap_peers) e

-- A timer goes off.
unfoldable pub timer_fired : (Text → Bool) → ℕ → Text → Emitting → Emitting
timer_fired can_parse random peer (m, events) =
    connect_to_peer can_parse random peer
      (record m { reconnect_timers = Dict.delete peer m.reconnect_timers }, events)

abbrev pub is_lost : (Text → Bool) → Text → Option Connection → Bool
is_lost lost peer none = false
is_lost lost peer (some c) = c.is_connected && lost peer

-- The loop over the peers. `lost` says of which libp2p has no connection; each peer has a draw.
unfoldable pub check_each : (Text → Bool) → ℕ → (Text → ℕ) → List Text → Emitting → Emitting
check_each lost now random [] e = e
check_each lost now random (peer ∷ peers) e = check_each lost now random peers (
    if is_lost lost peer (Dict.get peer e.0.bootstrap_peers)
    then handle_bootstrap_disconnect now (random peer) peer e
    else e)

unfoldable pub perform_health_check : (Text → Bool) → ℕ → (Text → ℕ) → Emitting → Emitting
unfolding check_each
perform_health_check lost now random e =
    if e.0.has_node then check_each lost now random (Dict.keys e.0.bootstrap_peers) e else e

abbrev pub fresh : Text → Text → Connection
fresh peer address = record {
  peer_id = peer;
  multiaddr = address;
  is_connected = false;
  reconnect_attempts = 0;
  last_connected = none;
  last_disconnected = none;
}

abbrev pub store_if : Text → Option Text → Dict Text Connection → Dict Text Connection
store_if address none peers = peers
store_if address (some peer) peers = Dict.set peer (fresh peer address) peers

-- The loop of `start` that stores the peers.
unfoldable pub store_peers : List Text → Dict Text Connection → Dict Text Connection
store_peers [] peers = peers
store_peers (a ∷ addresses) peers =
    store_peers addresses (store_if a (usable (extract_peer_id a)) peers)

unfoldable pub connect_to_all : (Text → Bool) → (Text → ℕ) → List Text → Emitting → Emitting
connect_to_all can_parse random [] e = e
connect_to_all can_parse random (peer ∷ peers) e =
    connect_to_all can_parse random peers (connect_to_peer can_parse (random peer) peer e)

pub data Error : Type 0 where
  not_initialized : Error
  invalid_address : Text → Error
  peer_not_found : Text → Error

-- `start` up to the point where it awaits the dials. Nothing happens if it was started before.
unfoldable pub start : (Text → Bool) → (Text → ℕ) → List Text → Emitting → Result Error Emitting
unfolding store_peers connect_to_all
start can_parse random addresses (m, events) =
    if m.has_node
    then ok (
        if m.is_started
        then (m, events)
        else (let peers = store_peers addresses m.bootstrap_peers in
            connect_to_all can_parse random (Dict.keys peers)
              (record m { is_started = true; bootstrap_peers = peers }, events)))
    else err not_initialized

-- The rest of a `start`, when its dials have ended.
unfoldable pub finish_start : Manager → Manager
finish_start m = record m { has_health_check = true }

unfoldable pub stop : Manager → Manager
stop m = record m {
  is_started = false;
  reconnect_timers = [];
  has_health_check = false;
  bootstrap_peers = [];
  registered_capabilities = [];
}

abbrev pub store_new : Text → Text → Dict Text Connection → Dict Text Connection
store_new peer address peers =
    if Dict.has peer peers then peers else Dict.set peer (fresh peer address) peers

-- `connect` up to its dial.
abbrev pub connect_at : (Text → Bool) → ℕ → Text → Option Text → Emitting → Result Error Emitting
connect_at can_parse random address none e = err (invalid_address address)
connect_at can_parse random address (some peer) (m, events) = ok (
    connect_to_peer can_parse random peer
      (record m { bootstrap_peers = store_new peer address m.bootstrap_peers }, events))

unfoldable pub connect : (Text → Bool) → ℕ → Text → Emitting → Result Error Emitting
connect can_parse random address e =
    if e.0.has_node
    then connect_at can_parse random address (usable (extract_peer_id address)) e
    else err not_initialized

abbrev pub forgive : Connection → Connection
forgive c = record c { reconnect_attempts = 0 }

-- `reconnect` up to its dial.
abbrev pub reconnect_at : (Text → Bool) → ℕ → Text → Option Text → Emitting → Result Error Emitting
reconnect_at can_parse random address none e = err (invalid_address address)
reconnect_at can_parse random address (some peer) (m, events) =
    if Dict.has peer m.bootstrap_peers
    then ok (
        connect_to_peer can_parse random peer (
          record m {
            reconnect_timers = Dict.delete peer m.reconnect_timers;
            bootstrap_peers = Dict.modify peer forgive m.bootstrap_peers;
          },
          events,
        ))
    else err (peer_not_found peer)

unfoldable pub reconnect : (Text → Bool) → ℕ → Text → Emitting → Result Error Emitting
reconnect can_parse random address e =
    reconnect_at can_parse random address (usable (extract_peer_id address)) e

-- What `registerCapability` and `unregisterCapability` keep; what they send is left out.
pub register_capability : Text → Manager → Result Error Manager
register_capability capability m =
    if m.has_node
    then ok
        (record m { registered_capabilities = Dict.set capability tt m.registered_capabilities })
    else err not_initialized

pub unregister_capability : Text → Manager → Manager
unregister_capability capability m = record m {
  registered_capabilities = Dict.delete capability m.registered_capabilities;
}
