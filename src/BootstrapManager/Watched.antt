-- ===== src/BootstrapManager/Watched.antt =====
-- Which peers a BootstrapManager (lib/bootstrap-manager.ts) still looks after.
use xpi_p2p_ts.Dict
use xpi_p2p_ts.Dict.{Dict}
use xpi_p2p_ts.Dict.Laws.{get-set, get-modify, get-delete}
use xpi_p2p_ts.Text.{Text, Text_discrete, text_key, is_same, is_same_refl}
use xpi_p2p_ts.BootstrapManager.{
  Config, Connection, Manager, Emitting, has_given_up, delay, schedule, schedule_known,
  schedule_reconnect, dial_known, connect_to_peer,
}
use xpi_p2p_ts.BootstrapManager.Operations.{
  handle_bootstrap_connect, handle_bootstrap_disconnect, mark_connected, mark_disconnected,
  connect_known, disconnect_known, lost_events,
}
use xpi_p2p_ts.Base.{
  ℕ, ◌+◌, ◌≡◌, ◌≢◌, refl, ◌⊎◌, inl, inr, ◌||◌, Bool, true, false, Option, none, some, List, [], ◌∷◌,
  ◌++◌, arith, Bool-cases, if_true,
}

abbrev pub is_dialed : Text → List Text → Bool
is_dialed p [] = false
is_dialed p (q ∷ qs) = is_same p q || is_dialed p qs

abbrev pub watches : Config → Bool → Bool → Option Connection → Bool
watches c timer dial none = true
watches c timer dial (some x) = x.is_connected || timer || dial || has_given_up c x

-- The peer is connected, or a timer or a dial will bring it back, or its attempts are used up. A peer
-- that is not known needs nothing.
unfoldable pub is_watched : Text → Manager → Bool
is_watched p m =
    watches m.config (Dict.has p m.reconnect_timers) (is_dialed p m.dialing)
      (Dict.get p m.bootstrap_peers)

schedule-watched :
    (random : ℕ) (peer p : Text) (c : Connection) (e : Emitting)
    → Dict.get peer e.0.bootstrap_peers ≡ some c
    → (peer ≡ p) ⊎ (is_watched p e.0 ≡ true)
    → is_watched p (schedule random peer c e).0 ≡ true
unfolding is_watched schedule
schedule-watched random peer p c (m, events) known h = ground (
  arith,
  get-modify p peer (λ (x : Connection). record x { reconnect_attempts = x.reconnect_attempts + 1 })
      m.bootstrap_peers,
  get-set p peer (delay m.config c.reconnect_attempts random) m.reconnect_timers,
)

schedule_known-watched :
    (random : ℕ) (peer p : Text) (o : Option Connection) (e : Emitting)
    → Dict.get peer e.0.bootstrap_peers ≡ o
    → (peer ≡ p) ⊎ (is_watched p e.0 ≡ true)
    → is_watched p (schedule_known random peer o e).0 ≡ true
schedule_known-watched random peer p (some c) e known h = schedule-watched random peer p c e known h
schedule_known-watched random peer p none e unknown (inr h) = h
schedule_known-watched random peer p none e unknown (inl same) =
    unfold is_watched in rw (← same, unknown)

pub schedule_reconnect-watched :
    (random : ℕ) (peer p : Text) (e : Emitting)
    → (peer ≡ p) ⊎ (is_watched p e.0 ≡ true)
    → is_watched p (schedule_reconnect random peer e).0 ≡ true
unfolding schedule_reconnect
schedule_reconnect-watched random peer p e h = schedule_known-watched random peer p _ e refl h

dial_known-watched :
    (can_parse : Text → Bool) (random : ℕ) (peer p : Text) (o : Option Connection) (e : Emitting)
    → Dict.get peer e.0.bootstrap_peers ≡ o
    → (peer ≡ p) ⊎ (is_watched p e.0 ≡ true)
    → is_watched p (dial_known can_parse random peer o e).0 ≡ true
dial_known-watched can_parse random peer p none e unknown (inr h) = h
dial_known-watched can_parse random peer p none e unknown (inl same) =
    unfold is_watched in rw (← same, unknown)
dial_known-watched can_parse random peer p (some c) (m, events) known h =
    elim (Bool-cases (can_parse c.multiaddr)) [
      | inr bad ↦ rw bad (schedule-watched random peer p c (m, events) known h)
      | inl good ↦ rw good (elim h [
        | inl same ↦ rw (← same) (unfold is_watched in ground (arith, is_same_refl peer))
        | inr watched ↦ unfold is_watched in ground arith
      ])
    ]

pub connect_to_peer-watched :
    (can_parse : Text → Bool) (random : ℕ) (peer p : Text) (e : Emitting)
    → e.0.has_node ≡ true
    → (peer ≡ p) ⊎ (is_watched p e.0 ≡ true)
    → is_watched p (connect_to_peer can_parse random peer e).0 ≡ true
unfolding connect_to_peer
connect_to_peer-watched can_parse random peer p e node h =
    if_true (λ (x : Emitting). is_watched p x.0 ≡ true) e.0.has_node _ _ node
      (dial_known-watched can_parse random peer p _ e refl h)

connect-watched :
    (now : ℕ) (peer p : Text) (o : Option Connection) (e : Emitting)
    → Dict.get peer e.0.bootstrap_peers ≡ o
    → (peer ≡ p) ⊎ (is_watched p e.0 ≡ true)
    → is_watched p (connect_known now peer o e).0 ≡ true
connect-watched now peer p none e unknown (inr h) = h
connect-watched now peer p none e unknown (inl same) = unfold is_watched in rw (← same, unknown)
connect-watched now peer p (some c) (m, events) known h =
    unfold is_watched in
    ground (
      arith,
      get-modify p peer (mark_connected now) m.bootstrap_peers,
      get-delete p peer m.reconnect_timers,
    )

pub handle_bootstrap_connect-watched :
    (now : ℕ) (peer p : Text) (e : Emitting)
    → (peer ≡ p) ⊎ (is_watched p e.0 ≡ true)
    → is_watched p (handle_bootstrap_connect now peer e).0 ≡ true
unfolding handle_bootstrap_connect
handle_bootstrap_connect-watched now peer p e h = connect-watched now peer p _ e refl h

pub same_or : (peer p : Text) {A : Type 0} → (peer ≢ p → A) → (peer ≡ p) ⊎ A
same_or peer p w = elim (Text_discrete peer p) [ yes same ↦ inl same | no other ↦ inr (w other) ]

disconnect-watched :
    (now random : ℕ) (peer p : Text) (o : Option Connection) (e : Emitting)
    → Dict.get peer e.0.bootstrap_peers ≡ o
    → e.0.is_started ≡ true
    → (peer ≡ p) ⊎ (is_watched p e.0 ≡ true)
    → is_watched p (disconnect_known now random peer o e).0 ≡ true
disconnect-watched now random peer p none e unknown started (inr h) = h
disconnect-watched now random peer p none e unknown started (inl same) =
    unfold is_watched in rw (← same, unknown)
disconnect-watched now random peer p (some c) (m, events) known started h =
    let m' = record m {
      bootstrap_peers = Dict.modify peer (mark_disconnected now) m.bootstrap_peers;
    } in
    let kept : (peer ≡ p) ⊎ (is_watched p m' ≡ true) = elim h [
      | inl same ↦ inl same
      | inr w ↦ same_or peer p (λ other.
          unfold is_watched in
          ground (arith, get-modify p peer (mark_disconnected now) m.bootstrap_peers))
    ] in
    if_true (λ (x : Emitting). is_watched p x.0 ≡ true) m.is_started _ _ started
      (schedule_reconnect-watched random peer p (m', events ++ lost_events peer c.is_connected m')
        kept)

pub handle_bootstrap_disconnect-watched :
    (now random : ℕ) (peer p : Text) (e : Emitting)
    → e.0.is_started ≡ true
    → (peer ≡ p) ⊎ (is_watched p e.0 ≡ true)
    → is_watched p (handle_bootstrap_disconnect now random peer e).0 ≡ true
unfolding handle_bootstrap_disconnect
handle_bootstrap_disconnect-watched now random peer p e started h =
    disconnect-watched now random peer p _ e refl started h
