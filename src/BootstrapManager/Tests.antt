-- ===== src/BootstrapManager/Tests.antt =====
-- Runs of lib/bootstrap-manager.ts with one peer.
use Prim.Native.Nat.{min}
use xpi_p2p_ts.Dict
use xpi_p2p_ts.Text.{Text, literal, Text_discrete, text_key, is_same}
use xpi_p2p_ts.Outcome.{ok}
use xpi_p2p_ts.BootstrapManager.{
  Manager, Connection, create, default_config, initialize, has_given_up, base_delay, delay,
  extract_peer_id, connect_to_peer, schedule_reconnect, dial_failed, end_dial,
}
use xpi_p2p_ts.BootstrapManager.Operations.{start, fresh}
use xpi_p2p_ts.BootstrapManager.Watched.{is_dialed}
use xpi_p2p_ts.BootstrapManager.Delay.{delay_range}
use xpi_p2p_ts.BootstrapManager.Run.{Step, Run, is_unconfirmed, run-looked_after}
use xpi_p2p_ts.Base.{◌+◌, ◌*◌, ◌≤◌, ◌≡◌, refl, ◌⊎◌, Bool, true, false, some, [], ◌∷◌, arith}

abbrev address : Text
address = literal "/ip4/10.0.0.1/tcp/4001/p2p/abc"

finds_peer_id : extract_peer_id address ≡ some (literal "abc")
unfolding extract_peer_id is_same
finds_peer_id = refl

fifth_delay : base_delay default_config 5 ≡ 32000
unfolding base_delay
fifth_delay = refl

delay_range_example :
    (delay default_config 2 900
      ≤ base_delay default_config 2 * 1000000 + base_delay default_config 2 * 300 * 500)
    × (base_delay default_config 2 * 1000000
        ≤ delay default_config 2 900 + base_delay default_config 2 * 300 * 500)
    × (base_delay default_config 2 ≤ 60000)
    × (base_delay default_config 0 ≡ min 1000 60000)
    × (base_delay default_config 3 ≡ min (base_delay default_config 2 * 2) 60000)
delay_range_example = delay_range default_config 2 900 (omega arith)

abbrev parses : Text → Bool
parses t = true

abbrev before : Manager
before = initialize (create default_config)

-- Started, with the dial to the peer under way.
abbrev started : Manager
started = record (create default_config) {
  has_node = true;
  is_started = true;
  bootstrap_peers = (literal "abc", fresh (literal "abc") address) ∷ [];
  dialing = literal "abc" ∷ [];
}

starts_dialing : start parses (λ p. 500) (address ∷ []) (before, []) ≡ ok (started, [])
unfolding start initialize extract_peer_id is_same connect_to_peer Dict.get Dict.set Text_discrete
starts_dialing = refl

-- The dial fails, and the peer is tried again later.
abbrev failed_dial : Manager
failed_dial = (dial_failed 500 (literal "abc") (started, [])).0

abbrev failed_run : Run parses (create default_config) failed_dial
failed_run =
    Run.next
      (Run.next (Run.next Run.here (Step.initializes (create default_config)))
        (Step.starts before (λ p. 500) (address ∷ []) (started, []) starts_dialing))
      (Step.dial_fails started 500 (literal "abc"))

abbrev retried : Connection
retried = record (fresh (literal "abc") address) { reconnect_attempts = 1 }

run-looked_after_example :
    (retried.is_connected ≡ true)
    ⊎ ((Dict.has (literal "abc") failed_dial.reconnect_timers ≡ true)
        ⊎ ((is_dialed (literal "abc") failed_dial.dialing ≡ true)
            ⊎ ((has_given_up failed_dial.config retried ≡ true)
                ⊎ (is_unconfirmed (literal "abc") failed_run ≡ true))))
unfolding dial_failed schedule_reconnect Dict.get Dict.modify Text_discrete is_same
run-looked_after_example =
    run-looked_after default_config (literal "abc") retried failed_run refl refl

-- The dial succeeds to a peer that libp2p was connected to already, which it does not tell.
abbrev silent_run : Run parses (create default_config) (end_dial (literal "abc") started)
silent_run =
    Run.next
      (Run.next (Run.next Run.here (Step.initializes (create default_config)))
        (Step.starts before (λ p. 500) (address ∷ []) (started, []) starts_dialing))
      (Step.dial_succeeds started (literal "abc"))

stays_unconfirmed : is_unconfirmed (literal "abc") silent_run ≡ true
unfolding Dict.get Text_discrete is_same
stays_unconfirmed = refl

-- A word of the connection confirms it.
is_confirmed :
    is_unconfirmed (literal "abc") (
      Run.next silent_run (Step.peer_connects (end_dial (literal "abc") started) 7 (literal "abc")))
    ≡ false
unfolding is_same
is_confirmed = refl
