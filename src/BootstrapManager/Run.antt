-- ===== src/BootstrapManager/Run.antt =====
-- Runs of a BootstrapManager (lib/bootstrap-manager.ts): the calls of its user, of libp2p and of its
-- timers, in any order.
use xpi_p2p_ts.Dict
use xpi_p2p_ts.Dict.{Dict}
use xpi_p2p_ts.Dict.Laws.{get-delete}
use xpi_p2p_ts.Text.{Text, text_key}
use xpi_p2p_ts.Outcome.{ok}
use xpi_p2p_ts.BootstrapManager.{
  Config, Connection, Manager, Emitting, create, initialize, has_given_up, usable, extract_peer_id,
  end_dial, dial_failed,
}
use xpi_p2p_ts.BootstrapManager.Operations.{
  handle_bootstrap_connect, handle_bootstrap_disconnect, timer_fired, perform_health_check, start,
  finish_start, stop, connect, reconnect,
}
use xpi_p2p_ts.BootstrapManager.Watched.{
  is_watched, is_dialed, handle_bootstrap_connect-watched, handle_bootstrap_disconnect-watched,
}
use xpi_p2p_ts.BootstrapManager.Loops.{Keeps, disconnect-Keeps, connect-Keeps, check_each-watched}
use xpi_p2p_ts.BootstrapManager.Calls.{
  LooksAfter, unless_about, unless_about_usable, after_success, about_or, starts-LooksAfter,
  dialed-LooksAfter, connects-LooksAfter, reconnects-LooksAfter, dial_failed-LooksAfter,
  dial_succeeds-LooksAfter,
}
use xpi_p2p_ts.Base.{
  ℕ, ◌≡◌, refl, sym, ◌∙◌, ◌⊎◌, inr, ◌&&◌, Bool, true, false, some, List, [], arith, if_both,
}

-- One call, with what the world answers. A dial may succeed with or without a word of libp2p about
-- the connection, which may have been there before.
pub data Step (can_parse : Text → Bool) : Manager → Manager → Type 0 where
  initializes : (m : Manager) → Step can_parse m (initialize m)
  starts :
      (m : Manager) (random : Text → ℕ) (addresses : List Text) (e : Emitting)
      → start can_parse random addresses (m, []) ≡ ok e
      → Step can_parse m e.0
  finishes_start : (m : Manager) → Step can_parse m (finish_start m)
  stops : (m : Manager) → Step can_parse m (stop m)
  connects :
      (m : Manager) (random : ℕ) (address : Text) (e : Emitting)
      → connect can_parse random address (m, []) ≡ ok e
      → Step can_parse m e.0
  reconnects :
      (m : Manager) (random : ℕ) (address : Text) (e : Emitting)
      → reconnect can_parse random address (m, []) ≡ ok e
      → Step can_parse m e.0
  dial_fails :
      (m : Manager) (random : ℕ) (peer : Text)
      → Step can_parse m (dial_failed random peer (m, [])).0
  dial_succeeds : (m : Manager) (peer : Text) → Step can_parse m (end_dial peer m)
  peer_connects :
      (m : Manager) (now : ℕ) (peer : Text)
      → Step can_parse m (handle_bootstrap_connect now peer (m, [])).0
  peer_disconnects :
      (m : Manager) (now random : ℕ) (peer : Text)
      → Step can_parse m (handle_bootstrap_disconnect now random peer (m, [])).0
  timer_fires :
      (m : Manager) (random : ℕ) (peer : Text)
      → Dict.has peer m.reconnect_timers ≡ true
      → Step can_parse m (timer_fired can_parse random peer (m, [])).0
  checks_health :
      (m : Manager) (lost : Text → Bool) (now : ℕ) (random : Text → ℕ)
      → Step can_parse m (perform_health_check lost now random (m, [])).0

pub data Run (can_parse : Text → Bool) (m : Manager) : Manager → Type 0 where
  here : Run can_parse m m
  next : {n k : Manager} → Run can_parse m n → Step can_parse n k → Run can_parse m k

-- Whether what the code last learned of a peer is that a dial of it has succeeded while it was not
-- marked as connected.
abbrev pub after_step :
    {can_parse : Text → Bool} {m n : Manager} → Text → Step can_parse m n → Bool → Bool
after_step p (Step.starts m random addresses e h) before = m.is_started && before
after_step p (Step.stops m) before = false
after_step p (Step.connects m random address e h) before =
    unless_about_usable (usable (extract_peer_id address)) p before
after_step p (Step.reconnects m random address e h) before =
    unless_about_usable (usable (extract_peer_id address)) p before
after_step p (Step.dial_fails m random peer) before = unless_about peer p before
after_step p (Step.dial_succeeds m peer) before = after_success peer p m before
after_step p (Step.peer_connects m now peer) before = unless_about peer p before
after_step p (Step.peer_disconnects m now random peer) before = unless_about peer p before
after_step p (Step.timer_fires m random peer set) before = unless_about peer p before
after_step p _ before = before

abbrev pub is_unconfirmed :
    {can_parse : Text → Bool} {m n : Manager} → Text → Run can_parse m n → Bool
is_unconfirmed p Run.here = false
is_unconfirmed p (Run.next r s) = after_step p s (is_unconfirmed p r)

looked_after :
    (b : Bool) (p : Text) (m : Manager) (x : Connection)
    → Dict.get p m.bootstrap_peers ≡ some x
    → (b ≡ false → is_watched p m ≡ true)
    → (x.is_connected ≡ true)
      ⊎ ((Dict.has p m.reconnect_timers ≡ true)
          ⊎ ((is_dialed p m.dialing ≡ true) ⊎ ((has_given_up m.config x ≡ true) ⊎ (b ≡ true))))
unfolding is_watched
looked_after true p m x known w = inr (inr (inr (inr refl)))
looked_after false p m x known w = let w' = w refl in ground arith

stops-LooksAfter : (p : Text) (m : Manager) → LooksAfter false p (stop m)
unfolding stop
stops-LooksAfter p m = record { node = λ s. absurd (cc); watched = λ s x. absurd (cc) }

peer_connects-LooksAfter :
    (now : ℕ) (peer : Text) (b : Bool) (p : Text) (m : Manager)
    → LooksAfter b p m
    → LooksAfter (unless_about peer p b) p (handle_bootstrap_connect now peer (m, [])).0
peer_connects-LooksAfter now peer b p m l =
    let keeps : Keeps m (handle_bootstrap_connect now peer (m, [])).0 =
      unfold handle_bootstrap_connect in connect-Keeps now peer _ (m, []) in
    record {
      node = λ s. keeps.0 ∙ l.node (sym keeps.1 ∙ s);
      watched = λ s x.
          handle_bootstrap_connect-watched now peer p (m, [])
            (about_or peer p b x (λ other x'. l.watched (sym keeps.1 ∙ s) x'));
    }

peer_disconnects-LooksAfter :
    (now random : ℕ) (peer : Text) (b : Bool) (p : Text) (m : Manager)
    → LooksAfter b p m
    → LooksAfter (unless_about peer p b) p (handle_bootstrap_disconnect now random peer (m, [])).0
peer_disconnects-LooksAfter now random peer b p m l =
    let keeps : Keeps m (handle_bootstrap_disconnect now random peer (m, [])).0 =
      unfold handle_bootstrap_disconnect in disconnect-Keeps now random peer _ (m, []) in
    record {
      node = λ s. keeps.0 ∙ l.node (sym keeps.1 ∙ s);
      watched = λ s x.
          let before = sym keeps.1 ∙ s in
          handle_bootstrap_disconnect-watched now random peer p (m, []) before
            (about_or peer p b x (λ other x'. l.watched before x'));
    }

timer_fires-LooksAfter :
    (can_parse : Text → Bool) (random : ℕ) (peer : Text) (b : Bool) (p : Text) (m : Manager)
    → LooksAfter b p m
    → LooksAfter (unless_about peer p b) p (timer_fired can_parse random peer (m, [])).0
unfolding timer_fired
timer_fires-LooksAfter can_parse random peer b p m l =
    dialed-LooksAfter can_parse random peer b p m
      (record m { reconnect_timers = Dict.delete peer m.reconnect_timers }) refl refl
      (λ other w. unfold is_watched in ground (arith, w, get-delete p peer m.reconnect_timers)) l

checks_health-LooksAfter :
    (lost : Text → Bool) (now : ℕ) (random : Text → ℕ) (b : Bool) (p : Text) (m : Manager)
    → LooksAfter b p m
    → LooksAfter b p (perform_health_check lost now random (m, [])).0
unfolding perform_health_check
checks_health-LooksAfter lost now random b p m l =
    let (keeps, watched) =
      check_each-watched lost now random (Dict.keys m.bootstrap_peers) (m, []) in
    if_both (λ (x : Emitting). LooksAfter b p x.0) m.has_node _ _
      (λ _. record {
        node = λ s. keeps.0 ∙ l.node (sym keeps.1 ∙ s);
        watched = λ s x. let before = sym keeps.1 ∙ s in watched p before (l.watched before x);
      })
      (λ _. l)

Step-LooksAfter :
    {can_parse : Text → Bool} {m n : Manager} (b : Bool) (p : Text) (s : Step can_parse m n)
    → LooksAfter b p m
    → LooksAfter (after_step p s b) p n
Step-LooksAfter b p (Step.initializes m) l =
    unfold initialize is_watched in
    record { node = λ s. refl; watched = λ s x. let w = l.watched s x in unfold is_watched in w }
Step-LooksAfter b p (Step.starts m random addresses e h) l =
    starts-LooksAfter _ random addresses b p m e h l
Step-LooksAfter b p (Step.finishes_start m) l =
    unfold finish_start is_watched in record { node = l.node; watched = l.watched }
Step-LooksAfter b p (Step.stops m) l = stops-LooksAfter p m
Step-LooksAfter b p (Step.connects m random address e h) l =
    connects-LooksAfter _ random address b p m e h l
Step-LooksAfter b p (Step.reconnects m random address e h) l =
    reconnects-LooksAfter _ random address b p m e h l
Step-LooksAfter b p (Step.dial_fails m random peer) l = dial_failed-LooksAfter random peer b p m l
Step-LooksAfter b p (Step.dial_succeeds m peer) l = dial_succeeds-LooksAfter peer b p m l
Step-LooksAfter b p (Step.peer_connects m now peer) l = peer_connects-LooksAfter now peer b p m l
Step-LooksAfter b p (Step.peer_disconnects m now random peer) l =
    peer_disconnects-LooksAfter now random peer b p m l
Step-LooksAfter b p (Step.timer_fires m random peer set) l =
    timer_fires-LooksAfter _ random peer b p m l
Step-LooksAfter b p (Step.checks_health m lost now random) l =
    checks_health-LooksAfter lost now random b p m l

create-LooksAfter : (c : Config) (p : Text) → LooksAfter false p (create c)
create-LooksAfter c p = record { node = λ s. absurd (cc); watched = λ s x. absurd (cc) }

Run-LooksAfter :
    {can_parse : Text → Bool} (c : Config) {m : Manager} (p : Text) (r : Run can_parse (create c) m)
    → LooksAfter (is_unconfirmed p r) p m
Run-LooksAfter c p Run.here = create-LooksAfter c p
Run-LooksAfter c p (Run.next r s) = Step-LooksAfter (is_unconfirmed p r) p s (Run-LooksAfter c p r)

-- After any calls, in any order, each peer that a started manager knows is connected, or has a timer
-- or a dial under way, or has used up its attempts, or was last heard of when a dial of it succeeded
-- while it was not marked as connected: since then libp2p has told neither of its connection nor of
-- its loss, no dial of it has failed or been tried again, and the manager has not been stopped.
pub run-looked_after :
    {can_parse : Text → Bool} (c : Config) {m : Manager} (p : Text) (x : Connection)
    (r : Run can_parse (create c) m)
    → m.is_started ≡ true
    → Dict.get p m.bootstrap_peers ≡ some x
    → (x.is_connected ≡ true)
      ⊎ ((Dict.has p m.reconnect_timers ≡ true)
          ⊎ ((is_dialed p m.dialing ≡ true)
              ⊎ ((has_given_up m.config x ≡ true) ⊎ (is_unconfirmed p r ≡ true))))
run-looked_after c {m} p x r started known =
    looked_after (is_unconfirmed p r) p m x known (λ e. (Run-LooksAfter c p r).watched started e)
