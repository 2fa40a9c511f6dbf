-- ===== src/BootstrapManager/Calls.antt =====
-- The calls of a BootstrapManager (lib/bootstrap-manager.ts) that dial.
use xpi_p2p_ts.Dict
use xpi_p2p_ts.Dict.{Dict}
use xpi_p2p_ts.Dict.Laws.{get-set, get-modify, get-delete}
use xpi_p2p_ts.Text.{Text, Text_discrete, text_key, is_same, is_same-eq, is_same_refl}
use xpi_p2p_ts.Outcome.{ok}
use xpi_p2p_ts.BootstrapManager.{
  Connection, Manager, Emitting, extract_peer_id, usable, connect_to_peer, remove_one, end_dial,
  dial_failed,
}
use xpi_p2p_ts.BootstrapManager.Operations.{
  store_peers, connect_to_all, start, connect, reconnect, forgive, store_new, connect_at,
  reconnect_at, fresh,
}
use xpi_p2p_ts.BootstrapManager.Watched.{
  is_watched, is_dialed, schedule_reconnect-watched, connect_to_peer-watched, same_or,
}
use xpi_p2p_ts.BootstrapManager.Loops.{
  schedule_reconnect-Keeps, connect_to_peer-Keeps, connect_to_all-watched, known_or_watched,
}
use xpi_p2p_ts.Base.{
  ℕ, ◌≡◌, ◌≢◌, refl, sym, ◌∙◌, subst, ◌⊎◌, inl, inr, Bool, true, false, not, ◌&&◌, if◌then◌else◌,
  Option, none, some, List, [], ◌∷◌, arith, Bool-cases,
}

-- While it is started the manager has its node, and it looks after a peer if that is not excused.
pub record LooksAfter (is_excused : Bool) (p : Text) (m : Manager) : Type 0 where
  pub node : m.is_started ≡ true → m.has_node ≡ true
  pub watched : m.is_started ≡ true → is_excused ≡ false → is_watched p m ≡ true

-- A call about a peer ends the excuse of that peer.
abbrev pub unless_about : Text → Text → Bool → Bool
unless_about peer p before = if is_same peer p then false else before

abbrev pub unless_about_usable : Option Text → Text → Bool → Bool
unless_about_usable none p before = before
unless_about_usable (some peer) p before = unless_about peer p before

-- Where the call is about another peer nothing is excused before if nothing is after.
pub about_or :
    (peer p : Text) (before : Bool) {A : Type 0}
    → unless_about peer p before ≡ false
    → (peer ≢ p → before ≡ false → A)
    → (peer ≡ p) ⊎ A
about_or peer p before h w =
    same_or peer p (λ other. w other (ground (arith, h, is_same-eq peer p)))

pub starts-LooksAfter :
    (can_parse : Text → Bool) (random : Text → ℕ) (addresses : List Text) (b : Bool) (p : Text)
    (m : Manager) (e : Emitting)
    → start can_parse random addresses (m, []) ≡ ok e
    → LooksAfter b p m
    → LooksAfter (m.is_started && b) p e.0
unfolding start
starts-LooksAfter can_parse random addresses b p m e h l = elim (Bool-cases m.has_node) [
  | inr no_node ↦ absurd (ground arith)
  | inl node ↦ elim (Bool-cases m.is_started) [
    | inl started ↦
        let same : m ≡ e.0 = ground arith in
        subst (LooksAfter _ p) same (subst (λ s. LooksAfter (s && b) p m) (sym started) l)
    | inr idle ↦
        let peers = store_peers addresses m.bootstrap_peers in
        let m' = record m { is_started = true; bootstrap_peers = peers } in
        let dialed = connect_to_all can_parse random (Dict.keys peers) (m', []) in
        let same : dialed.0 ≡ e.0 = ground arith in
        let (keeps, watched) =
          connect_to_all-watched can_parse random (Dict.keys peers) (m', []) node in
        subst (LooksAfter (m.is_started && b) p) same (record {
          node = λ s. keeps.0 ∙ node;
          watched = λ s x. watched p (known_or_watched p m');
        })
  ]
]

-- A dial after a change of the state of its own peer alone.
pub dialed-LooksAfter :
    (can_parse : Text → Bool) (random : ℕ) (peer : Text) (b : Bool) (p : Text) (m m' : Manager)
    → m'.has_node ≡ m.has_node
    → m'.is_started ≡ m.is_started
    → (peer ≢ p → is_watched p m ≡ true → is_watched p m' ≡ true)
    → LooksAfter b p m
    → LooksAfter (unless_about peer p b) p (connect_to_peer can_parse random peer (m', [])).0
dialed-LooksAfter can_parse random peer b p m m' node started others l =
    let keeps = connect_to_peer-Keeps can_parse random peer (m', []) in
    let before = λ (s : (connect_to_peer can_parse random peer (m', [])).0.is_started ≡ true).
      sym started ∙ sym keeps.1 ∙ s in
    record {
      node = λ s. keeps.0 ∙ node ∙ l.node (before s);
      watched = λ s x.
          connect_to_peer-watched can_parse random peer p (m', []) (node ∙ l.node (before s))
            (about_or peer p b x (λ other x'. others other (l.watched (before s) x')));
    }

connect_at-LooksAfter :
    (can_parse : Text → Bool) (random : ℕ) (address : Text) (o : Option Text) (b : Bool) (p : Text)
    (m : Manager) (e : Emitting)
    → connect_at can_parse random address o (m, []) ≡ ok e
    → LooksAfter b p m
    → LooksAfter (unless_about_usable o p b) p e.0
connect_at-LooksAfter can_parse random address none b p m e h l = absurd (ground arith)
connect_at-LooksAfter can_parse random address (some peer) b p m e h l =
    let m' = record m { bootstrap_peers = store_new peer address m.bootstrap_peers } in
    let same : (connect_to_peer can_parse random peer (m', [])).0 ≡ e.0 = cc in
    subst (LooksAfter _ p) same (
      dialed-LooksAfter can_parse random peer b p m m' refl refl
        (λ other w.
          unfold is_watched in
          ground (arith, w, get-set p peer (fresh peer address) m.bootstrap_peers))
        l)

pub connects-LooksAfter :
    (can_parse : Text → Bool) (random : ℕ) (address : Text) (b : Bool) (p : Text) (m : Manager)
    (e : Emitting)
    → connect can_parse random address (m, []) ≡ ok e
    → LooksAfter b p m
    → LooksAfter (unless_about_usable (usable (extract_peer_id address)) p b) p e.0
unfolding connect
connects-LooksAfter can_parse random address b p m e h l = elim (Bool-cases m.has_node) [
  | inr no_node ↦ absurd (ground arith)
  | inl node ↦
      connect_at-LooksAfter can_parse random address (usable (extract_peer_id address)) b p m e
        (ground arith) l
]

reconnect_at-LooksAfter :
    (can_parse : Text → Bool) (random : ℕ) (address : Text) (o : Option Text) (b : Bool) (p : Text)
    (m : Manager) (e : Emitting)
    → reconnect_at can_parse random address o (m, []) ≡ ok e
    → LooksAfter b p m
    → LooksAfter (unless_about_usable o p b) p e.0
reconnect_at-LooksAfter can_parse random address none b p m e h l = absurd (ground arith)
reconnect_at-LooksAfter can_parse random address (some peer) b p m e h l =
    let m' = record m {
      reconnect_timers = Dict.delete peer m.reconnect_timers;
      bootstrap_peers = Dict.modify peer forgive m.bootstrap_peers;
    } in
    let same : (connect_to_peer can_parse random peer (m', [])).0 ≡ e.0 =
      elim (Bool-cases (Dict.has peer m.bootstrap_peers)) [
        | inl known ↦ let h' = rw known at h in cc
        | inr unknown ↦ absurd (let h' = rw unknown at h in cc)
      ] in
    subst (LooksAfter _ p) same (
      dialed-LooksAfter can_parse random peer b p m m' refl refl
        (λ other w.
          unfold is_watched in
          ground (
            arith,
            w,
            get-delete p peer m.reconnect_timers,
            get-modify p peer forgive m.bootstrap_peers,
          ))
        l)

pub reconnects-LooksAfter :
    (can_parse : Text → Bool) (random : ℕ) (address : Text) (b : Bool) (p : Text) (m : Manager)
    (e : Emitting)
    → reconnect can_parse random address (m, []) ≡ ok e
    → LooksAfter b p m
    → LooksAfter (unless_about_usable (usable (extract_peer_id address)) p b) p e.0
unfolding reconnect
reconnects-LooksAfter can_parse random address b p m e h l =
    reconnect_at-LooksAfter can_parse random address (usable (extract_peer_id address)) b p m e h l

remove_one-other :
    (peer p : Text) (ps : List Text) → peer ≢ p → is_dialed p (remove_one peer ps) ≡ is_dialed p ps
unfolding remove_one
remove_one-other peer p [] other = refl
remove_one-other peer p (q ∷ qs) other =
    ground (arith, remove_one-other peer p qs, is_same-eq peer q, is_same-eq p q)

end_dial-other :
    (peer p : Text) (m : Manager)
    → peer ≢ p
    → is_watched p m ≡ true
    → is_watched p (end_dial peer m) ≡ true
unfolding is_watched end_dial
end_dial-other peer p m other w = ground (arith, w, remove_one-other peer p m.dialing other)

pub dial_failed-LooksAfter :
    (random : ℕ) (peer : Text) (b : Bool) (p : Text) (m : Manager)
    → LooksAfter b p m
    → LooksAfter (unless_about peer p b) p (dial_failed random peer (m, [])).0
unfolding dial_failed end_dial
dial_failed-LooksAfter random peer b p m l =
    let m' = end_dial peer m in
    let keeps = schedule_reconnect-Keeps random peer (m', []) in
    record {
      node = λ s. keeps.0 ∙ l.node (sym keeps.1 ∙ s);
      watched = λ s x.
          schedule_reconnect-watched random peer p (m', [])
            (about_or peer p b x
              (λ other x'. end_dial-other peer p m other (l.watched (sym keeps.1 ∙ s) x')));
    }

-- A peer of whom the manager knows, not marked as connected: the success of a dial changes nothing
-- in its entry.
abbrev pub is_unmarked : Option Connection → Bool
is_unmarked none = false
is_unmarked (some c) = not c.is_connected

abbrev pub after_success : Text → Text → Manager → Bool → Bool
after_success peer p m before =
    if is_same peer p then is_unmarked (Dict.get peer m.bootstrap_peers) else before

end_dial-marked :
    (p : Text) (m : Manager)
    → is_unmarked (Dict.get p m.bootstrap_peers) ≡ false
    → is_watched p (end_dial p m) ≡ true
unfolding is_watched end_dial
end_dial-marked p m h = ground arith

pub dial_succeeds-LooksAfter :
    (peer : Text) (b : Bool) (p : Text) (m : Manager)
    → LooksAfter b p m
    → LooksAfter (after_success peer p m b) p (end_dial peer m)
dial_succeeds-LooksAfter peer b p m l = record {
  node = unfold end_dial in l.node;
  watched = λ s x.
      let s' : m.is_started ≡ true = unfold end_dial in s in
      elim (Text_discrete peer p) [
        | yes same ↦
            subst (λ q. is_watched q (end_dial peer m) ≡ true) same
              (end_dial-marked peer m (ground (arith, x, same, is_same_refl peer)))
        | no other ↦
            end_dial-other peer p m other (l.watched s' (ground (arith, x, is_same-eq peer p)))
      ];
}
