-- ===== src/BootstrapManager/Loops.antt =====
-- The loops of a BootstrapManager (lib/bootstrap-manager.ts), and what its calls leave alone.
use xpi_p2p_ts.Dict
use xpi_p2p_ts.Dict.{Dict}
use xpi_p2p_ts.Text.{Text, text_key, is_same, is_same-eq, is_same_refl}
use xpi_p2p_ts.BootstrapManager.{
  Connection, Manager, Emitting, schedule, schedule_known, schedule_reconnect, dial_known,
  connect_to_peer,
}
use xpi_p2p_ts.BootstrapManager.Operations.{
  handle_bootstrap_disconnect, check_each, is_lost, connect_to_all, connect_known, disconnect_known,
  mark_disconnected, lost_events,
}
use xpi_p2p_ts.BootstrapManager.Watched.{
  is_watched, is_dialed, connect_to_peer-watched, handle_bootstrap_disconnect-watched,
}
use xpi_p2p_ts.Base.{
  ℕ, ◌≡◌, refl, sym, ◌∙◌, ◌⊎◌, inl, inr, Bool, true, Option, none, some, List, [], ◌∷◌, ◌++◌,
  if◌then◌else◌, arith, Bool-cases, Option-cases, if_both,
}

-- The parts that most calls leave alone.
abbrev pub Keeps : Manager → Manager → Type 0
Keeps m m' = (m'.has_node ≡ m.has_node) × (m'.is_started ≡ m.is_started)

schedule_known-Keeps :
    (random : ℕ) (peer : Text) (o : Option Connection) (e : Emitting)
    → Keeps e.0 (schedule_known random peer o e).0
unfolding schedule
schedule_known-Keeps random peer none e = (refl, refl)
schedule_known-Keeps random peer (some c) (m, events) = ground arith

dial_known-Keeps :
    (can_parse : Text → Bool) (random : ℕ) (peer : Text) (o : Option Connection) (e : Emitting)
    → Keeps e.0 (dial_known can_parse random peer o e).0
unfolding schedule
dial_known-Keeps can_parse random peer none e = (refl, refl)
dial_known-Keeps can_parse random peer (some c) (m, events) = ground arith

pub connect_to_peer-Keeps :
    (can_parse : Text → Bool) (random : ℕ) (peer : Text) (e : Emitting)
    → Keeps e.0 (connect_to_peer can_parse random peer e).0
unfolding connect_to_peer
connect_to_peer-Keeps can_parse random peer e =
    if_both (λ (x : Emitting). Keeps e.0 x.0) e.0.has_node _ _
      (λ _. dial_known-Keeps can_parse random peer _ e) (λ _. (refl, refl))

pub schedule_reconnect-Keeps :
    (random : ℕ) (peer : Text) (e : Emitting) → Keeps e.0 (schedule_reconnect random peer e).0
unfolding schedule_reconnect
schedule_reconnect-Keeps random peer e = schedule_known-Keeps random peer _ e

pub disconnect-Keeps :
    (now random : ℕ) (peer : Text) (o : Option Connection) (e : Emitting)
    → Keeps e.0 (disconnect_known now random peer o e).0
disconnect-Keeps now random peer none e = (refl, refl)
disconnect-Keeps now random peer (some c) (m, events) =
    let m' = record m {
      bootstrap_peers = Dict.modify peer (mark_disconnected now) m.bootstrap_peers;
    } in
    let e' : Emitting = (m', events ++ lost_events peer c.is_connected m') in
    if_both (λ (x : Emitting). Keeps m x.0) m.is_started _ _
      (λ _. schedule_reconnect-Keeps random peer e') (λ _. (refl, refl))

pub connect-Keeps :
    (now : ℕ) (peer : Text) (o : Option Connection) (e : Emitting)
    → Keeps e.0 (connect_known now peer o e).0
connect-Keeps now peer none e = (refl, refl)
connect-Keeps now peer (some c) e = (refl, refl)

-- The loop of a health check.
pub check_each-watched :
    (lost : Text → Bool) (now : ℕ) (random : Text → ℕ) (peers : List Text) (e : Emitting)
    → Keeps e.0 (check_each lost now random peers e).0
      × ((p : Text)
          → e.0.is_started ≡ true
          → is_watched p e.0 ≡ true
          → is_watched p (check_each lost now random peers e).0 ≡ true)
unfolding check_each
check_each-watched lost now random [] e = ((refl, refl), λ p s h. h)
check_each-watched lost now random (peer ∷ peers) e =
    let b = is_lost lost peer (Dict.get peer e.0.bootstrap_peers) in
    let e' : Emitting = if b then handle_bootstrap_disconnect now (random peer) peer e else e in
    let keeps : Keeps e.0 e'.0 =
      if_both (λ (x : Emitting). Keeps e.0 x.0) b _ _
        (λ _. unfold handle_bootstrap_disconnect in disconnect-Keeps now (random peer) peer _ e)
        (λ _. (refl, refl)) in
    let (keeps', watched') = check_each-watched lost now random peers e' in
    (
      (keeps'.0 ∙ keeps.0, keeps'.1 ∙ keeps.1),
      λ p s h. watched' p (keeps.1 ∙ s) (
          if_both (λ (x : Emitting). is_watched p x.0 ≡ true) b _ _
            (λ _. handle_bootstrap_disconnect-watched now (random peer) peer p e s (inr h))
            (λ _. h)),
    )

-- After the loop over the peers to dial, each of them is looked after, and who was so before.
pub connect_to_all-watched :
    (can_parse : Text → Bool) (random : Text → ℕ) (peers : List Text) (e : Emitting)
    → e.0.has_node ≡ true
    → Keeps e.0 (connect_to_all can_parse random peers e).0
      × ((p : Text)
          → (is_dialed p peers ≡ true) ⊎ (is_watched p e.0 ≡ true)
          → is_watched p (connect_to_all can_parse random peers e).0 ≡ true)
unfolding connect_to_all
connect_to_all-watched can_parse random [] e node =
    ((refl, refl), λ p h. elim h [ inl l ↦ absurd (ground arith) | inr w ↦ w ])
connect_to_all-watched can_parse random (peer ∷ peers) e node =
    let e' = connect_to_peer can_parse (random peer) peer e in
    let keeps = connect_to_peer-Keeps can_parse (random peer) peer e in
    let (keeps', watched') = connect_to_all-watched can_parse random peers e' (keeps.0 ∙ node) in
    let dialed = connect_to_peer-watched can_parse (random peer) peer in
    (
      (keeps'.0 ∙ keeps.0, keeps'.1 ∙ keeps.1),
      λ p h. elim h [
        | inr w ↦ watched' p (inr (dialed p e node (inr w)))
        | inl l ↦ elim (Bool-cases (is_same p peer)) [
          | inl same ↦ watched' p (inr (dialed p e node (inl (sym (is_same-eq p peer same)))))
          | inr other ↦ watched' p (inl (rw other at l))
        ]
      ],
    )

get-is_dialed :
    (p : Text) (c : Connection) (m : Dict Text Connection)
    → Dict.get p m ≡ some c
    → is_dialed p (Dict.keys m) ≡ true
unfolding Dict.get
get-is_dialed p c [] h = absurd (ground arith)
get-is_dialed p c ((k, d) ∷ m) h = ground (arith, get-is_dialed p c m, is_same_refl p)

-- Peers of whom nothing is known need nothing; the others are among the keys.
pub known_or_watched :
    (p : Text) (m : Manager)
    → (is_dialed p (Dict.keys m.bootstrap_peers) ≡ true) ⊎ (is_watched p m ≡ true)
unfolding is_watched
known_or_watched p m = elim (Option-cases (Dict.get p m.bootstrap_peers)) [
  | inl unknown ↦ inr (rw unknown)
  | inr (c, known) ↦ inl (get-is_dialed p c m.bootstrap_peers known)
]
