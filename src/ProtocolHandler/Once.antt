-- ===== src/ProtocolHandler/Once.antt =====
-- Messages of lib/musig2/protocol.ts that come twice.
use xpi_p2p_ts.Dict
use xpi_p2p_ts.Value.{Value}
use xpi_p2p_ts.MessageSigning.{P2PMessage, Schnorr}
use xpi_p2p_ts.SigningSecurity
use xpi_p2p_ts.Replay.{ReplayProtection, valid}
use xpi_p2p_ts.Replay.Window
use xpi_p2p_ts.Replay.Window.{Call, validates, Chronological, end_time, no_replay}
use xpi_p2p_ts.ProtocolHandler.{
  MessageType, Reading, Event, received, Handler, protocol_name, has_protocol, stamp,
  validate_replay, check_replay, signature_event, refused, check_signed, after_security,
  check_secured, check_security, handle_message,
}
use xpi_p2p_ts.ProtocolHandler.Delivered.{handle_message-IsDelivered}
use xpi_p2p_ts.Base.{
  string_key, ℕ, ◌+◌, ◌≤◌, ◌≡◌, ◌≢◌, refl, ap, ◌∙◌, subst, ◌⊎◌, inl, inr, String, Bool, true, false,
  Option, none, some, List, [], ◌∷◌, length, is_nonempty, is_nonzero, arith, Bool-cases,
}

-- A message of a peer, with the time at which it comes.
pub record Arrival : Type 0 where
  pub time : ℕ
  pub peer : String
  pub message : P2PMessage

abbrev pub AreLater : ℕ → List Arrival → Type 0
AreLater t [] = Unit
AreLater t (a ∷ rest) = (t ≤ a.time) × AreLater a.time rest

abbrev pub last_time : ℕ → List Arrival → ℕ
last_time t [] = t
last_time t (a ∷ rest) = last_time a.time rest

module _ {PrivateKey PublicKey : Type 0} (lib : Schnorr PrivateKey PublicKey) (reading : Reading)
    (ceil_tenth : ℕ → ℕ) (resolver : Option (String → ℕ → Option PublicKey)) where
  unfoldable pub handle_all : List Arrival → Handler → Handler
  handle_all [] h = h
  handle_all (a ∷ rest) h =
      handle_all rest (handle_message lib reading ceil_tenth resolver a.time a.peer a.message h).0

  -- The call of the replay protection for a message.
  abbrev call_of : ℕ → P2PMessage → Call
  call_of now m =
      validates (stamp lib reading ceil_tenth resolver now m) (reading.session_id m.payload)
        (reading.signer_index m.payload) (reading.sequence_number m.payload)

  -- A message makes the replay protection go one call further, or leaves it alone.
  abbrev Advances : ℕ → P2PMessage → ReplayProtection → ReplayProtection → Type 0
  Advances now m rp rp' = (rp' ≡ rp) ⊎ (rp' ≡ Window.step ceil_tenth now (call_of now m) rp)

  refused-Advances :
      (now : ℕ) (m : P2PMessage) (h : Handler) (o : Option Event)
      → Advances now m h.replay (refused lib reading ceil_tenth resolver now o m h).0.replay
  unfolding check_replay validate_replay Window.step
  refused-Advances now m h none = inr refl
  refused-Advances now m h (some e) = inl refl

  check_signed-Advances :
      (now : ℕ) (m : P2PMessage) (h : Handler)
      → Advances now m h.replay (check_signed lib reading ceil_tenth resolver now m h).0.replay
  unfolding check_signed
  check_signed-Advances now m h =
      refused-Advances now m h (signature_event lib reading ceil_tenth resolver now m h)

  after_security-Advances :
      (now : ℕ) (m : P2PMessage) (h : Handler) (answer : SigningSecurity.Validator × Bool)
      → Advances now m h.replay
          (after_security lib reading ceil_tenth resolver now m h answer).0.replay
  after_security-Advances now m h (s, true) =
      check_signed-Advances now m (record h { security = some s })
  after_security-Advances now m h (s, false) = inl refl

  check_secured-Advances :
      (now : ℕ) (peer : String) (m : P2PMessage) (h : Handler)
      (o : Option SigningSecurity.Validator)
      → Advances now m h.replay
          (check_secured lib reading ceil_tenth resolver now o peer m h).0.replay
  check_secured-Advances now peer m h none = check_signed-Advances now m h
  check_secured-Advances now peer m h (some s) = after_security-Advances now m h _

  handle_message-Advances :
      (now : ℕ) (peer : String) (m : P2PMessage) (h : Handler)
      → Advances now m h.replay
          (handle_message lib reading ceil_tenth resolver now peer m h).0.replay
  unfolding handle_message check_security
  handle_message-Advances now peer m h = elim (Bool-cases (has_protocol protocol_name m.protocol)) [
    | inl e ↦ rw e (check_secured-Advances now peer m h h.security)
    | inr e ↦ rw e (inl refl)
  ]

  -- The calls of the replay protection in a run of the handler.
  record Calls (t : ℕ) (rest : List Arrival) (rp rp' : ReplayProtection) : Type 0 where
    pub calls : List (ℕ × Call)
    pub reached : rp' ≡ Window.run ceil_tenth calls rp
    pub chronological : Chronological ceil_tenth t calls
    pub few : length calls ≤ length rest
    pub ends : end_time ceil_tenth t calls ≤ last_time t rest

  end_time_mono :
      (s t : ℕ) (calls : List (ℕ × Call))
      → s ≤ t
      → end_time ceil_tenth s calls ≤ end_time ceil_tenth t calls
  end_time_mono s t [] h = h
  end_time_mono s t (c ∷ calls) h = omega arith

  Chronological-earlier :
      (s t : ℕ) (calls : List (ℕ × Call))
      → s ≤ t
      → Chronological ceil_tenth t calls
      → Chronological ceil_tenth s calls
  Chronological-earlier s t [] h c = tt
  Chronological-earlier s t (c ∷ calls) h (p, q) = (omega arith, q)

  last_time-ge : (t : ℕ) (rest : List Arrival) → AreLater t rest → t ≤ last_time t rest
  last_time-ge t [] l = omega arith
  last_time-ge t (a ∷ rest) l = omega (arith, last_time-ge a.time rest l.1)

  handle_all-Calls :
      (t : ℕ) (rest : List Arrival) (h : Handler)
      → AreLater t rest
      → Calls t rest h.replay (handle_all rest h).replay
  unfolding handle_all Window.run
  handle_all-Calls t [] h l = record {
    calls = [];
    reached = refl;
    chronological = tt;
    few = omega arith;
    ends = omega arith;
  }
  handle_all-Calls t (a ∷ rest) h l =
      let h' = (handle_message lib reading ceil_tenth resolver a.time a.peer a.message h).0 in
      let r = handle_all-Calls a.time rest h' l.1 in
      elim (handle_message-Advances a.time a.peer a.message h) [
        | inl e ↦ record {
          calls = r.calls;
          reached = r.reached ∙ ap (Window.run ceil_tenth r.calls) e;
          chronological = Chronological-earlier t a.time r.calls l.0 r.chronological;
          few = omega (arith, r.few);
          ends = omega (arith, r.ends, end_time_mono t a.time r.calls l.0);
        }
        | inr e ↦ record {
          calls = (a.time, call_of a.time a.message) ∷ r.calls;
          reached = r.reached ∙ ap (Window.run ceil_tenth r.calls) e;
          chronological = (l.0, r.chronological);
          few = omega (arith, r.few);
          ends = r.ends;
        }
      ]

  -- A message whose payload was handed on is not handed on again, at any later time and from whatever
  -- peer: whatever messages come between, in order of time, if these and the ids known after the
  -- first time are together at most the limit of the id memory. The memory holds each id once; the
  -- message has an id, and a timestamp above 0.
  pub handle_message-once :
      (t : ℕ) (peer peer' : String) (m : P2PMessage) (h : Handler) (rest : List Arrival) (now : ℕ)
      (type type' : MessageType) (v v' : Value)
      → Dict.Distinct h.replay.seen_messages
      → is_nonzero (stamp lib reading ceil_tenth resolver t m).timestamp ≡ true
      → is_nonempty (reading.id_key m.message_id) ≡ true
      → (handle_message lib reading ceil_tenth resolver t peer m h).1 ≡ received type v ∷ []
      → let h' = (handle_message lib reading ceil_tenth resolver t peer m h).0 in
        AreLater t rest
        → Dict.size h'.replay.seen_messages + length rest ≤ h'.replay.max_seen_messages
        → last_time t rest ≤ now
        → (handle_message lib reading ceil_tenth resolver now peer' m (handle_all rest h')).1
          ≢ received type' v' ∷ []
  handle_message-once t peer peer' m h rest now type type' v v' d stamped named first later room
        last again =
      let h' = (handle_message lib reading ceil_tenth resolver t peer m h).0 in
      let (delivered, recorded) =
        handle_message-IsDelivered lib reading ceil_tenth resolver t peer m h type v first in
      let r = handle_all-Calls t rest h' later in
      let (delivered', _) =
        handle_message-IsDelivered lib reading ceil_tenth resolver now peer' m (handle_all rest h')
          type' v' again in
      let rp = (validate_replay lib reading ceil_tenth resolver t m h.replay).0 in
      let fits =
        subst
          (λ (q : ReplayProtection). Dict.size q.seen_messages + length rest ≤ q.max_seen_messages)
          recorded room in
      let reached = r.reached ∙ ap (Window.run ceil_tenth r.calls) recorded in
      let fresh =
        subst
          (λ (q : ReplayProtection).
            (validate_replay lib reading ceil_tenth resolver now m q).1 ≡ valid)
          reached delivered'.fresh in
      no_replay ceil_tenth t (stamp lib reading ceil_tenth resolver t m)
        (reading.session_id m.payload) (reading.session_id m.payload)
        (reading.signer_index m.payload) (reading.sequence_number m.payload)
        (reading.signer_index m.payload) (reading.sequence_number m.payload) h.replay r.calls now d
        stamped named (unfold validate_replay in delivered.fresh) r.chronological
        (unfold validate_replay in omega (arith, fits, r.few)) (omega (arith, r.ends))
        (unfold validate_replay in fresh)
