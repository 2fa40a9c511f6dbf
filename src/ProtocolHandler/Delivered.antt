-- ===== src/ProtocolHandler/Delivered.antt =====
-- Which messages lib/musig2/protocol.ts hands on.
use xpi_p2p_ts.Outcome.{Result, ok, err}
use xpi_p2p_ts.Value.{Value}
use xpi_p2p_ts.Validation.{all_well, Checked}
use xpi_p2p_ts.Validation.Payloads.{validate_message_structure}
use xpi_p2p_ts.MessageSigning.{P2PMessage, Schnorr, verify_message, has_signature}
use xpi_p2p_ts.SigningSecurity
use xpi_p2p_ts.Replay.{Validation, valid, rejected}
use xpi_p2p_ts.ProtocolHandler.{
  MessageType, Reading, Event, received, Handler, Handled, Refusal, protocol_name, has_protocol,
  as_value, validate_and_route, expected_key, emit, verify_message_signature, check_payload,
  check_structure, validate_replay, after_replay, check_replay, signature_event, refused,
  check_signed, secure_message, after_security, check_secured, check_security, handle_message,
}
use xpi_p2p_ts.Base.{
  ℕ, ◌≡◌, ◌≢◌, refl, sym, ap, ◌∙◌, ◌⊎◌, inl, inr, String, Bool, true, false, Option, none, some, [],
  ◌∷◌, arith, Bool-cases,
}

module _ {PrivateKey PublicKey : Type 0} (lib : Schnorr PrivateKey PublicKey) (reading : Reading)
    (ceil_tenth : ℕ → ℕ) (resolver : Option (String → ℕ → Option PublicKey)) (now : ℕ) where
  -- What a payload has passed that is handed on.
  pub record IsDelivered (peer : String) (m : P2PMessage) (h : Handler) (type : MessageType)
      (payload : Value) : Type 0 where
    pub addressed : has_protocol protocol_name m.protocol ≡ true
    pub secure :
        (h.security ≡ none)
        ⊎ ((v : SigningSecurity.Validator) × (h.security ≡ some v)
            × ((SigningSecurity.validate_message now
                  (secure_message lib reading ceil_tenth resolver now m)
                  peer
                  v).1
                ≡ true))
    pub signed :
        (h.require_signatures ≡ false)
        ⊎ ((has_signature m ≡ true)
            × (verify_message lib h.signing m (expected_key lib reading ceil_tenth resolver now m)
                ≡ some true))
    pub fresh : (validate_replay lib reading ceil_tenth resolver now m h.replay).1 ≡ valid
    pub structured : validate_message_structure reading.json_size (as_value m) ≡ all_well
    pub routed_to : validate_and_route now m ≡ ok (type, payload)

  emit-received :
      (r : Result Refusal (MessageType × Value)) (type : MessageType) (v : Value)
      → emit lib reading ceil_tenth resolver now r ≡ received type v
      → r ≡ ok (type, v)
  emit-received (ok (t, w)) type v h = cc
  emit-received (err e) type v h = absurd (ground arith)

  check_payload-received :
      (m : P2PMessage) (c : Checked) (type : MessageType) (v : Value)
      → check_payload lib reading ceil_tenth resolver now m c ≡ received type v
      → (c ≡ all_well) × (validate_and_route now m ≡ ok (type, v))
  check_payload-received m (err e) type v h = absurd (ground arith)
  check_payload-received m (ok tt) type v h =
      (refl, emit-received (validate_and_route now m) type v h)

  after_replay-received :
      (m : P2PMessage) (answer : Validation) (type : MessageType) (v : Value)
      → after_replay lib reading ceil_tenth resolver now m answer ≡ received type v
      → (answer ≡ valid) × (check_structure lib reading ceil_tenth resolver now m ≡ received type v)
  after_replay-received m valid type v h = (refl, h)
  after_replay-received m (rejected r) type v h = absurd (ground arith)

  signature_event-none :
      (m : P2PMessage) (h : Handler)
      → signature_event lib reading ceil_tenth resolver now m h ≡ none
      → (h.require_signatures ≡ false)
        ⊎ ((has_signature m ≡ true)
            × (verify_message lib h.signing m (expected_key lib reading ceil_tenth resolver now m)
                ≡ some true))
  unfolding verify_message_signature
  signature_event-none m h e = ground arith

  check_replay-received :
      (m : P2PMessage) (h : Handler) (type : MessageType) (v : Value)
      → (check_replay lib reading ceil_tenth resolver now m h).1 ≡ received type v ∷ []
      → ((validate_replay lib reading ceil_tenth resolver now m h.replay).1 ≡ valid)
        × (validate_message_structure reading.json_size (as_value m) ≡ all_well)
        × (validate_and_route now m ≡ ok (type, v))
        × ((check_replay lib reading ceil_tenth resolver now m h).0.replay
            ≡ (validate_replay lib reading ceil_tenth resolver now m h.replay).0)
  unfolding check_replay check_structure
  check_replay-received m h type v e =
      let answer = (validate_replay lib reading ceil_tenth resolver now m h.replay).1 in
      let event : after_replay lib reading ceil_tenth resolver now m answer ≡ received type v =
        cc in
      let (fresh, structured) = after_replay-received m answer type v event in
      let (well, routed) = check_payload-received m _ type v structured in
      (fresh, well, routed, refl)

  signature_event-not_received :
      (m : P2PMessage) (h : Handler) (type : MessageType) (v : Value)
      → signature_event lib reading ceil_tenth resolver now m h ≢ some (received type v)
  unfolding verify_message_signature
  signature_event-not_received m h type v e = ground arith

  refused-received :
      (m : P2PMessage) (h : Handler) (type : MessageType) (v : Value) (o : Option Event)
      → o ≢ some (received type v)
      → (refused lib reading ceil_tenth resolver now o m h).1 ≡ received type v ∷ []
      → (o ≡ none)
        × (refused lib reading ceil_tenth resolver now o m h
            ≡ check_replay lib reading ceil_tenth resolver now m h)
  refused-received m h type v none other e = (refl, refl)
  refused-received m h type v (some x) other e = absurd (other (cc))

  -- What a message has passed whose signature, if any is asked for, was accepted.
  record IsSigned (m : P2PMessage) (h : Handler) (type : MessageType) (v : Value) (out : Handled)
      : Type 0 where
    pub signed :
        (h.require_signatures ≡ false)
        ⊎ ((has_signature m ≡ true)
            × (verify_message lib h.signing m (expected_key lib reading ceil_tenth resolver now m)
                ≡ some true))
    pub fresh : (validate_replay lib reading ceil_tenth resolver now m h.replay).1 ≡ valid
    pub structured : validate_message_structure reading.json_size (as_value m) ≡ all_well
    pub routed_to : validate_and_route now m ≡ ok (type, v)
    pub recorded : out.0.replay ≡ (validate_replay lib reading ceil_tenth resolver now m h.replay).0

  check_signed-received :
      (m : P2PMessage) (h : Handler) (type : MessageType) (v : Value)
      → (check_signed lib reading ceil_tenth resolver now m h).1 ≡ received type v ∷ []
      → IsSigned m h type v (check_signed lib reading ceil_tenth resolver now m h)
  unfolding check_signed
  check_signed-received m h type v e =
      let event = signature_event lib reading ceil_tenth resolver now m h in
      let (passed, same) =
        refused-received m h type v event (signature_event-not_received m h type v) e in
      let (fresh, well, routed, recorded) =
        check_replay-received m h type v (ap (λ (x : Handled). x.1) (sym same) ∙ e) in
      record {
        signed = signature_event-none m h passed;
        fresh = fresh;
        structured = well;
        routed_to = routed;
        recorded = ap (λ (x : Handled). x.0.replay) same ∙ recorded;
      }

  -- The answer of the security validator, where there is one.
  after_security-received :
      (m : P2PMessage) (h : Handler) (type : MessageType) (v : Value)
      (answer : SigningSecurity.Validator × Bool)
      → (after_security lib reading ceil_tenth resolver now m h answer).1 ≡ received type v ∷ []
      → (answer.1 ≡ true)
        × IsSigned m h type v (after_security lib reading ceil_tenth resolver now m h answer)
  after_security-received m h type v (s, false) e = absurd (ground arith)
  after_security-received m h type v (s, true) e =
      let i = check_signed-received m (record h { security = some s }) type v e in
      (
        refl,
        record {
          signed = i.signed;
          fresh = i.fresh;
          structured = i.structured;
          routed_to = i.routed_to;
          recorded = i.recorded;
        },
      )

  check_secured-received :
      (peer : String) (m : P2PMessage) (h : Handler) (type : MessageType) (v : Value)
      (o : Option SigningSecurity.Validator)
      → (check_secured lib reading ceil_tenth resolver now o peer m h).1 ≡ received type v ∷ []
      → ((o ≡ none)
          ⊎ ((s : SigningSecurity.Validator) × (o ≡ some s)
              × ((SigningSecurity.validate_message now
                    (secure_message lib reading ceil_tenth resolver now m)
                    peer
                    s).1
                  ≡ true)))
        × IsSigned m h type v (check_secured lib reading ceil_tenth resolver now o peer m h)
  check_secured-received peer m h type v none e = (inl refl, check_signed-received m h type v e)
  check_secured-received peer m h type v (some s) e =
      let (passed, i) = after_security-received m h type v _ e in (inr (s, refl, passed), i)

  -- A payload is handed on only if the message is one of this protocol, the security validator lets it
  -- pass, its signature is right, if signatures are required, it is no replay, it is well-formed, and
  -- the validator of its type accepts the payload. The replay protection has then recorded it.
  pub handle_message-IsDelivered :
      (peer : String) (m : P2PMessage) (h : Handler) (type : MessageType) (v : Value)
      → (handle_message lib reading ceil_tenth resolver now peer m h).1 ≡ received type v ∷ []
      → IsDelivered peer m h type v
        × ((handle_message lib reading ceil_tenth resolver now peer m h).0.replay
            ≡ (validate_replay lib reading ceil_tenth resolver now m h.replay).0)
  unfolding handle_message check_security
  handle_message-IsDelivered peer m h type v e =
      elim (Bool-cases (has_protocol protocol_name m.protocol)) [
        | inr other ↦ absurd (ground arith)
        | inl addressed ↦
            let (secure, i) =
              check_secured-received peer m h type v h.security (rw addressed at e) in
            (
              record {
                addressed = addressed;
                secure = secure;
                signed = i.signed;
                fresh = i.fresh;
                structured = i.structured;
                routed_to = i.routed_to;
              },
              rw addressed i.recorded,
            )
      ]
