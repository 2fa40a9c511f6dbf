-- ===== src/Validation/Errors.antt =====
-- The errors of lib/musig2/validation.ts.
use xpi_p2p_ts.Text.{Text, is_same, is_same-eq, is_same_refl}
use xpi_p2p_ts.Outcome.{err}
use xpi_p2p_ts.Value.{Value}
use xpi_p2p_ts.Validation.{ValidationError, Checked}
use xpi_p2p_ts.Validation.Payloads.{
  validate_message_payload, validate_session_announcement_payload, validate_session_join_payload,
  validate_session_join_ack_payload, validate_nonce_share_payload,
  validate_partial_sig_share_payload, validate_session_abort_payload,
  validate_session_complete_payload,
}
use xpi_p2p_ts.Validation.Blame.{
  Field, session_id, timestamp, signer_index, reason, partial_sig, announcement_required,
  announcement_optional, join_required, join_ack_required, nonce_share_required, final_signature,
  HasFields, Blames,
}
use xpi_p2p_ts.Validation.Blaming.{FieldsBlame, blames}
use xpi_p2p_ts.Base.{
  ℕ, ◌≡◌, ◌≢◌, sym, subst, Bool-cases, inl, inr, false, List, [], ◌∷◌, arith, if◌then◌else◌,
}

announcement_blames :
    (now : ℕ) (v : Value)
    → FieldsBlame
        (announcement_required now)
        announcement_optional
        v
        (validate_session_announcement_payload now v)
unfolding validate_session_announcement_payload
announcement_blames now v = search blames depth 14

join_blames :
    (now : ℕ) (v : Value)
    → FieldsBlame (join_required now) [] v (validate_session_join_payload now v)
unfolding validate_session_join_payload
join_blames now v = search blames depth 14

join_ack_blames :
    (now : ℕ) (v : Value)
    → FieldsBlame
        (join_ack_required now)
        (reason ∷ signer_index ∷ [])
        v
        (validate_session_join_ack_payload now v)
unfolding validate_session_join_ack_payload
join_ack_blames now v = search blames depth 14

nonce_share_blames :
    (now : ℕ) (v : Value)
    → FieldsBlame (nonce_share_required now) [] v (validate_nonce_share_payload now v)
unfolding validate_nonce_share_payload
nonce_share_blames now v = search blames depth 14

partial_sig_blames :
    (now : ℕ) (v : Value)
    → FieldsBlame
        (session_id ∷ signer_index ∷ timestamp now ∷ partial_sig ∷ [])
        []
        v
        (validate_partial_sig_share_payload now v)
unfolding validate_partial_sig_share_payload
partial_sig_blames now v = search blames depth 14

abort_blames :
    (now : ℕ) (v : Value)
    → FieldsBlame
        (session_id ∷ reason ∷ timestamp now ∷ [])
        []
        v
        (validate_session_abort_payload now v)
unfolding validate_session_abort_payload
abort_blames now v = search blames depth 14

complete_blames :
    (now : ℕ) (v : Value)
    → FieldsBlame
        (session_id ∷ timestamp now ∷ [])
        (final_signature ∷ [])
        v
        (validate_session_complete_payload now v)
unfolding validate_session_complete_payload
complete_blames now v = search blames depth 14

other : (s t : Text) → is_same s t ≡ false → s ≢ t
other s t h same = let e = rw same at h in ground (arith, is_same_refl t, e)

-- The test of one type of message: its payloads have these fields, or another type is next.
dispatch :
    (now : ℕ) (type name : Text) (v : Value) (e : ValidationError) (required optional : List Field)
    (m k : Checked)
    → HasFields now name required optional
    → FieldsBlame required optional v m
    → (type ≢ name → k ≡ err e → Blames now type v e)
    → (if is_same type name then m else k) ≡ err e
    → Blames now type v e
dispatch now type name v e required optional m k has blame next h =
    elim (Bool-cases (is_same type name)) [
      | inl same ↦
          subst (λ t. Blames now t v e) (sym (is_same-eq type name same))
            (Blames.payload required optional has (blame e (rw same at h)))
      | inr differs ↦ next (other type name differs) (rw differs at h)
    ]

-- The error of a payload tells what is wrong with it by the type of its message: that the payload is
-- no object, that a field which such a payload must have is not there, or the reason where it does not
-- accept, that a field which it must or may have is there with a value that the check of this field
-- refuses, or that its partial signature has not 32 bytes; otherwise the type is none of the seven.
-- No other code is thrown.
pub validate_message_payload-Blames :
    (now : ℕ) (type : Text) (v : Value) (e : ValidationError)
    → validate_message_payload now type v ≡ err e
    → Blames now type v e
unfolding validate_message_payload
validate_message_payload-Blames now type v e =
    dispatch now type _ v e _ _ _ _ HasFields.session_announcement (announcement_blames now v)
      λ announcement.
        dispatch now type _ v e _ _ _ _ HasFields.session_join (join_blames now v) λ join.
          dispatch now type _ v e _ _ _ _ HasFields.session_join_ack (join_ack_blames now v)
            λ join_ack.
              dispatch now type _ v e _ _ _ _ HasFields.nonce_share (nonce_share_blames now v)
                λ nonce_share.
                  dispatch now type _ v e _ _ _ _ HasFields.partial_sig_share
                    (partial_sig_blames now v)
                    λ partial_sig.
                      dispatch now type _ v e _ _ _ _ HasFields.session_abort (abort_blames now v)
                        λ abort.
                          dispatch now type _ v e _ _ _ _ HasFields.session_complete
                            (complete_blames now v)
                            λ complete. λ h. Blames.unknown (ground arith) (
                              announcement,
                              (
                                join,
                                (join_ack, (nonce_share, (partial_sig, (abort, (complete, tt))))),
                              ),
                            )
