-- ===== src/Validation/JoinAck.antt =====
-- Which acknowledgments lib/musig2/validation.ts accepts.
use xpi_p2p_ts.Text.{literal}
use xpi_p2p_ts.Outcome.{◌>>◌}
use xpi_p2p_ts.Value.{Value, Fields, property}
use xpi_p2p_ts.Validation.{
  Checked, all_well, fields_of, validate_string, validate_number, validate_timestamp,
  validate_boolean, validate_field, validate_optional,
}
use xpi_p2p_ts.Validation.Payloads.{is_accepted, validate_reason, validate_session_join_ack_payload}
use xpi_p2p_ts.Validation.Checks.{
  Has, IsText, IsFinite, IsBoolean, IsObject, IsRecent, seq_iff, validate_field_iff,
  validate_object_iff, validate_string_iff, validate_number_iff, validate_boolean_iff,
  validate_timestamp_iff, validate_optional_iff, if_needed_iff,
}
use xpi_p2p_ts.Base.{ℕ, ◌≡◌, ◌⊎◌, ◌↔◌, true, false, is_some}

-- What is accepted of an acknowledgment: a finite index, if it has one, and a reason, if it rejects.
pub record IsJoinAck (now : ℕ) (fs : Fields) : Type 0 where
  pub session : Has fs (literal "sessionId") IsText
  pub accepted : Has fs (literal "accepted") IsBoolean
  pub time : Has fs (literal "timestamp") (IsRecent now)
  pub reason : (is_accepted fs ≡ true) ⊎ Has fs (literal "reason") IsText
  pub index :
      (is_some (property (literal "signerIndex") fs) ≡ false)
      ⊎ Has fs (literal "signerIndex") IsFinite

validate_reason_iff :
    (fs : Fields)
    → (validate_reason fs ≡ all_well) ↔ ((is_accepted fs ≡ true) ⊎ Has fs (literal "reason") IsText)
unfolding validate_reason
validate_reason_iff fs =
    if_needed_iff (is_accepted fs) _
      (validate_field_iff (literal "reason") validate_string fs IsText (validate_string_iff _))

session_iff :
    {P : Type 0} (fs : Fields) (rest : Checked)
    → ((rest ≡ all_well) ↔ P)
    → ((validate_field (literal "sessionId") validate_string fs >> rest) ≡ all_well)
      ↔ (Has fs (literal "sessionId") IsText × P)
session_iff fs rest =
    seq_iff _ rest
      (validate_field_iff (literal "sessionId") validate_string fs IsText (validate_string_iff _))

time_iff :
    {P : Type 0} (now : ℕ) (fs : Fields) (rest : Checked)
    → ((rest ≡ all_well) ↔ P)
    → ((validate_field (literal "timestamp") (validate_timestamp now) fs >> rest) ≡ all_well)
      ↔ (Has fs (literal "timestamp") (IsRecent now) × P)
time_iff now fs rest = seq_iff _ rest (
    validate_field_iff (literal "timestamp") (validate_timestamp now) fs (IsRecent now)
      (validate_timestamp_iff now _))

accepted_iff :
    {P : Type 0} (fs : Fields) (rest : Checked)
    → ((rest ≡ all_well) ↔ P)
    → ((validate_field (literal "accepted") validate_boolean fs >> rest) ≡ all_well)
      ↔ (Has fs (literal "accepted") IsBoolean × P)
accepted_iff fs rest =
    seq_iff _ rest (
      validate_field_iff (literal "accepted") validate_boolean fs IsBoolean
        (validate_boolean_iff _))

index_iff :
    (fs : Fields)
    → (validate_optional (literal "signerIndex") validate_number fs ≡ all_well) ↔ (
        (is_some (property (literal "signerIndex") fs) ≡ false)
        ⊎ Has fs (literal "signerIndex") IsFinite)
index_iff fs =
    validate_optional_iff (literal "signerIndex") validate_number fs IsFinite
      (validate_number_iff _)

-- An acknowledgment is accepted exactly if it is an object with a session, a Boolean answer and a time
-- at most five minutes off, a reason unless the answer is yes, and an index that is a finite number,
-- if it has one.
pub validate_session_join_ack_payload_iff :
    (now : ℕ) (v : Value)
    → (validate_session_join_ack_payload now v ≡ all_well)
      ↔ (IsObject v × IsJoinAck now (fields_of v))
unfolding validate_session_join_ack_payload
validate_session_join_ack_payload_iff now v =
    let fs = fields_of v in
    let end = seq_iff (validate_reason fs) _ (validate_reason_iff fs) (index_iff fs) in
    let fields = session_iff fs _ (accepted_iff fs _ (time_iff now fs _ end)) in
    let all = seq_iff _ _ (validate_object_iff (literal "sessionJoinAck") v) fields in
    (
      λ h.
          let (o, (s, (a, (t, (r, i))))) = all.0 h in
          (o, record { session = s; accepted = a; time = t; reason = r; index = i }),
      λ (o, j). all.1 (o, (j.session, (j.accepted, (j.time, (j.reason, j.index))))),
    )
