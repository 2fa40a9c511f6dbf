-- ===== src/Validation/Blaming.antt =====
-- What the errors of one check say of a payload (lib/musig2/validation.ts).
use xpi_p2p_ts.Text.{Text, literal}
use xpi_p2p_ts.Text.Hex.{from_hex}
use xpi_p2p_ts.Outcome.{ok, err, ◌>>◌, require, rethrow}
use xpi_p2p_ts.Value.{Value, object, property, or_undefined}
use xpi_p2p_ts.Validation.{
  ValidationError, validation_error, Check, Checked, all_well, invalid_payload, missing_field,
  invalid_length, fields_of, text_of, validate_object, validate_field, validate_present,
  validate_optional, validate_string,
}
use xpi_p2p_ts.Validation.Payloads.{validate_reason, is_accepted}
use xpi_p2p_ts.Validation.Blame.{
  Field, Has, session_id, timestamp, signer_index, reason, partial_sig, announcement_required,
  announcement_optional, join_required, join_ack_required, nonce_share_required, final_signature,
  HasFields, BlamesField, message_types, Blames,
}
use xpi_p2p_ts.Base.{
  ◌≡◌, ◌⊎◌, inl, inr, refl, subst, some, List, ◌==◌, arith, Bool-cases, Option-cases, length,
}

abbrev pub FieldsBlame : List Field → List Field → Value → Checked → Type 0
FieldsBlame required optional v m =
    (e : ValidationError) → m ≡ err e → BlamesField required optional v e

err_injective : {a b : ValidationError} → Path Checked (err a) (err b) → a ≡ b
err_injective h = cc

rethrow_refused :
    (b e : ValidationError) (m : Checked)
    → rethrow b m ≡ err e
    → (b ≡ e) × (why : ValidationError) × (m ≡ err why)
rethrow_refused b e (ok tt) h = absurd (cc)
rethrow_refused b e (err why) h = (ground arith, why, refl)

object_blames :
    (required optional : List Field) (v : Value) (name : Text)
    → FieldsBlame required optional v (validate_object name v)
unfolding validate_object
object_blames required optional (object fs) name e h = absurd (cc)
object_blames required optional v name e h =
    BlamesField.no_object (ground arith) (λ o. ground (arith, o.1))

module _ (required optional : List Field) (v : Value) where
  well : FieldsBlame required optional v all_well
  well e h = absurd (cc)

  both :
      (m k : Checked)
      → FieldsBlame required optional v m
      → FieldsBlame required optional v k
      → FieldsBlame required optional v (m >> k)
  both (ok tt) k p q e h = q e h
  both (err x) k p q e h = p e h

  refused_blames :
      (name : Text) (check : Check) (x : Value)
      → Has (name, check) required ⊎ Has (name, check) optional
      → property name (fields_of v) ≡ some x
      → FieldsBlame required optional v (validate_present name check (some x))
  unfolding validate_present
  refused_blames name check x has p e h =
      let (same, why, refuses) = rethrow_refused (validation_error invalid_payload name) e _ h in
      subst (BlamesField required optional v) same
        (BlamesField.refused check x why refl has p refuses)

  pub field_blames :
      (name : Text) (check : Check)
      → Has (name, check) required
      → FieldsBlame required optional v (validate_field name check (fields_of v))
  unfolding validate_field validate_present
  field_blames name check has e h = elim (Option-cases (property name (fields_of v))) [
    | inl missing ↦
        let same : validation_error missing_field name ≡ e = err_injective (rw missing at h) in
        subst (BlamesField required optional v) same (BlamesField.absent check refl has missing)
    | inr (x, p) ↦ refused_blames name check x (inl has) p e (rw p at h)
  ]

  pub optional_blames :
      (name : Text) (check : Check)
      → Has (name, check) optional
      → FieldsBlame required optional v (validate_optional name check (fields_of v))
  unfolding validate_optional validate_field
  optional_blames name check has e h = elim (Option-cases (property name (fields_of v))) [
    | inl missing ↦ absurd (let h' = rw missing at h in cc)
    | inr (x, p) ↦ refused_blames name check x (inr has) p e (rw p at h)
  ]

  reason_blames :
      Has reason optional → FieldsBlame required optional v (validate_reason (fields_of v))
  unfolding validate_reason validate_field validate_present
  reason_blames has e h = elim (Bool-cases (is_accepted (fields_of v))) [
    | inl accepts ↦ absurd (let h' = rw accepts at h in cc)
    | inr refuses ↦ elim (Option-cases (property (literal "reason") (fields_of v))) [
      | inl missing ↦
          let same : validation_error missing_field (literal "reason") ≡ e =
            err_injective (rw (refuses, missing) at h) in
          subst (BlamesField required optional v) same
            (BlamesField.unexplained refl refl has refuses missing)
      | inr (x, p) ↦
          refused_blames (literal "reason") validate_string x (inr has) p e (rw (refuses, p) at h)
    ]
  ]

  pub size_blames :
      Has partial_sig required
      → FieldsBlame required optional v (
          require
            (length
                (from_hex (text_of (or_undefined (property (literal "partialSig") (fields_of v)))))
              == 32)
            (validation_error invalid_length (literal "partialSig")))
  size_blames has e h =
      elim (Bool-cases (
        length (from_hex (text_of (or_undefined (property (literal "partialSig") (fields_of v)))))
        == 32)) [
          | inl right ↦ absurd (let h' = rw right at h in cc)
          | inr wrong ↦
              let same : validation_error invalid_length (literal "partialSig") ≡ e =
                err_injective (rw wrong at h) in
              subst (BlamesField required optional v) same
                (BlamesField.wrong_size refl refl has (λ right. ground (arith, wrong)))
        ]

  pub field_then :
      (name : Text) (check : Check) (k : Checked)
      → Has (name, check) required
      → FieldsBlame required optional v k
      → FieldsBlame required optional v (validate_field name check (fields_of v) >> k)
  field_then name check k has q = both _ k (field_blames name check has) q

  pub object_then :
      (name : Text) (k : Checked)
      → FieldsBlame required optional v k
      → FieldsBlame required optional v (validate_object name v >> k)
  object_then name k q = both _ k (object_blames required optional v name) q

  pub optional_then :
      (name : Text) (check : Check) (k : Checked)
      → Has (name, check) optional
      → FieldsBlame required optional v k
      → FieldsBlame required optional v (validate_optional name check (fields_of v) >> k)
  optional_then name check k has q = both _ k (optional_blames name check has) q

  pub reason_then :
      (k : Checked)
      → Has reason optional
      → FieldsBlame required optional v k
      → FieldsBlame required optional v (validate_reason (fields_of v) >> k)
  reason_then k has q = both _ k (reason_blames has) q

-- The checks of an object and of its fields, in a row.
pub ruleset blames = (
  object_then, field_then, optional_then, reason_then, field_blames, optional_blames, size_blames,
  Has.here, Has.there,
)
