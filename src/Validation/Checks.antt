-- ===== src/Validation/Checks.antt =====
-- What values and fields are that lib/musig2/validation.ts accepts.
use xpi_p2p_ts.Text.{Text}
use xpi_p2p_ts.Text.Hex.{is_hex}
use xpi_p2p_ts.Outcome.{ok, err, ◌>>◌, require, rethrow}
use xpi_p2p_ts.Value.{
  Number, whole, below_zero, not_finite, Value, Fields, boolean, number, text, object, property,
}
use xpi_p2p_ts.Validation.{
  ValidationError, Check, Checked, all_well, text_of, as_number, skew, five_minutes, has_length,
  validate_string, validate_number, validate_timestamp, validate_hex_string, validate_boolean,
  validate_object, validate_field, validate_present, validate_optional,
}
use xpi_p2p_ts.Base.{
  ℕ, ◌≤◌, ◌<◌, ◌≡◌, ◌≢◌, refl, ◌⊎◌, inl, inr, ◌↔◌, Bool, true, false, Option, some, length, arith,
  leb, leb→le, le→leb, Option-cases, is_some, if◌then◌else◌,
}

-- The field is there, with a value of which `P` holds.
pub record Has (fs : Fields) (name : Text) (P : Value → Type 0) : Type 0 where
  pub value : Value
  pub stored : property name fs ≡ some value
  pub holds : P value

abbrev pub IsText : Value → Type 0
IsText v = (t : Text) × (v ≡ text t) × (0 < length t)

abbrev pub IsFinite : Value → Type 0
IsFinite v = (n : Number) × (v ≡ number n) × (n ≢ not_finite)

abbrev pub IsBoolean : Value → Type 0
IsBoolean v = (b : Bool) × (v ≡ boolean b)

abbrev pub IsObject : Value → Type 0
IsObject v = (fs : Fields) × (v ≡ object fs)

abbrev pub IsRecent : ℕ → Value → Type 0
IsRecent now v = IsFinite v × (skew now (as_number v) ≤ five_minutes)

pub seq_iff :
    {P Q : Type 0} (m k : Checked)
    → ((m ≡ all_well) ↔ P)
    → ((k ≡ all_well) ↔ Q)
    → ((m >> k) ≡ all_well) ↔ (P × Q)
seq_iff (ok tt) k p q = (λ h. (p.0 refl, q.0 h), λ h. q.1 h.1)
seq_iff (err e) k p q = (λ h. absurd (ground arith), λ h. absurd (let e' = p.1 h.0 in ground arith))

rethrow_iff : (e : ValidationError) (m : Checked) → (rethrow e m ≡ all_well) ↔ (m ≡ all_well)
rethrow_iff e (ok tt) = (λ h. h, λ h. h)
rethrow_iff e (err x) = (λ h. absurd (ground arith), λ h. absurd (ground arith))

pub validate_field_iff :
    (name : Text) (check : Check) (fs : Fields) (P : Value → Type 0)
    → ((v : Value) → (check name v ≡ all_well) ↔ P v)
    → (validate_field name check fs ≡ all_well) ↔ Has fs name P
unfolding validate_field validate_present
validate_field_iff name check fs P each = elim (Option-cases (property name fs)) [
  | inl e ↦
      (λ h. absurd (let h' = rw e at h in ground arith), λ h. absurd (ground (arith, h.stored)))
  | inr (v, e) ↦ (
    λ h.
        let h' = rw e at h in
        record { value = v; stored = e; holds = (each v).0 ((rethrow_iff _ _).0 h') },
    λ h. rw (h.stored) ((rethrow_iff _ _).1 ((each h.value).1 h.holds)),
  )
]

pub validate_string_iff : (name : Text) (v : Value) → (validate_string name v ≡ all_well) ↔ IsText v
unfolding validate_string
validate_string_iff name (text t) = (λ h. (t, refl, ground arith), λ h. ground arith)
validate_string_iff name _ = (λ h. absurd (ground arith), λ h. absurd (ground (arith, h.1)))

pub validate_number_iff :
    (name : Text) (v : Value) → (validate_number name v ≡ all_well) ↔ IsFinite v
unfolding validate_number
validate_number_iff name (number (whole n)) = (λ h. (whole n, refl, λ e. cc), λ h. refl)
validate_number_iff name (number (below_zero n)) = (λ h. (below_zero n, refl, λ e. cc), λ h. refl)
validate_number_iff name _ = (λ h. absurd (ground arith), λ h. absurd (ground (arith, h.1, h.2)))

pub validate_boolean_iff :
    (name : Text) (v : Value)
    → (validate_boolean name v ≡ all_well) ↔ ((b : Bool) × (v ≡ boolean b))
unfolding validate_boolean
validate_boolean_iff name (boolean b) = (λ h. (b, refl), λ h. refl)
validate_boolean_iff name _ = (λ h. absurd (ground arith), λ h. absurd (ground (arith, h.1)))

pub validate_object_iff :
    (name : Text) (v : Value)
    → (validate_object name v ≡ all_well) ↔ ((fs : Fields) × (v ≡ object fs))
unfolding validate_object
validate_object_iff name (object fs) = (λ h. (fs, refl), λ h. refl)
validate_object_iff name _ = (λ h. absurd (ground arith), λ h. absurd (ground (arith, h.1)))

pub require_iff : (b : Bool) (e : ValidationError) → (require b e ≡ all_well) ↔ (b ≡ true)
require_iff true e = (λ h. refl, λ h. refl)
require_iff false e = (λ h. absurd (ground arith), λ h. absurd (ground arith))

pub validate_timestamp_iff :
    (now : ℕ) (name : Text) (v : Value)
    → (validate_timestamp now name v ≡ all_well) ↔ IsRecent now v
unfolding validate_timestamp
validate_timestamp_iff now name v =
    let recent = require_iff (leb (skew now (as_number v)) five_minutes) _ in
    let both = seq_iff (validate_number name v) _ (validate_number_iff name v) recent in
    (λ h. let (n, r) = both.0 h in (n, leb→le _ _ r), λ h. both.1 (h.0, le→leb _ _ h.1))

-- Hexadecimal, not empty, and of as many bytes as are expected.
abbrev pub IsHexOf : Option ℕ → Value → Type 0
IsHexOf expected v =
    IsText v × ((is_hex (text_of v) ≡ true) × (has_length expected (text_of v) ≡ true))

pub validate_hex_string_iff :
    (expected : Option ℕ) (name : Text) (v : Value)
    → (validate_hex_string expected name v ≡ all_well) ↔ IsHexOf expected v
unfolding validate_hex_string
validate_hex_string_iff expected name v =
    let sized = require_iff (has_length expected (text_of v)) _ in
    let rest = seq_iff _ _ (require_iff (is_hex (text_of v)) _) sized in
    seq_iff (validate_string name v) _ (validate_string_iff name v) rest

if_present_iff :
    {P : Type 0} (b : Bool) (m : Checked)
    → ((m ≡ all_well) ↔ P)
    → ((if b then m else all_well) ≡ all_well) ↔ ((b ≡ false) ⊎ P)
if_present_iff true m p =
    (λ h. inr (p.0 h), λ h. elim h [ inl e ↦ absurd (ground arith) | inr q ↦ p.1 q ])
if_present_iff false m p = (λ h. inl refl, λ h. refl)

pub if_needed_iff :
    {P : Type 0} (b : Bool) (m : Checked)
    → ((m ≡ all_well) ↔ P)
    → ((if b then all_well else m) ≡ all_well) ↔ ((b ≡ true) ⊎ P)
if_needed_iff true m p = (λ h. inl refl, λ h. refl)
if_needed_iff false m p =
    (λ h. inr (p.0 h), λ h. elim h [ inl e ↦ absurd (ground arith) | inr q ↦ p.1 q ])

pub validate_optional_iff :
    (name : Text) (check : Check) (fs : Fields) (P : Value → Type 0)
    → ((v : Value) → (check name v ≡ all_well) ↔ P v)
    → (validate_optional name check fs ≡ all_well)
      ↔ ((is_some (property name fs) ≡ false) ⊎ Has fs name P)
unfolding validate_optional
validate_optional_iff name check fs P each =
    if_present_iff (is_some (property name fs)) _ (validate_field_iff name check fs P each)
