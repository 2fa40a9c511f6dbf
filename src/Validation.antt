-- ===== src/Validation.antt =====
-- lib/musig2/validation.ts and the errors that it throws (lib/musig2/errors.ts): the payloads of MuSig2
-- messages. `Date.now()` is an argument, and so is the length of a value's JSON in bytes.
pub mod Payloads
pub mod Blame
pub mod Blaming
pub mod Errors
pub mod Checks
pub mod JoinAck
pub mod Nonces
mod Tests
use xpi_p2p_ts.Text.{Text, literal, is_same}
use xpi_p2p_ts.Text.Hex.{is_hex, from_hex}
use xpi_p2p_ts.Text.Decimal.{decimal}
use xpi_p2p_ts.Outcome.{Result, ok, err, ◌>>=◌, ◌>>◌, require, rethrow}
use xpi_p2p_ts.Value.{
  Number, whole, below_zero, not_finite, Value, Items, Fields, undefined, null, boolean, number,
  text, array, object, items, property, or_undefined, names,
}
use xpi_p2p_ts.Serialization.{nonce_key, is_nonce_key, by_number}
use xpi_p2p_ts.Sorting.{sort_by}
use xpi_p2p_ts.Base.{
  ℕ, suc, ◌+◌, ◌-◌, ◌*◌, ltb, leb, ◌==◌, not, if◌then◌else◌, Bool, true, false, Option, none, some,
  List, [], ◌∷◌, ◌++◌, length, keep, is_some,
}

pub data ErrorCode : Type 0 where
  invalid_payload missing_field invalid_type invalid_format size_limit_exceeded timestamp_skew
        invalid_length invalid_message_type :
      ErrorCode

-- The code is the error's `reason`; the texts of messages are left out.
pub record ValidationError : Type 0 where
  pub code : ErrorCode
  pub field_name : Text

abbrev pub validation_error : ErrorCode → Text → ValidationError
validation_error code name = record { code = code; field_name = name }

-- A validator returns nothing or throws.
abbrev pub Checked : Type 0
Checked = Result ValidationError (Unit {0})

abbrev pub Check : Type 0
Check = Text → Value → Checked

abbrev pub all_well : Checked
all_well = ok tt

unfoldable pub validate_string : Check
validate_string name (text t) = require (ltb 0 (length t)) (validation_error invalid_payload name)
validate_string name _ = err (validation_error invalid_type name)

unfoldable pub validate_number : Check
validate_number name (number (whole n)) = all_well
validate_number name (number (below_zero n)) = all_well
validate_number name _ = err (validation_error invalid_type name)

abbrev pub as_array : Value → Option Items
as_array (array vs) = some vs
as_array _ = none

unfoldable pub validate_array : ℕ → Check
validate_array least name (array vs) =
    require (leb least (length (items vs))) (validation_error invalid_length name)
validate_array least name _ = err (validation_error invalid_type name)

-- `Math.abs(now - t)`
unfoldable pub skew : ℕ → Number → ℕ
skew now (whole t) = if leb t now then now - t else t - now
skew now (below_zero n) = now + suc n
skew now not_finite = 0

abbrev pub as_number : Value → Number
as_number (number n) = n
as_number _ = not_finite

abbrev pub five_minutes : ℕ
five_minutes = 300000

unfoldable pub validate_timestamp : ℕ → Check
unfolding validate_number skew
validate_timestamp now name v = do
  validate_number name v
  require (leb (skew now (as_number v)) five_minutes) (validation_error timestamp_skew name)

abbrev pub text_of : Value → Text
text_of (text t) = t
text_of _ = []

-- `none` where no length is expected.
unfoldable pub has_length : Option ℕ → Text → Bool
has_length none t = true
has_length (some n) t = length (from_hex t) == n

unfoldable pub validate_hex_string : Option ℕ → Check
unfolding validate_string has_length
validate_hex_string expected name v = do
  validate_string name v
  require (is_hex (text_of v)) (validation_error invalid_format name)
  require (has_length expected (text_of v)) (validation_error invalid_length name)

-- `${name}[${i}]`
abbrev pub at_index : Text → ℕ → Text
at_index name i = name ++ (literal "[" ++ (decimal i ++ literal "]"))

unfoldable pub validate_each_signer : Text → ℕ → List Value → Checked
unfolding validate_hex_string
validate_each_signer name i [] = all_well
validate_each_signer name i (v ∷ vs) = do
  validate_hex_string none (at_index name i) v
  validate_each_signer name (suc i) vs

abbrev pub elements : Value → List Value
elements (array vs) = items vs
elements _ = []

unfoldable pub validate_signers_array : Check
unfolding validate_array validate_each_signer
validate_signers_array name v = do validate_array 1 name v; validate_each_signer name 0 (elements v)

unfoldable pub validate_object : Check
validate_object name (object fs) = all_well
validate_object name _ = err (validation_error invalid_type name)

abbrev pub fields_of : Value → Fields
fields_of (object fs) = fs
fields_of _ = Fields.end

unfoldable pub validate_each_nonce : Text → Fields → List Text → Checked
unfolding validate_hex_string
validate_each_nonce name fs [] = all_well
validate_each_nonce name fs (k ∷ ks) = do
  validate_hex_string (some 33) (name ++ (literal "." ++ k)) (or_undefined (property k fs))
  validate_each_nonce name fs ks

-- The keys have to be `r1`, `r2` and so on, from an index on.
unfoldable pub are_sequential : ℕ → List Text → Bool
are_sequential i [] = true
are_sequential i (k ∷ ks) =
    let rest = are_sequential (suc i) ks in if is_same k (nonce_key (i + 1)) then rest else false

abbrev pub nonce_names : Fields → List Text
nonce_names fs = keep is_nonce_key (names fs)

unfoldable pub validate_public_nonces : Check
unfolding validate_object validate_each_nonce are_sequential
validate_public_nonces name v = do
  validate_object name v
  let keys = nonce_names (fields_of v)
  require (leb 2 (length keys)) (validation_error invalid_payload name)
  validate_each_nonce name (fields_of v) keys
  require (are_sequential 0 (sort_by by_number keys)) (validation_error invalid_payload name)

unfoldable pub validate_32_byte_hex : Check
unfolding validate_hex_string
validate_32_byte_hex name v = validate_hex_string (some 32) name v

unfoldable pub validate_boolean : Check
validate_boolean name (boolean b) = all_well
validate_boolean name _ = err (validation_error invalid_type name)

-- An error of the validator becomes one of the field.
unfoldable pub validate_present : Text → Check → Option Value → Checked
validate_present name check none = err (validation_error missing_field name)
validate_present name check (some v) =
    rethrow (validation_error invalid_payload name) (check name v)

unfoldable pub validate_field : Text → Check → Fields → Checked
unfolding validate_present
validate_field name check fs = validate_present name check (property name fs)

-- `if (name in obj) validateField(obj, name, validator)`
unfoldable pub validate_optional : Text → Check → Fields → Checked
validate_optional name check fs =
    if is_some (property name fs) then validate_field name check fs else all_well

unfoldable pub validate_final_signature : Check
unfolding validate_object validate_field validate_32_byte_hex
validate_final_signature name v = do
  validate_object name v
  validate_field (literal "r") validate_32_byte_hex (fields_of v)
  validate_field (literal "s") validate_32_byte_hex (fields_of v)
