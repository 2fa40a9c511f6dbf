-- ===== src/Serialization.antt =====
-- lib/musig2/serialization.ts: points, numbers, keys and signatures of MuSig2 messages as texts.
-- The arithmetic of xpi-ts is the record Bitcore. An argument that is no value of the class that the
-- code asks for is `none`. Of an error its class, its field and the kind of its message are kept.
pub mod RoundTrip
pub mod Accepted
pub mod Nonces
pub mod Toy
mod Tests
use xpi_p2p_ts.Dict
use xpi_p2p_ts.Dict.{Dict}
use xpi_p2p_ts.Text.{Text, literal, text_key}
use xpi_p2p_ts.Text.Hex.{is_hex, to_hex, from_hex}
use xpi_p2p_ts.Text.Decimal.{decimal, parse_int, are_digits}
use xpi_p2p_ts.Outcome.{Result, ok, err, ◌>>=◌, ◌>>◌, require, returned, rethrow}
use xpi_p2p_ts.Value.{
  Value, Items, nil, cons, Fields, end, field, object, array, text, undefined, null, own_keys, read,
  is_objectlike, as_text, items,
}
use xpi_p2p_ts.Sorting.{sort_by}
use xpi_p2p_ts.Base.{
  ℕ, suc, ◌+◌, ltb, leb, ◌==◌, not, ◌&&◌, ◌||◌, if◌then◌else◌, String, Bool, true, false, Option,
  none, some, List, [], ◌∷◌, ◌++◌, length, take, drop, keep,
}

-- What xpi-ts does, where `none` is a thrown error.
pub record Bitcore (Point BN PublicKey : Type 0) : Type 0 where
  pub point_to_compressed : Point → Option (List ℕ)
  pub point_from_x : Bool → BN → Option Point
  pub bn_to_buffer : BN → Option (List ℕ)
  pub bn_from_buffer : List ℕ → BN
  pub key_to_buffer : PublicKey → Option (List ℕ)
  pub key_from_buffer : List ℕ → Option PublicKey

pub data Problem : Type 0 where
  thrown : Problem
  not_a_text : Problem
  not_hex : Problem
  wrong_length : ℕ → Problem
  wrong_prefix : ℕ → Problem
  not_an_object : Problem
  not_an_array : Problem
  not_an_instance : Problem
  instance_expected_at : ℕ → Problem
  too_few_nonces : Problem
  missing_nonce : Text → Problem
  failed_nonce : Text → Problem
  failed_key : ℕ → Problem

pub data Error : Type 0 where
  serialization : String → Problem → Error
  deserialization : String → Problem → Error

abbrev pub Serialized : Type 0 → Type 0
Serialized = Result Error

-- `/^[0-9a-fA-F]+$/`
unfoldable pub is_hex_number : Text → Bool
is_hex_number [] = false
is_hex_number (c ∷ cs) = is_hex (c ∷ cs)

-- The two checks with which every reader of a number in hexadecimal begins.
unfoldable pub hex_input : String → Value → Serialized Text
unfolding is_hex_number
hex_input name v = do
  t ← returned (deserialization name not_a_text) (as_text v)
  require (is_hex_number t) (deserialization name not_hex)
  ok t

-- `r${i}`
unfoldable pub nonce_key : ℕ → Text
nonce_key i = b'r' ∷ decimal i

-- `/^r\d+$/`
unfoldable pub is_nonce_key : Text → Bool
is_nonce_key [] = false
is_nonce_key (c ∷ cs) = c == b'r' && are_digits cs

-- `parseInt(key.substring(1))`
unfoldable pub key_number : Text → ℕ
key_number [] = 0
key_number (c ∷ cs) = parse_int cs

abbrev pub by_number : Text → Text → Bool
by_number a b = leb (key_number a) (key_number b)

-- An object with the entries of a map, as the network hands it over.
abbrev pub object_of : Dict Text Text → Fields
object_of [] = end
object_of ((k, t) ∷ m) = field k (text t) (object_of m)

-- An array of texts.
abbrev pub array_of : List Text → Items
array_of [] = nil
array_of (t ∷ ts) = cons (text t) (array_of ts)

module _ {Point BN PublicKey : Type 0} (lib : Bitcore Point BN PublicKey) where
  unfoldable pub serialize_point : Point → Serialized Text
  serialize_point p = do
    bytes ← returned (serialization "Point" thrown) (lib.point_to_compressed p)
    ok (to_hex bytes)

  -- The rest of `deserializePoint`, on the buffer's bytes.
  unfoldable pub point_of_bytes : List ℕ → Serialized Point
  point_of_bytes [] = err (deserialization "point" thrown)
  point_of_bytes (prefix ∷ x) = do
    require (prefix == 2 || prefix == 3) (deserialization "point" (wrong_prefix prefix))
    returned (deserialization "point" thrown)
        (lib.point_from_x (prefix == 3) (lib.bn_from_buffer x))

  unfoldable pub deserialize_point : Value → Serialized Point
  unfolding hex_input point_of_bytes
  deserialize_point v = do
    t ← hex_input "point" v
    let buffer = from_hex t
    require (length buffer == 33) (deserialization "point" (wrong_length (length buffer)))
    point_of_bytes buffer

  -- `nonces.forEach((nonce, index) => …)`, from an index on.
  unfoldable pub serialize_nonces_from :
      ℕ → List (Option Point) → Dict Text Text → Serialized (Dict Text Text)
  unfolding serialize_point nonce_key
  serialize_nonces_from i [] m = ok m
  serialize_nonces_from i (none ∷ ps) m = err (serialization "Point" (instance_expected_at i))
  serialize_nonces_from i (some p ∷ ps) m = do
    t ← serialize_point p
    serialize_nonces_from (suc i) ps (Dict.set (nonce_key (i + 1)) t m)

  unfoldable pub serialize_public_nonces :
      Option (List (Option Point)) → Serialized (Dict Text Text)
  unfolding serialize_nonces_from
  serialize_public_nonces none = err (serialization "Point[]" not_an_array)
  serialize_public_nonces (some nonces) = do
    require (leb 2 (length nonces)) (serialization "Point[]" too_few_nonces)
    serialize_nonces_from 0 nonces []

  -- The error is built with its code in the place of the field's name.
  unfoldable pub deserialize_nonce : Value → Text → Serialized Point
  unfolding deserialize_point
  deserialize_nonce v key = do
    t ← returned (deserialization "DES001" (missing_nonce key)) (as_text (read key v))
    require (ltb 0 (length t)) (deserialization "DES001" (missing_nonce key))
    rethrow (deserialization "DES001" (failed_nonce key)) (deserialize_point (text t))

  unfoldable pub deserialize_nonces : Value → List Text → Serialized (List Point)
  unfolding deserialize_nonce
  deserialize_nonces v [] = ok []
  deserialize_nonces v (key ∷ keys) = do
    p ← deserialize_nonce v key
    ps ← deserialize_nonces v keys
    ok (p ∷ ps)

  abbrev pub nonce_keys : Value → List Text
  nonce_keys v = sort_by by_number (keep is_nonce_key (own_keys v))

  unfoldable pub deserialize_public_nonces : Value → Serialized (List Point)
  unfolding deserialize_nonces
  deserialize_public_nonces v = do
    require (is_objectlike v) (deserialization "publicNonces" not_an_object)
    let keys = nonce_keys v
    require (leb 2 (length keys)) (deserialization "publicNonces" too_few_nonces)
    deserialize_nonces v keys

  unfoldable pub serialize_bn : Option BN → Serialized Text
  serialize_bn none = err (serialization "BN" not_an_instance)
  serialize_bn (some n) = do
    bytes ← returned (serialization "BN" thrown) (lib.bn_to_buffer n)
    ok (to_hex bytes)

  unfoldable pub deserialize_bn : Value → Serialized BN
  unfolding hex_input
  deserialize_bn v = do t ← hex_input "bn" v; ok (lib.bn_from_buffer (from_hex t))

  unfoldable pub serialize_public_key : Option PublicKey → Serialized Text
  serialize_public_key none = err (serialization "PublicKey" not_an_instance)
  serialize_public_key (some k) = do
    bytes ← returned (serialization "PublicKey" thrown) (lib.key_to_buffer k)
    ok (to_hex bytes)

  unfoldable pub deserialize_public_key : Value → Serialized PublicKey
  unfolding hex_input
  deserialize_public_key v = do
    t ← hex_input "publicKey" v
    let size = length (from_hex t)
    require (size == 33 || size == 65) (deserialization "publicKey" (wrong_length size))
    returned (deserialization "publicKey" thrown) (lib.key_from_buffer (from_hex t))

  unfoldable pub serialize_keys_from : ℕ → List (Option PublicKey) → Serialized (List Text)
  unfolding serialize_public_key
  serialize_keys_from i [] = ok []
  serialize_keys_from i (none ∷ ks) = err (serialization "PublicKey" (instance_expected_at i))
  serialize_keys_from i (some k ∷ ks) = do
    t ← serialize_public_key (some k)
    ts ← serialize_keys_from (suc i) ks
    ok (t ∷ ts)

  unfoldable pub serialize_public_keys : Option (List (Option PublicKey)) → Serialized (List Text)
  unfolding serialize_keys_from
  serialize_public_keys none = err (serialization "PublicKey[]" not_an_array)
  serialize_public_keys (some ks) = serialize_keys_from 0 ks

  -- What is wrong with an entry that is no key. For one that is neither a text nor missing, the error
  -- is that its handler asks for a part of the text.
  abbrev pub key_problem : ℕ → Value → Problem
  key_problem i (text t) = failed_key i
  key_problem i undefined = failed_key i
  key_problem i null = failed_key i
  key_problem i _ = thrown

  unfoldable pub deserialize_keys_from : ℕ → List Value → Serialized (List PublicKey)
  unfolding deserialize_public_key
  deserialize_keys_from i [] = ok []
  deserialize_keys_from i (v ∷ vs) = do
    k ← rethrow (deserialization "publicKeys" (key_problem i v)) (deserialize_public_key v)
    ks ← deserialize_keys_from (suc i) vs
    ok (k ∷ ks)

  unfoldable pub deserialize_public_keys : Value → Serialized (List PublicKey)
  unfolding deserialize_keys_from
  deserialize_public_keys (array vs) = deserialize_keys_from 0 (items vs)
  deserialize_public_keys _ = err (deserialization "publicKeys" not_an_array)

-- A message is a buffer, or `none`.
unfoldable pub serialize_message : Option (List ℕ) → Serialized Text
serialize_message none = err (serialization "Buffer" not_an_instance)
serialize_message (some bytes) = ok (to_hex bytes)

unfoldable pub deserialize_message : Value → Serialized (List ℕ)
deserialize_message v = do
  t ← returned (deserialization "message" not_a_text) (as_text v)
  require (is_hex t) (deserialization "message" not_hex)
  ok (from_hex t)

pub record SerializedSignature : Type 0 where
  pub r : Text
  pub s : Text

unfoldable pub serialize_signature : Option (List ℕ) → Serialized SerializedSignature
serialize_signature none = err (serialization "Signature" not_an_instance)
serialize_signature (some bytes) = do
  require (length bytes == 64) (serialization "Signature" (wrong_length (length bytes)))
  ok (record { r = to_hex (take 32 bytes); s = to_hex (take 32 (drop 32 bytes)) })

unfoldable pub deserialize_signature : Value → Serialized (List ℕ)
unfolding is_hex_number
deserialize_signature v = do
  require (is_objectlike v) (deserialization "signature" not_an_object)
  r ← returned (deserialization "signature" not_a_text) (as_text (read (literal "r") v))
  s ← returned (deserialization "signature" not_a_text) (as_text (read (literal "s") v))
  require (is_hex_number r && is_hex_number s) (deserialization "signature" not_hex)
  let r_buffer = from_hex r
  let s_buffer = from_hex s
  require (length r_buffer == 32 && length s_buffer == 32)
      (deserialization "signature" (wrong_length (length r_buffer)))
  ok (r_buffer ++ s_buffer)

-- `validateHexString`, with a length in bytes where one is expected.
unfoldable pub validate_hex_string : Value → Option ℕ → Bool
validate_hex_string (text t) none = is_hex t
validate_hex_string (text t) (some n) = is_hex t && length (from_hex t) == n
validate_hex_string _ _ = false
