-- ===== src/Replay/Sequence.antt =====
-- Sequence numbers of the signers of a session (lib/musig2/replay-protection.ts).
use xpi_p2p_ts.Dict
use xpi_p2p_ts.Dict.{Dict}
use xpi_p2p_ts.Dict.Laws.{get-set}
use xpi_p2p_ts.Replay.{
  ReplayProtection, valid, rejected, sequence_number_not_increasing, validate_sequence_number,
  get_last_sequence_number, get_next_sequence_number, with_session, sequences_of, is_not_increasing,
}
use xpi_p2p_ts.Base.{
  ℕ, ◌+◌, ◌<◌, ◌≡◌, refl, ◌↔◌, if◌then◌else◌, String, string_key, nat_key, String_discrete,
  ℕ_discrete, Option, none, some, [], arith, true, false, ite,
}

-- The number is above the last one, if there is a last one.
abbrev pub IsAbove : ℕ → Option ℕ → Type 0
IsAbove n none = Unit
IsAbove n (some last) = last < n

get_last-sequences_of :
    (session : String) (signer : ℕ) (rp : ReplayProtection)
    → get_last_sequence_number session signer rp ≡ Dict.get signer (sequences_of session rp)
unfolding get_last_sequence_number Dict.get
get_last-sequences_of session signer rp = ground arith

sequences_of-with_session :
    (s session : String) (rp : ReplayProtection)
    → sequences_of s (with_session session rp) ≡ sequences_of s rp
sequences_of-with_session s session rp = ground (arith, get-set s session [] rp.session_sequences)

IsAbove-of_test : (n : ℕ) (last : Option ℕ) → is_not_increasing n last ≡ false → IsAbove n last
IsAbove-of_test n none h = tt
IsAbove-of_test n (some last) h = ground arith

test_of_IsAbove : (n : ℕ) (last : Option ℕ) → IsAbove n last → is_not_increasing n last ≡ false
test_of_IsAbove n none h = refl
test_of_IsAbove n (some last) h = ground arith

-- What is stored after a check, for any signer of any session.
pub sequences_of-validate :
    (s session : String) (signer n : ℕ) (rp : ReplayProtection)
    → is_not_increasing n (get_last_sequence_number session signer rp) ≡ false
    → sequences_of s (validate_sequence_number session signer n rp).0
      ≡ ite
          (String_discrete session s)
          (Dict.set signer n (sequences_of session rp))
          (sequences_of s rp)
unfolding validate_sequence_number
sequences_of-validate s session signer n rp h = ground (
  arith,
  get_last-sequences_of session signer rp,
  get-set s session (Dict.set signer n (sequences_of session rp))
      (with_session session rp).session_sequences,
  sequences_of-with_session s session rp,
)

sequences_of-refused :
    (s session : String) (signer n : ℕ) (rp : ReplayProtection)
    → is_not_increasing n (get_last_sequence_number session signer rp) ≡ true
    → sequences_of s (validate_sequence_number session signer n rp).0 ≡ sequences_of s rp
unfolding validate_sequence_number
sequences_of-refused s session signer n rp h =
    ground (arith, get_last-sequences_of session signer rp, sequences_of-with_session s session rp)

pub validate_sequence_number-result :
    (session : String) (signer n : ℕ) (rp : ReplayProtection)
    → (validate_sequence_number session signer n rp).1 ≡ (
        if is_not_increasing n (get_last_sequence_number session signer rp)
        then rejected sequence_number_not_increasing
        else valid)
unfolding validate_sequence_number
validate_sequence_number-result session signer n rp =
    ground (arith, get_last-sequences_of session signer rp)

-- A number is accepted exactly if it is above the signer's last number in the session.
pub validate_sequence_number_iff :
    (session : String) (signer n : ℕ) (rp : ReplayProtection)
    → ((validate_sequence_number session signer n rp).1 ≡ valid)
      ↔ IsAbove n (get_last_sequence_number session signer rp)
validate_sequence_number_iff session signer n rp =
    let result = validate_sequence_number-result session signer n rp in
    let last = get_last_sequence_number session signer rp in
    (
      λ h. IsAbove-of_test n last (ground (arith, result)),
      λ h. ground (arith, result, test_of_IsAbove n last h),
    )

-- A check changes at most the last number of its own signer in its own session, and that only to
-- the number that it accepts.
pub get_last-validate :
    (s session : String) (g signer n : ℕ) (rp : ReplayProtection)
    → get_last_sequence_number s g (validate_sequence_number session signer n rp).0 ≡ (
        if is_not_increasing n (get_last_sequence_number session signer rp)
        then get_last_sequence_number s g rp
        else ite
            (String_discrete session s)
            (ite (ℕ_discrete signer g) (some n) (get_last_sequence_number s g rp))
            (get_last_sequence_number s g rp))
get_last-validate s session g signer n rp = ground (
  arith,
  get_last-sequences_of s g (validate_sequence_number session signer n rp).0,
  get_last-sequences_of s g rp,
  sequences_of-validate s session signer n rp,
  sequences_of-refused s session signer n rp,
  get-set g signer n (sequences_of session rp),
)

abbrev after_last : Option ℕ → ℕ
after_last none = 0
after_last (some last) = last + 1

get_next-after_last :
    (session : String) (signer : ℕ) (rp : ReplayProtection)
    → get_next_sequence_number session signer rp
      ≡ after_last (get_last_sequence_number session signer rp)
unfolding get_next_sequence_number get_last_sequence_number
get_next-after_last session signer rp = ground arith

after_last-is_above : (last : Option ℕ) → is_not_increasing (after_last last) last ≡ false
after_last-is_above none = refl
after_last-is_above (some last) = ground arith

-- The next number that the memory offers is accepted, and the offer after it is one higher.
pub get_next_sequence_number-accepted :
    (session : String) (signer : ℕ) (rp : ReplayProtection)
    → let n = get_next_sequence_number session signer rp in
      ((validate_sequence_number session signer n rp).1 ≡ valid)
      × (get_next_sequence_number session signer (validate_sequence_number session signer n rp).0
          ≡ n + 1)
get_next_sequence_number-accepted session signer rp =
    let n = get_next_sequence_number session signer rp in
    let offered = get_next-after_last session signer rp in
    let above = after_last-is_above (get_last_sequence_number session signer rp) in
    (
      ground (arith, validate_sequence_number-result session signer n rp, offered, above),
      ground (
        arith,
        get_last-validate session session signer signer n rp,
        get_next-after_last session signer (validate_sequence_number session signer n rp).0,
        offered,
        above,
      ),
    )
