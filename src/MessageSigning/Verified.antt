-- ===== src/MessageSigning/Verified.antt =====
-- What a signature of lib/musig2/message-signing.ts stands for.
use mathlib.Core.List.{append_assoc, append-nil}
use xpi_p2p_ts.Text.{Text, is_same_refl}
use xpi_p2p_ts.Text.Hex.{to_hex, length-to_hex}
use xpi_p2p_ts.Text.Utf8.{utf8, AreAscii, utf8-append}
use xpi_p2p_ts.MessageSigning.{
  P2PMessage, Config, Schnorr, or_refused, or_missing, get_signature_data, sign_message,
  check_signature, verify_message, verify_by, verify_named, verify_expected, has_signature,
}
use xpi_p2p_ts.Base.{
  ℕ, ◌≡◌, ◌<◌, refl, sym, ap, ◌∙◌, ◌⊎◌, true, Option, none, some, List, [], ◌∷◌, ◌++◌, length,
  arith,
}

or_missing-some : (t : Text) → 0 < length t → or_missing (some t) ≡ some t
or_missing-some [] h = absurd (omega arith)
or_missing-some (c ∷ t) h = refl

module _ {PrivateKey PublicKey : Type 0} (lib : Schnorr PrivateKey PublicKey) where
  -- What the code relies on of xpi-ts: a signature is accepted for the signer's public key, which is
  -- read back from its text.
  pub record IsSound : Type 0 where
    pub verified :
        (hash : List ℕ) (key : PrivateKey)
        → lib.verify hash (lib.sign hash key) (lib.to_public_key key) ≡ some true
    pub signature_size : (hash : List ℕ) (key : PrivateKey) → length (lib.sign hash key) ≡ 64
    pub key_size :
        (k : PublicKey) → (length (lib.key_to_buffer k) ≡ 33) ⊎ (length (lib.key_to_buffer k) ≡ 65)
    pub key_read : (k : PublicKey) → lib.key_from_text (to_hex (lib.key_to_buffer k)) ≡ some k

  module _ (sound : IsSound) where
    check_signature-sign :
        (c : Config) (m : P2PMessage) (key : PrivateKey)
        → check_signature lib c
            (sign_message lib c m key)
            (lib.sign (lib.sha256 (get_signature_data lib c m)) key)
            (lib.to_public_key key)
          ≡ true
    unfolding check_signature sign_message get_signature_data
    check_signature-sign c m key =
        ap or_refused (sound.verified (lib.sha256 (get_signature_data lib c m)) key)

    -- If xpi-ts accepts what a key has signed for its public key, of a documented size and read back
    -- from its text, then a message that was signed has a signature, and passes, whether its signer's
    -- key is expected or taken from the message.
    pub verify_message-sign :
        (c : Config) (m : P2PMessage) (key : PrivateKey)
        → (has_signature (sign_message lib c m key) ≡ true)
          × (verify_message lib c (sign_message lib c m key) none ≡ some true)
          × (verify_message lib c (sign_message lib c m key) (some (lib.to_public_key key))
              ≡ some true)
    unfolding has_signature sign_message verify_message verify_named verify_expected
    verify_message-sign c m key =
        let hash = lib.sha256 (get_signature_data lib c m) in
        let public = lib.to_public_key key in
        let name = to_hex (lib.key_to_buffer public) in
        let named : or_missing (some name) ≡ some name =
          or_missing-some name
            (omega (arith, sound.key_size public, length-to_hex (lib.key_to_buffer public))) in
        (
          ground (
            arith,
            sound.signature_size hash key,
            sound.key_size public,
            length-to_hex (lib.key_to_buffer public),
          ),
          rw (named, verify_named, sound.key_read public, check_signature-sign c m key),
          rw (
            named,
            verify_expected,
            sound.key_read public,
            is_same_refl name,
            check_signature-sign c m key,
          ),
        )

  utf8_ascii : (s : Text) → AreAscii s → utf8 s ≡ s
  utf8_ascii s a = ap utf8 (sym (append-nil s)) ∙ utf8-append s [] a ∙ unfold utf8 in append-nil s

  -- The beginning of a text, moved from the end of the one before it.
  utf8_moved :
      (s a t : Text) (rest : List ℕ)
      → AreAscii s
      → AreAscii a
      → utf8 (s ++ a) ++ (utf8 t ++ rest) ≡ utf8 s ++ (utf8 (a ++ t) ++ rest)
  utf8_moved s a t rest p q =
      ap (λ u. u ++ (utf8 t ++ rest)) (utf8-append s a p ∙ ap (λ u. s ++ u) (utf8_ascii a q))
      ∙ append_assoc s a (utf8 t ++ rest)
      ∙ ap (λ u. s ++ u) (sym (append_assoc a (utf8 t) rest))
      ∙ (λ i. sym (utf8_ascii s p) i ++ (sym (utf8-append a t q) i ++ rest))

  -- A signature does not fix where the type of a message ends and its sender begins, nor its recipient
  -- and protocol: with a part of the type, in ASCII, moved to the sender, and another recipient and
  -- protocol, the message passes with the same signature whenever it passed before.
  pub verify_message-moved :
      (c : Config) (m : P2PMessage) (s a t : Text) (recipient protocol : Option Text)
      (expected : Option PublicKey)
      → AreAscii s
      → AreAscii a
      → verify_message lib c (record m { type = s ++ a; sender = t }) expected
        ≡ verify_message lib c
            (record m { type = s; sender = a ++ t; recipient = recipient; protocol = protocol })
            expected
  unfolding verify_message get_signature_data check_signature
  verify_message-moved c m s a t recipient protocol expected p q =
      ap
        (λ (data_bytes : List ℕ).
          verify_by lib
            (λ signature key. or_refused (lib.verify (lib.sha256 data_bytes) signature key))
            m.signature (or_missing m.signer_public_key) expected)
        (utf8_moved s a t _ p q)
