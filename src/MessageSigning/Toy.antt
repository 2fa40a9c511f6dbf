-- ===== src/MessageSigning/Toy.antt =====
-- A small stand-in for Schnorr, as lib/musig2/message-signing.ts uses it: one key, whose signature is a
-- sum.
use xpi_p2p_ts.Text.{literal, is_same, is_same_refl}
use xpi_p2p_ts.MessageSigning.{Schnorr}
use xpi_p2p_ts.MessageSigning.Verified.{IsSound}
use xpi_p2p_ts.Serialization.Toy.{zeros}
use xpi_p2p_ts.Base.{ℕ, ◌+◌, refl, ap, inl, some, List, [], ◌∷◌, ◌++◌}

abbrev sum : List ℕ → ℕ
sum [] = 0
sum (n ∷ ns) = n + sum ns

abbrev signature_of : List ℕ → List ℕ
signature_of hash =
    sum hash
    ∷ 1
    ∷ (zeros
        ++ 2 ∷ 3 ∷ 4 ∷ 5 ∷ 6 ∷ 7 ∷ 8 ∷ 9 ∷ 10 ∷ 11 ∷ 12 ∷ 13 ∷ 14 ∷ 15 ∷ 16 ∷ 17 ∷ 18 ∷ 19 ∷ 20 ∷ 21
          ∷ 22 ∷ 23 ∷ 24 ∷ 25 ∷ 26 ∷ 27 ∷ 28 ∷ 29 ∷ 30 ∷ 31 ∷ [])

abbrev pub toy : Schnorr (Unit {0}) (Unit {0})
toy = record {
  sha256 = λ bytes. bytes;
  sign = λ hash _. signature_of hash;
  verify = λ hash signature _. some (is_same signature (signature_of hash));
  to_public_key = λ _. tt;
  key_to_buffer = λ _. 2 ∷ zeros;
  key_from_text = λ _. some tt;
  json = λ _. literal "{}";
}

pub toy-IsSound : IsSound toy
toy-IsSound = record {
  verified = λ hash key. ap some (is_same_refl (signature_of hash));
  signature_size = λ hash key. refl;
  key_size = λ k. inl refl;
  key_read = λ k. refl;
}
