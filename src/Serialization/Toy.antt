-- ===== src/Serialization/Toy.antt =====
-- A small stand-in for Bitcore, as lib/musig2/serialization.ts uses it: two points, one number, one key.
use mathlib.Core.List.{Permᴰ}
use xpi_p2p_ts.Dict.{Dict}
use xpi_p2p_ts.Text.{Text}
use xpi_p2p_ts.Serialization.{Bitcore}
use xpi_p2p_ts.Serialization.RoundTrip.{IsFaithful}
use xpi_p2p_ts.Serialization.Nonces.{entries}
use xpi_p2p_ts.Base.{
  ℕ, refl, inl, Bool, true, false, some, List, [], ◌∷◌, ◌++◌, if◌then◌else◌, arith,
}

-- 32 zeros, and bytes of a point with this x.
abbrev pub zeros : List ℕ
zeros =
    0 ∷ 0 ∷ 0 ∷ 0 ∷ 0 ∷ 0 ∷ 0 ∷ 0 ∷ 0 ∷ 0 ∷ 0 ∷ 0 ∷ 0 ∷ 0 ∷ 0 ∷ 0 ∷ 0 ∷ 0 ∷ 0 ∷ 0 ∷ 0 ∷ 0 ∷ 0 ∷ 0
    ∷ 0 ∷ 0 ∷ 0 ∷ 0 ∷ 0 ∷ 0 ∷ 0 ∷ 0 ∷ []

abbrev pub prefix_of : Bool → ℕ
prefix_of b = if b then 3 else 2

-- Two points, told apart by their parity.
abbrev pub toy : Bitcore Bool (Unit {0}) (Unit {0})
toy = record {
  point_to_compressed = λ b. some (prefix_of b ∷ zeros);
  point_from_x = λ b x. some b;
  bn_to_buffer = λ _. some zeros;
  bn_from_buffer = λ bytes. tt;
  key_to_buffer = λ _. some (2 ∷ zeros);
  key_from_buffer = λ bytes. some tt;
}

pub toy-IsFaithful : IsFaithful toy
toy-IsFaithful = record {
  prefix = prefix_of;
  x_bytes = λ b. zeros;
  compressed = λ b. refl;
  parity = λ b. ground arith;
  x_size = λ b. refl;
  x_AreBytes = λ b. omega arith;
  lift_x = λ b. ground arith;
  key_bytes = λ _. 2 ∷ zeros;
  key_written = λ _. refl;
  key_size = λ _. inl refl;
  key_AreBytes = λ _. omega arith;
  key_read = λ k. refl;
}

abbrev pub two_points : List Bool
two_points = true ∷ false ∷ []

-- What is written for the two points, the second first.
abbrev pub swapped : Dict Text Text
swapped = entries toy toy-IsFaithful 1 (false ∷ []) ++ entries toy toy-IsFaithful 0 (true ∷ [])

pub swapped-Perm : Permᴰ (entries toy toy-IsFaithful 0 two_points) swapped
unfolding entries
swapped-Perm = Permᴰ.swap refl refl
