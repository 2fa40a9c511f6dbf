-- ===== src/SessionPersistence/Store.antt =====
-- InMemorySessionStorage of lib/musig2/session-persistence.ts, and the SessionPersistence that keeps its
-- sessions there. `Date.now()` is an argument.
use xpi_p2p_ts.Dict
use xpi_p2p_ts.Dict.{Dict}
use xpi_p2p_ts.Text.{Text, text_key}
use xpi_p2p_ts.Outcome.{ok, ◌>>=◌}
use xpi_p2p_ts.Serialization.{Bitcore, Serialized}
use xpi_p2p_ts.SessionPersistence.{Session, SerializedSession, serialize, deserialize}
use xpi_p2p_ts.Base.{
  ℕ, suc, ◌+◌, leb, ltb, Bool, Option, none, some, List, [], ◌∷◌, keep, if◌then◌else◌,
}

-- An InMemorySessionStorage is its map.
abbrev pub Storage : Type 0
Storage = Dict Text SerializedSession

pub record Persistence : Type 0 where
  pub storage : Storage
  pub session_expiry : ℕ

unfoldable pub is_expired : ℕ → Persistence → ℕ → Bool
is_expired now p last_activity = leb (last_activity + p.session_expiry) now

pub delete : Text → Persistence → Persistence
delete id p = record p { storage = Dict.delete id p.storage }

pub clear : Persistence → Persistence
clear p = record p { storage = [] }

-- The loop of `cleanupExpired`, with the count.
unfoldable pub delete_expired : (ℕ → Bool) → List SerializedSession → Storage × ℕ → Storage × ℕ
delete_expired old [] r = r
delete_expired old (d ∷ ds) (m, cleaned) =
    delete_expired old ds
      (if old d.last_activity then (Dict.delete d.session_id m, suc cleaned) else (m, cleaned))

unfoldable pub cleanup_expired : ℕ → Persistence → Persistence × ℕ
unfolding is_expired delete_expired
cleanup_expired now p =
    let (m, cleaned) = delete_expired (is_expired now p) (Dict.values p.storage) (p.storage, 0) in
    (record p { storage = m }, cleaned)

module _ {Point BN PublicKey : Type 0} (lib : Bitcore Point BN PublicKey) where
  unfoldable pub save : Session Point BN PublicKey → Persistence → Serialized Persistence
  save s p = do d ← serialize lib s; ok (record p { storage = Dict.set s.session_id d p.storage })

  abbrev pub load_found :
      Option SerializedSession → Serialized (Option (Session Point BN PublicKey))
  load_found none = ok none
  load_found (some d) = do s ← deserialize lib d; ok (some s)

  unfoldable pub load : Text → Persistence → Serialized (Option (Session Point BN PublicKey))
  load id p = load_found (Dict.get id p.storage)

  -- `allData.map(data => this.deserialize(data))`
  unfoldable pub deserialize_each :
      List SerializedSession → Serialized (List (Session Point BN PublicKey))
  deserialize_each [] = ok []
  deserialize_each (d ∷ ds) = do s ← deserialize lib d; rest ← deserialize_each ds; ok (s ∷ rest)

  unfoldable pub load_all : Persistence → Serialized (List (Session Point BN PublicKey))
  unfolding deserialize_each
  load_all p = deserialize_each (Dict.values p.storage)

  unfoldable pub load_active : ℕ → Persistence → Serialized (List (Session Point BN PublicKey))
  unfolding deserialize_each
  load_active now p = deserialize_each (
      keep (λ (d : SerializedSession). ltb now (d.last_activity + p.session_expiry))
        (Dict.values p.storage))
