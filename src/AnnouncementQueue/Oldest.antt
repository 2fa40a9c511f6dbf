-- ===== src/AnnouncementQueue/Oldest.antt =====
-- The key that `_findOldestKey` (lib/dht-queue.ts) picks.
use xpi_p2p_ts.Dict
use xpi_p2p_ts.Dict.{Dict}
use xpi_p2p_ts.AnnouncementQueue.{QueuedAnnouncement, Queue, oldest_from, find_oldest_key}
use xpi_p2p_ts.Base.{
  ℕ, String, string_key, ◌≡◌, ◌≤◌, refl, ◌∷◌, [], none, some, arith, inl, inr, ◌⊎◌, All, ltb,
  Bool-cases,
}

module _ {A : Type 0} where
  -- No entry was queued before `t`.
  abbrev pub NoneBefore : ℕ → Dict String (QueuedAnnouncement A) → Type 0
  NoneBefore t = All (λ e. t ≤ e.1.queued_at)

  NoneBefore-mono :
      (s t : ℕ) (m : Dict String (QueuedAnnouncement A)) → s ≤ t → NoneBefore t m → NoneBefore s m
  NoneBefore-mono s t [] h b = tt
  NoneBefore-mono s t (x ∷ m) h b = (omega arith, NoneBefore-mono s t m h b.1)

  -- The entry that the loop ends with: the one that it had, or one of the list.
  abbrev Found : String → ℕ → Dict String (QueuedAnnouncement A) → String × ℕ → Type 0
  Found k0 t0 m b =
      ((b.0 ≡ k0) × (b.1 ≡ t0))
      ⊎ ((item : QueuedAnnouncement A) × (Dict.get b.0 m ≡ some item) × (item.queued_at ≡ b.1))

  record Pick (k0 : String) (t0 : ℕ) (m : Dict String (QueuedAnnouncement A)) (b : String × ℕ)
      : Type 0 where
    not_after : b.1 ≤ t0
    least : NoneBefore b.1 m
    found : Found k0 t0 m b

  Found-cons :
      (k0 : String) (t0 : ℕ) (k : String) (item : QueuedAnnouncement A)
      (m : Dict String (QueuedAnnouncement A)) (b : String × ℕ)
      → Dict.get k m ≡ none
      → Found k item.queued_at m b
      → Found k0 t0 ((k, item) ∷ m) b
  unfolding Dict.get
  Found-cons k0 t0 k item m b new (inl (same, at)) = inr (item, ground arith, ground arith)
  Found-cons k0 t0 k item m b new (inr (other, stored, at)) =
      inr (other, ground arith, ground arith)

  Found-skip :
      (k0 : String) (t0 : ℕ) (k : String) (item : QueuedAnnouncement A)
      (m : Dict String (QueuedAnnouncement A)) (b : String × ℕ)
      → Dict.get k m ≡ none
      → Found k0 t0 m b
      → Found k0 t0 ((k, item) ∷ m) b
  unfolding Dict.get
  Found-skip k0 t0 k item m b new (inl same) = inl same
  Found-skip k0 t0 k item m b new (inr (other, stored, at)) =
      inr (other, ground arith, ground arith)

  oldest_from-some :
      (k0 : String) (t0 : ℕ) (m : Dict String (QueuedAnnouncement A))
      → Dict.Distinct m
      → (b : String × ℕ) × (oldest_from (some (k0, t0)) m ≡ some b) × Pick k0 t0 m b
  unfolding oldest_from
  oldest_from-some k0 t0 [] d =
      ((k0, t0), refl, record { not_after = omega arith; least = tt; found = inl (refl, refl) })
  oldest_from-some k0 t0 ((k, item) ∷ m) d = elim (Bool-cases (ltb item.queued_at t0)) [
    | inl e ↦
        let (b, chosen, pick) = oldest_from-some k item.queued_at m d.1 in
        (
          b,
          rw e chosen,
          record {
            not_after = ground (arith, pick.not_after);
            least = (pick.not_after, pick.least);
            found = Found-cons k0 t0 k item m b d.0 pick.found;
          },
        )
    | inr e ↦
        let (b, chosen, pick) = oldest_from-some k0 t0 m d.1 in
        (
          b,
          rw e chosen,
          record {
            not_after = pick.not_after;
            least = (ground (arith, pick.not_after), pick.least);
            found = Found-skip k0 t0 k item m b d.0 pick.found;
          },
        )
  ]

  -- An entry of the map that no other entry is older than.
  pub record IsOldest (m : Dict String (QueuedAnnouncement A)) (k : String) (t : ℕ) : Type 0 where
    pub item : QueuedAnnouncement A
    pub stored : Dict.get k m ≡ some item
    pub at : item.queued_at ≡ t
    pub least : NoneBefore t m

  IsOldest-of_entries :
      (m : Dict String (QueuedAnnouncement A))
      → Dict.Distinct m
      → (m ≡ []) ⊎ ((b : String × ℕ) × (oldest_from none m ≡ some b) × IsOldest m b.0 b.1)
  unfolding oldest_from Dict.get
  IsOldest-of_entries [] d = inl refl
  IsOldest-of_entries ((k, item) ∷ m) d =
      let (b, chosen, pick) = oldest_from-some k item.queued_at m d.1 in
      inr (
        b,
        chosen,
        oldest b pick.least pick.not_after (Found-cons k item.queued_at k item m b d.0 pick.found),
      )
    where
      oldest :
          (b : String × ℕ)
          → NoneBefore b.1 m
          → b.1 ≤ item.queued_at
          → Found k item.queued_at ((k, item) ∷ m) b
          → IsOldest ((k, item) ∷ m) b.0 b.1
      oldest b below before (inl (same, at)) = record {
        item = item;
        stored = ground arith;
        at = ground arith;
        least = (before, below);
      }
      oldest b below before (inr (other, stored, at)) = record {
        item = other;
        stored = stored;
        at = at;
        least = (before, below);
      }

  -- A queue with entries has an oldest key, and it is the key of an entry that none is older than.
  pub find_oldest_key-IsOldest :
      (q : Queue A)
      → Dict.Distinct q.pending_queue
      → (q.pending_queue ≡ [])
        ⊎ ((b : String × ℕ) × (find_oldest_key q ≡ some b) × IsOldest q.pending_queue b.0 b.1)
  unfolding find_oldest_key
  find_oldest_key-IsOldest q d = IsOldest-of_entries q.pending_queue d
