-- ===== src/AnnouncementQueue/Bounds.antt =====
-- The limit on the queue (`enqueue`, lib/dht-queue.ts).
use xpi_p2p_ts.Dict
use xpi_p2p_ts.Dict.{Dict}
use xpi_p2p_ts.Dict.Size.{size-set_absent, size-delete_present, size-modify}
use xpi_p2p_ts.Dict.Laws.{get-delete}
use xpi_p2p_ts.AnnouncementQueue.{
  QueuedAnnouncement, Queue, overflow, added, evict, make_room, append_new, enqueue, fresh, refresh,
  find_oldest_key,
}
use xpi_p2p_ts.AnnouncementQueue.Oldest.{IsOldest, find_oldest_key-IsOldest}
use xpi_p2p_ts.Base.{
  ℕ, ◌+◌, String, string_key, ◌≡◌, ◌≤◌, ◌<◌, ◌∷◌, [], none, some, arith, inl, inr, ◌⊎◌, All, ltb,
  ltb→lt, is_nonempty, true, Bool-cases, Option-cases,
}

module _ {A : Type 0} where
  -- No key is the empty text.
  abbrev pub NonemptyKeys : Dict String (QueuedAnnouncement A) → Type 0
  NonemptyKeys = All (λ e. is_nonempty e.0 ≡ true)

  key-is_nonempty :
      (k : String) (item : QueuedAnnouncement A) (m : Dict String (QueuedAnnouncement A))
      → NonemptyKeys m
      → Dict.get k m ≡ some item
      → is_nonempty k ≡ true
  unfolding Dict.get
  key-is_nonempty k item [] n h = cc
  key-is_nonempty k item ((j, x) ∷ m) n h = ground (arith, key-is_nonempty k item m n.1)

  -- What a full queue drops for a new item.
  pub record Eviction (q : Queue A) (k : String) (a : A) (now : ℕ) : Type 0 where
    pub dropped : String
    pub queued_at : ℕ
    pub oldest : IsOldest q.pending_queue dropped queued_at
    pub pending :
        (enqueue k a now q).0.pending_queue
        ≡ Dict.set k (fresh k a now) (Dict.delete dropped q.pending_queue)
    pub size_kept : Dict.size (enqueue k a now q).0.pending_queue ≡ Dict.size q.pending_queue
    pub told : (enqueue k a now q).1 ≡ overflow dropped ∷ added k (Dict.size q.pending_queue) ∷ []

  module _ (q : Queue A) (k : String) (a : A) (now : ℕ) (distinct : Dict.Distinct q.pending_queue)
      (new : Dict.get k q.pending_queue ≡ none)
      (full : q.max_queue_size ≤ Dict.size q.pending_queue) where
    replaced_size :
        (old : String) (item : QueuedAnnouncement A)
        → Dict.get old q.pending_queue ≡ some item
        → Dict.size (Dict.set k (fresh k a now) (Dict.delete old q.pending_queue))
          ≡ Dict.size q.pending_queue
    replaced_size old item stored = ground (
      arith,
      size-set_absent k (fresh k a now) (Dict.delete old q.pending_queue),
      size-delete_present old item q.pending_queue distinct stored,
      get-delete k old q.pending_queue,
    )

    enqueue_at_oldest :
        (b : String × ℕ)
        → find_oldest_key q ≡ some b
        → is_nonempty b.0 ≡ true
        → enqueue k a now q
          ≡ append_new k a now
              (record q { pending_queue = Dict.delete b.0 q.pending_queue }, overflow b.0 ∷ [])
    unfolding enqueue make_room evict
    enqueue_at_oldest b chosen named = ground arith

  -- A full queue makes room for an announcement under a new key by dropping its oldest item: it
  -- says so, keeps all others and its size, if the keys are distinct, none is empty, and the
  -- queue holds something.
  pub enqueue-Eviction :
      (q : Queue A) (k : String) (a : A) (now : ℕ)
      → Dict.Distinct q.pending_queue
      → NonemptyKeys q.pending_queue
      → Dict.get k q.pending_queue ≡ none
      → 0 < Dict.size q.pending_queue
      → q.max_queue_size ≤ Dict.size q.pending_queue
      → Eviction q k a now
  unfolding append_new
  enqueue-Eviction q k a now distinct named new holds full =
      evicted (find_oldest_key-IsOldest q distinct)
    where
      evicted :
          (q.pending_queue ≡ [])
            ⊎ ((b : String × ℕ) × (find_oldest_key q ≡ some b) × IsOldest q.pending_queue b.0 b.1)
          → Eviction q k a now
      evicted (inl e) = absurd (ground arith)
      evicted (inr (b, chosen, oldest)) =
          let named_b = key-is_nonempty b.0 oldest.item q.pending_queue named oldest.stored in
          let known = enqueue_at_oldest q k a now distinct new full b chosen named_b in
          let same = replaced_size q k a now distinct new full b.0 oldest.item oldest.stored in
          record {
            dropped = b.0;
            queued_at = b.1;
            oldest = oldest;
            pending = rw (known, append_new);
            size_kept = rw (known, append_new) same;
            told = rw (known, append_new) (ground (arith, same));
          }

  -- An announcement under a new key, while the queue is not full, is added at its end and told.
  pub enqueue_below_limit :
      (q : Queue A) (k : String) (a : A) (now : ℕ)
      → Dict.get k q.pending_queue ≡ none
      → Dict.size q.pending_queue < q.max_queue_size
      → ((enqueue k a now q).0.pending_queue ≡ Dict.set k (fresh k a now) q.pending_queue)
        × (Dict.size (enqueue k a now q).0.pending_queue ≡ Dict.size q.pending_queue + 1)
        × ((enqueue k a now q).1 ≡ added k (Dict.size q.pending_queue + 1) ∷ [])
  unfolding enqueue make_room append_new
  enqueue_below_limit q k a now new room =
      let grown = size-set_absent k (fresh k a now) q.pending_queue new in
      (ground arith, ground (arith, grown), ground (arith, grown))

  -- Queueing keeps the queue within a limit that is not zero, if the keys are distinct and none
  -- is empty.
  pub enqueue_bounded :
      (q : Queue A) (k : String) (a : A) (now : ℕ)
      → Dict.Distinct q.pending_queue
      → NonemptyKeys q.pending_queue
      → 0 < q.max_queue_size
      → Dict.size q.pending_queue ≤ q.max_queue_size
      → Dict.size (enqueue k a now q).0.pending_queue ≤ q.max_queue_size
  unfolding enqueue
  enqueue_bounded q k a now distinct named positive within =
      elim (Option-cases (Dict.get k q.pending_queue)) [
        | inr (item, e) ↦
            rw (e, enqueue) (rw (size-modify k (refresh a now) q.pending_queue) within)
        | inl new ↦ elim (Bool-cases (ltb (Dict.size q.pending_queue) q.max_queue_size)) [
          | inl below ↦
              let grown = enqueue_below_limit q k a now new (ltb→lt _ _ below) in
              omega (arith, grown.1, ltb→lt (Dict.size q.pending_queue) q.max_queue_size below)
          | inr not_below ↦
              let full : q.max_queue_size ≤ Dict.size q.pending_queue = ground arith in
              let e = enqueue-Eviction q k a now distinct named new (omega arith) full in
              rw (e.size_kept) within
        ]
      ]
