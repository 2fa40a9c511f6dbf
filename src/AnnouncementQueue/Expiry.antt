-- ===== src/AnnouncementQueue/Expiry.antt =====
-- What `_cleanupExpired` (lib/dht-queue.ts) removes.
use xpi_p2p_ts.Dict
use xpi_p2p_ts.Dict.{Dict}
use xpi_p2p_ts.Dict.Sweep.{kept, get-sweep, sweep-Distinct}
use xpi_p2p_ts.AnnouncementQueue.{
  QueuedAnnouncement, Queue, is_expired, expired_entries, delete_all, cleanup_expired,
}
use xpi_p2p_ts.AnnouncementQueue.Shape.{IsWellFormed, delete_all-WellKeyed}
use xpi_p2p_ts.Base.{ℕ, String, string_key, ◌≡◌, refl, ◌∷◌, [], arith}

module _ {A : Type 0} where
  -- Collecting the expired keys first and deleting them afterwards is one sweep.
  delete_all-sweep :
      (now ttl : ℕ) (es m : Dict String (QueuedAnnouncement A))
      → delete_all (Dict.keys (expired_entries now ttl es)) m
        ≡ Dict.sweep_entries (is_expired now ttl) es m
  unfolding delete_all expired_entries Dict.sweep_entries
  delete_all-sweep now ttl [] m = refl
  delete_all-sweep now ttl ((k, item) ∷ es) m =
      ground (arith, delete_all-sweep now ttl es (Dict.delete k m), delete_all-sweep now ttl es m)

  -- A cleanup removes exactly the items that have waited for longer than the TTL, and changes no
  -- other, if the keys are distinct.
  pub get-cleanup_expired :
      (now : ℕ) (q : Queue A) (k : String)
      → Dict.Distinct q.pending_queue
      → Dict.get k (cleanup_expired now q).0.pending_queue
        ≡ kept (is_expired now q.queue_ttl) (Dict.get k q.pending_queue)
  unfolding cleanup_expired
  get-cleanup_expired now q k d =
      rw (delete_all-sweep now q.queue_ttl q.pending_queue q.pending_queue)
        (get-sweep (is_expired now q.queue_ttl) k q.pending_queue d)

  -- A queue with each entry under its own key, once, is one after a cleanup.
  pub cleanup_expired-IsWellFormed :
      (now : ℕ) (q : Queue A) → IsWellFormed q → IsWellFormed (cleanup_expired now q).0
  unfolding cleanup_expired
  cleanup_expired-IsWellFormed now q v = record {
    distinct =
        rw (delete_all-sweep now q.queue_ttl q.pending_queue q.pending_queue)
          (sweep-Distinct (is_expired now q.queue_ttl) q.pending_queue v.distinct);
    keyed =
        delete_all-WellKeyed (Dict.keys (expired_entries now q.queue_ttl q.pending_queue))
          q.pending_queue v.keyed;
  }
