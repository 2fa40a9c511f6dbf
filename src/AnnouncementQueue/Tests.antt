-- ===== src/AnnouncementQueue/Tests.antt =====
-- Runs of lib/dht-queue.ts on small inputs.
use xpi_p2p_ts.Dict
use xpi_p2p_ts.Dict.{Dict}
use xpi_p2p_ts.AnnouncementQueue.{
  QueuedAnnouncement, Config, Queue, Outcome, Progress, overflow, added, enqueue, append_new,
  make_room, evict, find_oldest_key, oldest_from, flush,
}
use xpi_p2p_ts.AnnouncementQueue.Shape.{IsWellFormed}
use xpi_p2p_ts.AnnouncementQueue.Bounds.{Eviction, enqueue-Eviction}
use xpi_p2p_ts.AnnouncementQueue.Flush.Outcomes.{after_flush, flush_outcomes}
use xpi_p2p_ts.Base.{
  ℕ, true, ◌+◌, ◌≡◌, refl, String, string_key, none, some, [], ◌∷◌, arith, String_discrete,
}

abbrev small : Config
small = record {
  max_queue_size = 2;
  queue_ttl = 100;
  max_retries = 2;
  retry_delay = 10;
  flush_batch_size = 1;
}

abbrev item : String → ℕ → ℕ → QueuedAnnouncement ℕ
item k time tries = record {
  key = k;
  announcement = 7;
  queued_at = time;
  attempts = tries;
  last_attempt = none;
}

abbrev two_items : Queue ℕ
two_items = record {
  pending_queue = ("a", item "a" 10 0) ∷ ("b", item "b" 5 1) ∷ [];
  config = small;
  has_callback = true;
}

abbrev refuses : String → ℕ → Outcome
refuses k a = Outcome.refused

abbrev noon : String → ℕ
noon k = 12

two_items-Distinct : Dict.Distinct two_items.pending_queue
unfolding Dict.get String_discrete
two_items-Distinct = (refl, (refl, tt))

two_items-IsWellFormed : IsWellFormed two_items
two_items-IsWellFormed = record { distinct = two_items-Distinct; keyed = (refl, (refl, tt)) }

drops_oldest : (enqueue "c" 8 20 two_items).1 ≡ overflow "b" ∷ added "c" 2 ∷ []
unfolding enqueue append_new make_room evict find_oldest_key oldest_from Dict.get Dict.set
    Dict.delete String_discrete
drops_oldest = refl

flush_outcomes_example :
    (r : Queue ℕ × Progress ℕ) × (flush refuses noon two_items ≡ some r)
    × ((k : String)
        → Dict.get k r.0.pending_queue
          ≡ after_flush small refuses noon (Dict.get k two_items.pending_queue))
    × (r.1.success + r.1.failed ≡ 2)
flush_outcomes_example =
    flush_outcomes refuses noon two_items two_items-IsWellFormed refl (omega arith)

enqueue-Eviction_example : Eviction two_items "c" 8 20
unfolding Dict.get String_discrete
enqueue-Eviction_example =
    enqueue-Eviction two_items "c" 8 20 two_items-Distinct (refl, (refl, tt)) refl (omega arith)
      (omega arith)
