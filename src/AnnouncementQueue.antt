-- ===== src/AnnouncementQueue.antt =====
-- lib/dht-queue.ts: announcements that wait until the routing table has peers.
-- `Date.now()` is an argument, `clock` where a flush asks for it once for each item. The flush
-- callback is code of the program's user: an argument that says how each of its calls ends. No
-- other method runs while a flush waits for it.
pub mod Shape
pub mod Oldest
pub mod Bounds
pub mod Expiry
pub mod Flush
mod Tests
use xpi_p2p_ts.Dict
use xpi_p2p_ts.Dict.{Dict}
use xpi_p2p_ts.Base.{
  ℕ, zero, suc, ◌+◌, ◌-◌, ◌*◌, ltb, leb, ◌==◌, if◌then◌else◌, is_nonempty, String, string_key, Bool,
  true, false, Option, none, some, List, [], ◌∷◌, ◌++◌, map, keep, length, take, drop,
}

pub record QueuedAnnouncement (A : Type 0) : Type 0 where
  pub key : String
  pub announcement : A
  pub queued_at : ℕ
  pub attempts : ℕ
  pub last_attempt : Option ℕ

pub record Config : Type 0 where
  pub max_queue_size : ℕ
  pub queue_ttl : ℕ
  pub max_retries : ℕ
  pub retry_delay : ℕ
  pub flush_batch_size : ℕ

abbrev pub default_config : Config
default_config = record {
  max_queue_size = 1000;
  queue_ttl = 5 * 60 * 1000;
  max_retries = 3;
  retry_delay = 5000;
  flush_batch_size = 10;
}

pub data Event : Type 0 where
  added : String → ℕ → Event
  flushed : ℕ → ℕ → Event
  expired : String → ℕ → Event
  overflow : String → Event
  retry : String → ℕ → Event

pub record Queue (A : Type 0) : Type 0 where
  pub pending_queue : Dict String (QueuedAnnouncement A)
  pub config : Config
  pub open config use *
  pub has_callback : Bool

-- How a call of the flush callback ends: true, false, or an exception.
pub data Outcome : Type 0 where
  propagated refused threw : Outcome

-- What a flush has done so far.
pub record Progress (A : Type 0) : Type 0 where
  pub pending : Dict String (QueuedAnnouncement A)
  pub success : ℕ
  pub failed : ℕ
  pub events : List Event

module _ {A : Type 0} where
  pub init : Config → Queue A
  init c = record { pending_queue = []; config = c; has_callback = false }

  pub set_flush_callback : Queue A → Queue A
  set_flush_callback q = record q { has_callback = true }

  -- The test of `_findOldestKey`; before the first item the oldest time is Infinity.
  abbrev pub is_older : QueuedAnnouncement A → Option (String × ℕ) → Bool
  is_older item none = true
  is_older item (some best) = ltb item.queued_at best.1

  pub oldest_from : Option (String × ℕ) → Dict String (QueuedAnnouncement A) → Option (String × ℕ)
  oldest_from best [] = best
  oldest_from best ((k, item) ∷ m) =
      oldest_from (if is_older item best then some (k, item.queued_at) else best) m

  pub find_oldest_key : Queue A → Option (String × ℕ)
  unfolding oldest_from
  find_oldest_key q = oldest_from none q.pending_queue

  -- `if (oldestKey)`: an empty key does not count.
  pub evict : Queue A → Option (String × ℕ) → Queue A × List Event
  evict q none = (q, [])
  evict q (some (k, t)) =
      if is_nonempty k
      then (record q { pending_queue = Dict.delete k q.pending_queue }, overflow k ∷ [])
      else (q, [])

  pub make_room : Queue A → Queue A × List Event
  make_room q =
      if leb q.max_queue_size (Dict.size q.pending_queue)
      then evict q (find_oldest_key q)
      else (q, [])

  abbrev pub refresh : A → ℕ → QueuedAnnouncement A → QueuedAnnouncement A
  refresh a now item = record item { announcement = a; queued_at = now }

  abbrev pub fresh : String → A → ℕ → QueuedAnnouncement A
  fresh k a now = record {
    key = k;
    announcement = a;
    queued_at = now;
    attempts = 0;
    last_attempt = none;
  }

  pub append_new : String → A → ℕ → Queue A × List Event → Queue A × List Event
  append_new k a now (q, events) =
      let grown = Dict.set k (fresh k a now) q.pending_queue in
      (record q { pending_queue = grown }, events ++ added k (Dict.size grown) ∷ [])

  unfoldable pub enqueue : String → A → ℕ → Queue A → Queue A × List Event
  unfolding append_new make_room evict find_oldest_key
  enqueue k a now q = elim (Dict.get k q.pending_queue) [
    | none ↦ append_new k a now (make_room q)
    | some _ ↦ (record q { pending_queue = Dict.modify k (refresh a now) q.pending_queue }, [])
  ]

  abbrev pub start_attempt : (String → ℕ) → QueuedAnnouncement A → QueuedAnnouncement A
  start_attempt clock item = record item {
    attempts = item.attempts + 1;
    last_attempt = some (clock item.key);
  }

  -- The synchronous part of each callback of `batch.map`, as the map shows it.
  pub mark_started :
      (String → ℕ)
      → List (QueuedAnnouncement A)
      → Dict String (QueuedAnnouncement A)
      → Dict String (QueuedAnnouncement A)
  mark_started clock [] m = m
  mark_started clock (item ∷ batch) m =
      mark_started clock batch (Dict.modify item.key (start_attempt clock) m)

  abbrev pub give_up : Config → QueuedAnnouncement A → Bool
  give_up c item = leb c.max_retries item.attempts

  abbrev pub drop_item : QueuedAnnouncement A → Progress A → Progress A
  drop_item item p = record p { pending = Dict.delete item.key p.pending }

  -- The part behind the `await`, over an item whose attempt has started.
  pub settle : Config → (String → A → Outcome) → QueuedAnnouncement A → Progress A → Progress A
  settle c answer item p = elim (answer item.key item.announcement) [
    | propagated ↦ record (drop_item item p) { success = p.success + 1 }
    | refused ↦
        if give_up c item then record (drop_item item p) { failed = p.failed + 1 } else record p {
          failed = p.failed + 1;
          events = p.events ++ retry item.key item.attempts ∷ [];
        }
    | threw ↦
        if give_up c item
        then record (drop_item item p) { failed = p.failed + 1 }
        else record p { failed = p.failed + 1 }
  ]

  pub settle_all :
      Config → (String → A → Outcome) → List (QueuedAnnouncement A) → Progress A → Progress A
  settle_all c answer [] p = p
  settle_all c answer (item ∷ batch) p = settle_all c answer batch (settle c answer item p)

  pub run_batch :
      Config
      → (String → A → Outcome)
      → (String → ℕ)
      → List (QueuedAnnouncement A)
      → Progress A
      → Progress A
  run_batch c answer clock batch p =
      settle_all c answer (map (start_attempt clock) batch)
        (record p { pending = mark_started clock batch p.pending })

  -- `items.slice(i, j)`
  abbrev pub slice : ℕ → ℕ → List (QueuedAnnouncement A) → List (QueuedAnnouncement A)
  slice i j items = take (j - i) (drop i items)

  -- The loop over the batches, on fuel; `none` means that the fuel ran out.
  pub flush_from :
      ℕ
      → Config
      → (String → A → Outcome)
      → (String → ℕ)
      → ℕ
      → List (QueuedAnnouncement A)
      → Progress A
      → Option (Progress A)
  flush_from zero c answer clock i items p = none
  flush_from (suc fuel) c answer clock i items p =
      let batch = slice i (i + c.flush_batch_size) items in
      let rest =
        flush_from fuel c answer clock (i + c.flush_batch_size) items
          (run_batch c answer clock batch p) in
      if ltb i (length items) then rest else some p

  abbrev pub begin_flush : Queue A → Progress A
  begin_flush q = record { pending = q.pending_queue; success = 0; failed = 0; events = [] }

  abbrev pub end_flush : Queue A → Progress A → Queue A × Progress A
  end_flush q p = (
    record q { pending_queue = p.pending },
    record p { events = p.events ++ flushed p.success p.failed ∷ [] },
  )

  -- The queue afterwards, with the counts and the events.
  unfoldable pub flush :
      (String → A → Outcome) → (String → ℕ) → Queue A → Option (Queue A × Progress A)
  flush answer clock q =
      if q.has_callback
      then if Dict.size q.pending_queue == 0
        then some (q, begin_flush q)
        else elim (flush_from (Dict.size q.pending_queue + 1) q.config answer clock 0
            (Dict.values q.pending_queue) (begin_flush q)) [
              | none ↦ none
              | some p ↦ some (end_flush q p)
            ]
      else some (q, begin_flush q)

  pub get_pending_count : Queue A → ℕ
  get_pending_count q = Dict.size q.pending_queue

  pub get_pending_keys : Queue A → List String
  get_pending_keys q = Dict.keys q.pending_queue

  pub is_queued : String → Queue A → Bool
  is_queued k q = Dict.has k q.pending_queue

  -- `remove`, which says whether the key was there.
  pub remove : String → Queue A → Queue A × Bool
  remove k q =
      (record q { pending_queue = Dict.delete k q.pending_queue }, Dict.has k q.pending_queue)

  pub clear : Queue A → Queue A
  clear q = record q { pending_queue = [] }

  -- `now - item.queuedAt > queueTTL`, without the subtraction.
  abbrev pub is_expired : ℕ → ℕ → QueuedAnnouncement A → Bool
  is_expired now ttl item = ltb (item.queued_at + ttl) now

  pub expired_entries :
      ℕ → ℕ → Dict String (QueuedAnnouncement A) → Dict String (QueuedAnnouncement A)
  expired_entries now ttl m = keep (λ e. is_expired now ttl e.1) m

  pub delete_all :
      List String → Dict String (QueuedAnnouncement A) → Dict String (QueuedAnnouncement A)
  delete_all [] m = m
  delete_all (k ∷ ks) m = delete_all ks (Dict.delete k m)

  unfoldable pub cleanup_expired : ℕ → Queue A → Queue A × List Event
  unfolding expired_entries delete_all
  cleanup_expired now q =
      let old = expired_entries now q.queue_ttl q.pending_queue in
      (
        record q { pending_queue = delete_all (Dict.keys old) q.pending_queue },
        map (λ e. expired e.0 (now - e.1.queued_at)) old,
      )
