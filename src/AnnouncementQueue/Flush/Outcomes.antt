-- ===== src/AnnouncementQueue/Flush/Outcomes.antt =====
-- The whole flush (lib/dht-queue.ts), its batches together.

use xpi_p2p_ts.Dict
use xpi_p2p_ts.Dict.{Dict}
use xpi_p2p_ts.AnnouncementQueue.{
  QueuedAnnouncement, Config, Queue, Outcome, Progress, start_attempt, run_batch, slice, flush_from,
  flush, begin_flush, end_flush,
}
use xpi_p2p_ts.AnnouncementQueue.Shape.{IsWellFormed}
use xpi_p2p_ts.AnnouncementQueue.Flush.Find.{
  find, UniqueKeys, find-append, UniqueKeys-left, UniqueKeys-right, find-right-none, find-values,
  UniqueKeys-values,
}
use xpi_p2p_ts.AnnouncementQueue.Flush.Batches.{
  after_settle, batch_effect, get-run_batch, count-run_batch,
}
use xpi_p2p_ts.Base.{
  ℕ, zero, suc, ◌+◌, ◌-◌, ◌<◌, String, string_key, ◌≡◌, refl, sym, ◌∷◌, [], ◌++◌, List, Option,
  none, some, arith, inl, inr, Bool-cases, Option-cases, length, ap, ◌∙◌, subst, drop, drop-drop,
  drop_past, take-append-drop, length-append, length-map, ltb, true,
}

module _ {A : Type 0} where
  -- What a flush leaves of an entry: nothing if its announcement was propagated, or if this was
  -- the last attempt that the configuration allows; else the entry with one attempt more.
  abbrev pub after_flush :
      Config
      → (String → A → Outcome)
      → (String → ℕ)
      → Option (QueuedAnnouncement A)
      → Option (QueuedAnnouncement A)
  after_flush c answer clock none = none
  after_flush c answer clock (some item) =
      after_settle c answer (start_attempt clock item) (some (start_attempt clock item))

  module _ (c : Config) (answer : String → A → Outcome) (clock : String → ℕ) where
    batch_effect-append :
        (k : String) (xs ys : List (QueuedAnnouncement A)) (entry : Option (QueuedAnnouncement A))
        → UniqueKeys (xs ++ ys)
        → batch_effect c answer clock (find k (xs ++ ys)) entry
          ≡ batch_effect c answer clock (find k ys) (batch_effect c answer clock (find k xs) entry)
    batch_effect-append k xs ys entry u = elim (Option-cases (find k xs)) [
      | inl e ↦ rw (find-append k xs ys, e)
      | inr (x, e) ↦ rw (find-append k xs ys, e, find-right-none k x xs ys u e)
    ]

    -- How the loop ends from index `i` on.
    record Ends (items : List (QueuedAnnouncement A)) (p p' : Progress A) : Type 0 where
      effect :
          (k : String)
          → Dict.get k p'.pending
            ≡ batch_effect c answer clock (find k items) (Dict.get k p.pending)
      counted : p'.success + p'.failed ≡ p.success + p.failed + length items

    Ends-append :
        (xs ys : List (QueuedAnnouncement A)) (p p' : Progress A)
        → UniqueKeys (xs ++ ys)
        → Ends ys (run_batch c answer clock xs p) p'
        → Ends (xs ++ ys) p p'
    Ends-append xs ys p p' u e = record {
      effect = λ k.
          e.effect k
          ∙ ap (batch_effect c answer clock (find k ys))
              (get-run_batch c answer clock k xs p (UniqueKeys-left xs ys u))
          ∙ sym (batch_effect-append k xs ys (Dict.get k p.pending) u);
      counted = omega (arith, e.counted, count-run_batch c answer clock xs p, length-append xs ys);
    }

    add_sub_cancel : (i n : ℕ) → i + n - i ≡ n
    add_sub_cancel i n = omega arith

    flush_from-Ends :
        (fuel i : ℕ) (items : List (QueuedAnnouncement A)) (p : Progress A)
        → 0 < c.flush_batch_size
        → 0 < fuel
        → length items < fuel + i
        → UniqueKeys (drop i items)
        → (p' : Progress A) × (flush_from fuel c answer clock i items p ≡ some p')
          × Ends (drop i items) p p'
    unfolding flush_from find
    flush_from-Ends zero i items p b f h u = absurd (omega arith)
    flush_from-Ends (suc fuel) i items p b f h u = elim (Bool-cases (ltb i (length items))) [
      | inl more ↦
          let size = c.flush_batch_size in
          let batch = slice i (i + size) items in
          let cut : batch ++ drop (i + size) items ≡ drop i items =
            rw (drop-drop i size items)
              (rw (add_sub_cancel i size) (take-append-drop size (drop i items))) in
          let unique = subst UniqueKeys (sym cut) u in
          let (p', found, ends) =
            flush_from-Ends fuel (i + size) items (run_batch c answer clock batch p) b
              (ground arith) (ground arith)
              (UniqueKeys-right batch (drop (i + size) items) unique) in
          (
            p',
            rw (more, flush_from) found,
            subst (λ l. Ends l p p') cut
                (Ends-append batch (drop (i + size) items) p p' unique ends),
          )
      | inr done ↦
          let past : drop i items ≡ [] = drop_past i items (ground arith) in
          (
            p,
            rw (done, flush_from),
            record { effect = λ k. rw past; counted = omega (arith, ap length past) },
          )
    ]

  batch_effect_self :
      (c : Config) (answer : String → A → Outcome) (clock : String → ℕ)
      (entry : Option (QueuedAnnouncement A))
      → batch_effect c answer clock entry entry ≡ after_flush c answer clock entry
  batch_effect_self c answer clock none = refl
  batch_effect_self c answer clock (some item) = refl

  flush_of_loop :
      (answer : String → A → Outcome) (clock : String → ℕ) (q : Queue A) (p : Progress A)
      → q.has_callback ≡ true
      → 0 < Dict.size q.pending_queue
      → flush_from
          (Dict.size q.pending_queue + 1)
          q.config
          answer
          clock
          0
          (Dict.values q.pending_queue)
          (begin_flush q)
        ≡ some p
      → flush answer clock q ≡ some (end_flush q p)
  unfolding flush
  flush_of_loop answer clock q p set_up holds found = ground arith

  -- A flush with a callback and a batch size above zero, of a queue with each entry under its own
  -- key, once, ends. It counts each item once, as a
  -- success or as a failure, and afterwards there is under each key what `after_flush` leaves of
  -- the entry: an item is gone if its announcement was propagated or its attempts are used up,
  -- and is else kept with one attempt more, at its time.
  pub flush_outcomes :
      (answer : String → A → Outcome) (clock : String → ℕ) (q : Queue A)
      → IsWellFormed q
      → q.has_callback ≡ true
      → 0 < q.flush_batch_size
      → (r : Queue A × Progress A) × (flush answer clock q ≡ some r)
        × ((k : String)
            → Dict.get k r.0.pending_queue
              ≡ after_flush q.config answer clock (Dict.get k q.pending_queue))
        × (r.1.success + r.1.failed ≡ Dict.size q.pending_queue)
  unfolding flush find Dict.get
  flush_outcomes answer clock q v set_up positive = of_entries q.pending_queue refl
    where
      of_entries :
          (m : Dict String (QueuedAnnouncement A))
          → q.pending_queue ≡ m
          → (r : Queue A × Progress A) × (flush answer clock q ≡ some r)
            × ((k : String)
                → Dict.get k r.0.pending_queue
                  ≡ after_flush q.config answer clock (Dict.get k q.pending_queue))
            × (r.1.success + r.1.failed ≡ Dict.size q.pending_queue)
      of_entries [] e = ((q, begin_flush q), rw (set_up, e), λ k. rw e, omega (arith, ap length e))
      of_entries (x ∷ m) e =
          let (p', found, ends) =
            flush_from-Ends q.config answer clock (Dict.size q.pending_queue + 1) 0
              (Dict.values q.pending_queue) (begin_flush q) positive (omega arith)
              (omega (arith, length-map q.pending_queue (λ e. e.1)))
              (UniqueKeys-values q.pending_queue v.keyed v.distinct) in
          (
            end_flush q p',
            flush_of_loop answer clock q p' set_up (omega (arith, ap length e)) found,
            λ k.
                ends.effect k
                ∙ ap (λ o. batch_effect q.config answer clock o (Dict.get k q.pending_queue))
                    (find-values k q.pending_queue v.keyed)
                ∙ batch_effect_self q.config answer clock (Dict.get k q.pending_queue),
            omega (arith, ends.counted, length-map q.pending_queue (λ e. e.1)),
          )
