-- ===== src/AnnouncementQueue/Flush/Batches.antt =====
-- One batch of a flush, seen under one key.
use mathlib.Core.Option
use xpi_p2p_ts.Dict
use xpi_p2p_ts.Dict.{Dict}
use xpi_p2p_ts.Dict.Laws.{get-modify, get-delete}
use xpi_p2p_ts.AnnouncementQueue.{
  QueuedAnnouncement, Config, Outcome, propagated, refused, threw, Progress, start_attempt,
  mark_started, give_up, settle, settle_all, run_batch,
}
use xpi_p2p_ts.AnnouncementQueue.Flush.Find.{find, UniqueKeys}
use xpi_p2p_ts.Base.{
  ℕ, ◌+◌, String, string_key, String_discrete, ◌≡◌, refl, ◌∷◌, [], List, Option, none, some, arith,
  ite, map, length, length-map, if◌then◌else◌,
}

module _ {A : Type 0} where
  -- What a settled attempt leaves of the entry under the item's key.
  abbrev pub after_settle :
      Config
      → (String → A → Outcome)
      → QueuedAnnouncement A
      → Option (QueuedAnnouncement A)
      → Option (QueuedAnnouncement A)
  after_settle c answer item entry = elim (answer item.key item.announcement) [
    | propagated ↦ none
    | refused ↦ if give_up c item then none else entry
    | threw ↦ if give_up c item then none else entry
  ]

  module _ (clock : String → ℕ) where
    get-mark_started :
        (k : String) (xs : List (QueuedAnnouncement A)) (m : Dict String (QueuedAnnouncement A))
        → UniqueKeys xs
        → Dict.get k (mark_started clock xs m) ≡ elim (find k xs) [
          | none ↦ Dict.get k m
          | some _ ↦ Option.map (start_attempt clock) (Dict.get k m)
        ]
    unfolding mark_started find
    get-mark_started k [] m u = refl
    get-mark_started k (x ∷ xs) m u = ground (
      arith,
      get-mark_started k xs (Dict.modify x.key (start_attempt clock) m) u.1,
      get-modify k x.key (start_attempt clock) m,
    )

    find-start_attempt :
        (k : String) (xs : List (QueuedAnnouncement A))
        → find k (map (start_attempt clock) xs) ≡ Option.map (start_attempt clock) (find k xs)
    unfolding find
    find-start_attempt k [] = refl
    find-start_attempt k (x ∷ xs) = ground (arith, find-start_attempt k xs)

    UniqueKeys-start_attempt :
        (xs : List (QueuedAnnouncement A))
        → UniqueKeys xs
        → UniqueKeys (map (start_attempt clock) xs)
    UniqueKeys-start_attempt [] u = u
    UniqueKeys-start_attempt (x ∷ xs) u =
        (rw (find-start_attempt x.key xs) (rw u.0), UniqueKeys-start_attempt xs u.1)

  module _ (c : Config) (answer : String → A → Outcome) where
    get-settle :
        (k : String) (x : QueuedAnnouncement A) (p : Progress A)
        → Dict.get k (settle c answer x p).pending
          ≡ ite
              (String_discrete x.key k)
              (after_settle c answer x (Dict.get k p.pending))
              (Dict.get k p.pending)
    unfolding settle
    get-settle k x p = ground (arith, get-delete k x.key p.pending)

    get-settle_all :
        (k : String) (xs : List (QueuedAnnouncement A)) (p : Progress A)
        → UniqueKeys xs
        → Dict.get k (settle_all c answer xs p).pending ≡ elim (find k xs) [
          | none ↦ Dict.get k p.pending
          | some x ↦ after_settle c answer x (Dict.get k p.pending)
        ]
    unfolding settle_all find
    get-settle_all k [] p u = refl
    get-settle_all k (x ∷ xs) p u =
        ground (arith, get-settle_all k xs (settle c answer x p) u.1, get-settle k x p)

    -- Each item of a batch is counted once, as a success or as a failure.
    count-settle_all :
        (xs : List (QueuedAnnouncement A)) (p : Progress A)
        → (settle_all c answer xs p).success + (settle_all c answer xs p).failed
          ≡ p.success + p.failed + length xs
    unfolding settle_all settle
    count-settle_all [] p = omega arith
    count-settle_all (x ∷ xs) p = ground (arith, count-settle_all xs (settle c answer x p))

  module _ (c : Config) (answer : String → A → Outcome) (clock : String → ℕ) where
    -- Under the key of an item of the batch: the attempt, then its outcome.
    abbrev pub batch_effect :
        Option (QueuedAnnouncement A)
        → Option (QueuedAnnouncement A)
        → Option (QueuedAnnouncement A)
    batch_effect none entry = entry
    batch_effect (some item) entry =
        after_settle c answer (start_attempt clock item) (Option.map (start_attempt clock) entry)

    pub get-run_batch :
        (k : String) (xs : List (QueuedAnnouncement A)) (p : Progress A)
        → UniqueKeys xs
        → Dict.get k (run_batch c answer clock xs p).pending
          ≡ batch_effect (find k xs) (Dict.get k p.pending)
    unfolding run_batch
    get-run_batch k xs p u = ground (
      arith,
      get-settle_all c answer k (map (start_attempt clock) xs)
          (record p { pending = mark_started clock xs p.pending })
          (UniqueKeys-start_attempt clock xs u),
      find-start_attempt clock k xs,
      get-mark_started clock k xs p.pending u,
    )

    pub count-run_batch :
        (xs : List (QueuedAnnouncement A)) (p : Progress A)
        → (run_batch c answer clock xs p).success + (run_batch c answer clock xs p).failed
          ≡ p.success + p.failed + length xs
    unfolding run_batch
    count-run_batch xs p = ground (
      arith,
      count-settle_all c answer (map (start_attempt clock) xs)
          (record p { pending = mark_started clock xs p.pending }),
      length-map xs (start_attempt clock),
    )
