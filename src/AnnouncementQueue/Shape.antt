-- ===== src/AnnouncementQueue/Shape.antt =====
-- The keys of the entries of the queue (lib/dht-queue.ts).
use xpi_p2p_ts.Dict
use xpi_p2p_ts.Dict.{Dict}
use xpi_p2p_ts.Dict.Laws.{set-Distinct, delete-Distinct, modify-Distinct}
use xpi_p2p_ts.AnnouncementQueue.{
  QueuedAnnouncement, Queue, Event, evict, make_room, append_new, enqueue, fresh, refresh,
  find_oldest_key, delete_all,
}
use xpi_p2p_ts.Base.{
  ℕ, String, string_key, ◌≡◌, refl, ◌∷◌, [], List, Option, none, some, arith, leb, inl, inr,
  is_nonempty, Bool-cases, Option-cases,
}

module _ {A : Type 0} where
  abbrev pub WellKeyed : Dict String (QueuedAnnouncement A) → Type 0
  WellKeyed [] = Unit
  WellKeyed (x ∷ m) = (x.1.key ≡ x.0) × WellKeyed m

  pub record IsWellFormed (q : Queue A) : Type 0 where
    pub distinct : Dict.Distinct q.pending_queue
    pub keyed : WellKeyed q.pending_queue

  set-WellKeyed :
      (item : QueuedAnnouncement A) (m : Dict String (QueuedAnnouncement A))
      → WellKeyed m
      → WellKeyed (Dict.set item.key item m)
  unfolding Dict.set
  set-WellKeyed item [] w = (refl, tt)
  set-WellKeyed item (x ∷ m) w = ground (arith, set-WellKeyed item m w.1)

  delete-WellKeyed :
      (k : String) (m : Dict String (QueuedAnnouncement A))
      → WellKeyed m
      → WellKeyed (Dict.delete k m)
  unfolding Dict.delete
  delete-WellKeyed k [] w = w
  delete-WellKeyed k (x ∷ m) w = ground (arith, delete-WellKeyed k m w.1)

  pub modify-WellKeyed :
      (k : String) (f : QueuedAnnouncement A → QueuedAnnouncement A)
      (m : Dict String (QueuedAnnouncement A))
      → ((x : QueuedAnnouncement A) → (f x).key ≡ x.key)
      → WellKeyed m
      → WellKeyed (Dict.modify k f m)
  unfolding Dict.modify
  modify-WellKeyed k f [] same w = w
  modify-WellKeyed k f (x ∷ m) same w = ground (arith, same x.1, modify-WellKeyed k f m same w.1)

  pub delete-IsWellFormed :
      (k : String) (q : Queue A)
      → IsWellFormed q
      → IsWellFormed (record q { pending_queue = Dict.delete k q.pending_queue })
  delete-IsWellFormed k q v = record {
    distinct = delete-Distinct k q.pending_queue v.distinct;
    keyed = delete-WellKeyed k q.pending_queue v.keyed;
  }

  evict-IsWellFormed :
      (q : Queue A) (best : Option (String × ℕ)) → IsWellFormed q → IsWellFormed (evict q best).0
  unfolding evict
  evict-IsWellFormed q none v = v
  evict-IsWellFormed q (some (k, t)) v = elim (Bool-cases (is_nonempty k)) [
    | inl e ↦ rw e (delete-IsWellFormed k q v)
    | inr e ↦ rw e v
  ]

  make_room-IsWellFormed : (q : Queue A) → IsWellFormed q → IsWellFormed (make_room q).0
  unfolding make_room
  make_room-IsWellFormed q v =
      elim (Bool-cases (leb q.max_queue_size (Dict.size q.pending_queue))) [
        | inl e ↦ rw e (evict-IsWellFormed q (find_oldest_key q) v)
        | inr e ↦ rw e v
      ]

  append_new-IsWellFormed :
      (k : String) (a : A) (now : ℕ) (r : Queue A × List Event)
      → IsWellFormed r.0
      → IsWellFormed (append_new k a now r).0
  unfolding append_new
  append_new-IsWellFormed k a now (q, events) v = record {
    distinct = set-Distinct k (fresh k a now) q.pending_queue v.distinct;
    keyed = set-WellKeyed (fresh k a now) q.pending_queue v.keyed;
  }

  -- A queue with each entry under its own key, once, is one after any announcement is queued.
  pub enqueue-IsWellFormed :
      (k : String) (a : A) (now : ℕ) (q : Queue A)
      → IsWellFormed q
      → IsWellFormed (enqueue k a now q).0
  unfolding enqueue
  enqueue-IsWellFormed k a now q v = elim (Option-cases (Dict.get k q.pending_queue)) [
    | inl e ↦
        rw (e, enqueue) (append_new-IsWellFormed k a now (make_room q) (make_room-IsWellFormed q v))
    | inr (item, e) ↦
        rw (e, enqueue)
          (record {
            distinct = modify-Distinct k (refresh a now) q.pending_queue v.distinct;
            keyed = modify-WellKeyed k (refresh a now) q.pending_queue (λ x. refl) v.keyed;
          })
  ]

  pub delete_all-WellKeyed :
      (ks : List String) (m : Dict String (QueuedAnnouncement A))
      → WellKeyed m
      → WellKeyed (delete_all ks m)
  unfolding delete_all
  delete_all-WellKeyed [] m w = w
  delete_all-WellKeyed (k ∷ ks) m w =
      delete_all-WellKeyed ks (Dict.delete k m) (delete-WellKeyed k m w)
