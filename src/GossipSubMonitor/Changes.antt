-- ===== src/GossipSubMonitor/Changes.antt =====
-- The events of a GossipSubMonitor (lib/gossipsub-monitor.ts) about one topic.
use xpi_p2p_ts.Dict
use xpi_p2p_ts.Dict.Laws.{get-set}
use xpi_p2p_ts.Text.{Text, Text_discrete, text_key}
use xpi_p2p_ts.GossipSubMonitor.{
  TopicMeshHealth, Config, Event, unhealthy, recovered, health_check, Pubsub, Monitor, Emitting,
  measure, change, store_health, check_topic, available, get_topic_mesh_health, Sums, add_up,
  check_topics, check_all, no_sums, overall, get_overall_health,
}
use xpi_p2p_ts.Base.{
  ℕ, suc, ◌+◌, ◌≡◌, refl, sym, ap, true, Option, none, some, List, [], ◌∷◌, ◌++◌, ite, is_some,
  arith, length, if◌then◌else◌,
}

abbrev pub count_unhealthy : Text → List Event → ℕ
count_unhealthy p [] = 0
count_unhealthy p (unhealthy t n least ∷ es) =
    let rest = count_unhealthy p es in ite (Text_discrete t p) (suc rest) rest
count_unhealthy p (recovered t n ∷ es) = count_unhealthy p es
count_unhealthy p (health_check h ∷ es) = count_unhealthy p es

abbrev pub count_recovered : Text → List Event → ℕ
count_recovered p [] = 0
count_recovered p (recovered t n ∷ es) =
    let rest = count_recovered p es in ite (Text_discrete t p) (suc rest) rest
count_recovered p (unhealthy t n least ∷ es) = count_recovered p es
count_recovered p (health_check h ∷ es) = count_recovered p es

count_unhealthy-append :
    (p : Text) (xs ys : List Event)
    → count_unhealthy p (xs ++ ys) ≡ count_unhealthy p xs + count_unhealthy p ys
count_unhealthy-append p [] ys = omega arith
count_unhealthy-append p (unhealthy t n least ∷ xs) ys =
    ground (arith, count_unhealthy-append p xs ys)
count_unhealthy-append p (recovered t n ∷ xs) ys = count_unhealthy-append p xs ys
count_unhealthy-append p (health_check h ∷ xs) ys = count_unhealthy-append p xs ys

count_recovered-append :
    (p : Text) (xs ys : List Event)
    → count_recovered p (xs ++ ys) ≡ count_recovered p xs + count_recovered p ys
count_recovered-append p [] ys = omega arith
count_recovered-append p (recovered t n ∷ xs) ys = ground (arith, count_recovered-append p xs ys)
count_recovered-append p (unhealthy t n least ∷ xs) ys = count_recovered-append p xs ys
count_recovered-append p (health_check h ∷ xs) ys = count_recovered-append p xs ys

abbrev pub weight_of : Option TopicMeshHealth → ℕ
weight_of none = 0
weight_of (some h) = if h.is_healthy then 1 else 0

-- 1 for a topic last found healthy, and 0 otherwise.
abbrev pub weight : Text → Monitor → ℕ
weight p m = weight_of (Dict.get p m.topic_health_cache)

-- The topic has been looked at, and its losses of health, and whether it is healthy, add up with its
-- recoveries and a start.
abbrev IsBalanced : Text → ℕ → Emitting → Type 0
IsBalanced p start (m, events) =
    (count_unhealthy p events + weight p m ≡ count_recovered p events + start)
    × (is_some (Dict.get p m.topic_health_cache) ≡ true)

change_balance :
    (p : Text) (c : Config) (previous health : TopicMeshHealth)
    → health.topic ≡ p
    → count_unhealthy p (change c (some previous) health) + weight_of (some health)
      ≡ count_recovered p (change c (some previous) health) + weight_of (some previous)
change_balance p c previous health e = ground arith

change_elsewhere :
    (p : Text) (c : Config) (o : Option TopicMeshHealth) (health : TopicMeshHealth)
    → (health.topic ≡ p → ⊥)
    → (count_unhealthy p (change c o health) ≡ 0) × (count_recovered p (change c o health) ≡ 0)
change_elsewhere p c none health other = (refl, refl)
change_elsewhere p c (some previous) health other = (ground arith, ground arith)

store_here :
    (p : Text) (start : ℕ) (health : TopicMeshHealth) (e : Emitting) (o : Option TopicMeshHealth)
    → Dict.get p e.0.topic_health_cache ≡ o
    → health.topic ≡ p
    → IsBalanced p start e
    → (count_unhealthy p (e.1 ++ change e.0.config o health) + weight_of (some health)
        ≡ count_recovered p (e.1 ++ change e.0.config o health) + start)
store_here p start health (m, events) none known same b = absurd (ground (arith, b.1))
store_here p start health (m, events) (some previous) known same b =
    let step = change_balance p m.config previous health same in
    let lost = count_unhealthy-append p events (change m.config (some previous) health) in
    let back = count_recovered-append p events (change m.config (some previous) health) in
    let before : weight p m ≡ weight_of (some previous) = ap weight_of known in
    omega (arith, step, lost, back, before, b.0)

store_health-IsBalanced :
    (p : Text) (start : ℕ) (health : TopicMeshHealth) (e : Emitting)
    → IsBalanced p start e
    → IsBalanced p start (store_health health e)
store_health-IsBalanced p start health (m, events) b =
    let cache = m.topic_health_cache in
    elim (Text_discrete health.topic p) [
      | yes same ↦
          let shown : Dict.get p (Dict.set health.topic health cache) ≡ some health =
            ground (arith, get-set p health.topic health cache) in
          let sum =
            store_here p start health (m, events) (Dict.get health.topic cache)
              (ap (λ t. Dict.get t cache) (sym same)) same b in
          rw shown (sum, refl)
      | no other ↦
          let kept : Dict.get p (Dict.set health.topic health cache) ≡ Dict.get p cache =
            ground (arith, get-set p health.topic health cache) in
          let none_here = change_elsewhere p m.config (Dict.get health.topic cache) health other in
          let lost =
            count_unhealthy-append p events
              (change m.config (Dict.get health.topic cache) health) in
          let back =
            count_recovered-append p events
              (change m.config (Dict.get health.topic cache) health) in
          rw kept (omega (arith, lost, back, none_here.0, none_here.1, b.0), b.1)
    ]

check_topic-IsBalanced :
    (p : Text) (start now : ℕ) (pubsub : Option Pubsub) (topic : Text) (e : Emitting)
    → IsBalanced p start e
    → IsBalanced p start (check_topic now pubsub topic e).0
check_topic-IsBalanced p start now none topic e b = b
check_topic-IsBalanced p start now (some pubsub) topic e b =
    store_health-IsBalanced p start (measure now e.0.config pubsub topic) e b

check_topics-IsBalanced :
    (p : Text) (start now : ℕ) (pubsub : Option Pubsub) (topics : List Text) (e : Emitting)
    (t : Sums)
    → IsBalanced p start e
    → IsBalanced p start (check_topics now pubsub topics e t).0
unfolding check_topics get_topic_mesh_health
check_topics-IsBalanced p start now pubsub [] e t b = b
check_topics-IsBalanced p start now pubsub (topic ∷ topics) e t b =
    let (e', health) = get_topic_mesh_health now pubsub topic e in
    check_topics-IsBalanced p start now pubsub topics e' (add_up t health)
      (check_topic-IsBalanced p start now (available pubsub e.0) topic e b)

check_all-IsBalanced :
    (p : Text) (start now : ℕ) (pubsub : Option Pubsub) (e : Emitting)
    → IsBalanced p start e
    → IsBalanced p start (check_all now pubsub e).0
check_all-IsBalanced p start now none e b = b
check_all-IsBalanced p start now (some pubsub) e b =
    let ((m, events), t) = check_topics now (some pubsub) pubsub.topics e no_sums in
    let after = check_topics-IsBalanced p start now (some pubsub) pubsub.topics e no_sums b in
    let health = overall (length pubsub.topics) t in
    let lost = count_unhealthy-append p events (health_check health ∷ []) in
    let back = count_recovered-append p events (health_check health ∷ []) in
    (omega (arith, lost, back, after.0), after.1)

-- A look at one topic, or at all.
pub data Check : Type 0 where
  one : ℕ → Option Pubsub → Text → Check
  all : ℕ → Option Pubsub → Check

unfoldable pub run : List Check → Emitting → Emitting
run [] e = e
run (one now pubsub topic ∷ cs) e = run cs (get_topic_mesh_health now pubsub topic e).0
run (all now pubsub ∷ cs) e = run cs (get_overall_health now pubsub e).0

run-IsBalanced :
    (p : Text) (start : ℕ) (cs : List Check) (e : Emitting)
    → IsBalanced p start e
    → IsBalanced p start (run cs e)
unfolding run get_topic_mesh_health get_overall_health
run-IsBalanced p start [] e b = b
run-IsBalanced p start (one now pubsub topic ∷ cs) e b =
    run-IsBalanced p start cs _
      (check_topic-IsBalanced p start now (available pubsub e.0) topic e b)
run-IsBalanced p start (all now pubsub ∷ cs) e b =
    run-IsBalanced p start cs _ (check_all-IsBalanced p start now (available pubsub e.0) e b)

-- For a topic that has been looked at, the losses and recoveries that are announced alternate, whatever
-- topics are looked at in whatever order: the losses, and 1 if the topic is found healthy in the end,
-- are as many as the recoveries, and 1 if it was healthy at the start.
pub run-alternates :
    (p : Text) (cs : List Check) (m : Monitor)
    → is_some (Dict.get p m.topic_health_cache) ≡ true
    → count_unhealthy p (run cs (m, [])).1 + weight p (run cs (m, [])).0
      ≡ count_recovered p (run cs (m, [])).1 + weight p m
run-alternates p cs m known = (run-IsBalanced p (weight p m) cs (m, []) (refl, known)).0
