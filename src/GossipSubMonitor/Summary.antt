-- ===== src/GossipSubMonitor/Summary.antt =====
-- What a GossipSubMonitor (lib/gossipsub-monitor.ts) reports of all topics.
use mathlib.Core.List.{append-nil, append_assoc}
use xpi_p2p_ts.Dict
use xpi_p2p_ts.Dict.Laws.{get-set}
use xpi_p2p_ts.Text.{Text, Text_discrete, text_key}
use xpi_p2p_ts.GossipSubMonitor.{
  TopicMeshHealth, Pubsub, Monitor, Emitting, Sums, measure, Event, check_topic, check_all,
  store_health, add_up, no_sums, check_topics, get_topic_mesh_health, get_overall_health,
}
use xpi_p2p_ts.Base.{
  ℕ, ◌+◌, ◌≡◌, refl, sym, ap, ◌∙◌, subst, Bool, true, false, Option, none, some, List, [], ◌∷◌,
  ◌++◌, map, keep, length, ite, if◌then◌else◌, arith,
}

abbrev pub is_among : Text → List Text → Bool
is_among p [] = false
is_among p (t ∷ ts) = let rest = is_among p ts in ite (Text_discrete t p) true rest

abbrev pub healthy_of : List TopicMeshHealth → ℕ
healthy_of hs = length (keep (λ (h : TopicMeshHealth). h.is_healthy) hs)

abbrev pub mesh_of : List TopicMeshHealth → ℕ
mesh_of [] = 0
mesh_of (h ∷ hs) = h.mesh_peers + mesh_of hs

-- What a loop over the topics adds to the sums, and to the cache.
record Adds (now : ℕ) (pubsub : Pubsub) (topics : List Text) (e : Emitting) (t : Sums)
    (r : Emitting × Sums) : Type 0 where
  healths : r.1.healths ≡ t.healths ++ map (measure now e.0.config pubsub) topics
  healthy : r.1.healthy ≡ t.healthy + healthy_of (map (measure now e.0.config pubsub) topics)
  both : r.1.healthy + r.1.unhealthy ≡ t.healthy + t.unhealthy + length topics
  mesh : r.1.mesh_peers ≡ t.mesh_peers + mesh_of (map (measure now e.0.config pubsub) topics)
  cache :
      (p : Text)
      → Dict.get p r.0.0.topic_health_cache ≡ (
          if is_among p topics
          then some (measure now e.0.config pubsub p)
          else Dict.get p e.0.topic_health_cache)

check_topics-Adds :
    (now : ℕ) (pubsub : Pubsub) (topics : List Text) (e : Emitting) (t : Sums)
    → e.0.has_node ≡ true
    → Adds now pubsub topics e t (check_topics now (some pubsub) topics e t)
unfolding check_topics get_topic_mesh_health
check_topics-Adds now pubsub [] e t node = record {
  healths = sym (append-nil t.healths);
  healthy = omega arith;
  both = omega arith;
  mesh = omega arith;
  cache = λ p. refl;
}
check_topics-Adds now pubsub (topic ∷ topics) (m, events) t node =
    let health = measure now m.config pubsub topic in
    let stored = store_health health (m, events) in
    let looked : get_topic_mesh_health now (some pubsub) topic (m, events) ≡ (stored, health) =
      ap (λ (o : Option Pubsub). check_topic now o topic (m, events))
        (ap (λ b. if b then some pubsub else none) node) in
    let r = check_topics-Adds now pubsub topics stored (add_up t health) node in
    subst
      (λ (q : Emitting × TopicMeshHealth).
        Adds now pubsub (topic ∷ topics) (m, events) t
          (check_topics now (some pubsub) topics q.0 (add_up t q.1)))
      (sym looked)
      (record {
        healths =
            r.healths
            ∙ append_assoc t.healths (health ∷ []) (map (measure now m.config pubsub) topics);
        healthy = ground (arith, r.healthy);
        both = ground (arith, r.both);
        mesh = omega (arith, r.mesh);
        cache = λ p. ground (arith, r.cache p, get-set p topic health m.topic_health_cache);
      })

-- With a node and its service, the report lists a measurement of each topic in turn and counts them. The
-- healthy and the unhealthy are together all, the healthy are those with as many peers as are asked
-- for, and the peers are added up. The cache then has the measurement of each of the topics, and what
-- it had of others.
pub get_overall_health_lem :
    (now : ℕ) (pubsub : Pubsub) (m : Monitor) (events : List Event)
    → m.has_node ≡ true
    → let (e, h) = get_overall_health now (some pubsub) (m, events) in
      (h.topics ≡ map (measure now m.config pubsub) pubsub.topics)
      × (h.total_topics ≡ length pubsub.topics)
      × (h.healthy_topics ≡ healthy_of h.topics)
      × (h.healthy_topics + h.unhealthy_topics ≡ h.total_topics)
      × (h.total_mesh_peers ≡ mesh_of h.topics)
      × ((p : Text)
          → Dict.get p e.0.topic_health_cache ≡ (
              if is_among p pubsub.topics
              then some (measure now m.config pubsub p)
              else Dict.get p m.topic_health_cache))
unfolding get_overall_health
get_overall_health_lem now pubsub m events node =
    let r = check_topics-Adds now pubsub pubsub.topics (m, events) no_sums node in
    subst
      (λ (o : Option Pubsub).
        let (e, h) = check_all now o (m, events) in
        (h.topics ≡ map (measure now m.config pubsub) pubsub.topics)
        × (h.total_topics ≡ length pubsub.topics)
        × (h.healthy_topics ≡ healthy_of h.topics)
        × (h.healthy_topics + h.unhealthy_topics ≡ h.total_topics)
        × (h.total_mesh_peers ≡ mesh_of h.topics)
        × ((p : Text)
            → Dict.get p e.0.topic_health_cache ≡ (
                if is_among p pubsub.topics
                then some (measure now m.config pubsub p)
                else Dict.get p m.topic_health_cache)))
      (ap (λ b. if b then some pubsub else none) (sym node))
      (
        r.healths,
        refl,
        omega (arith, r.healthy, ap healthy_of r.healths),
        omega (arith, r.both),
        omega (arith, r.mesh, ap mesh_of r.healths),
        r.cache,
      )
