-- ===== src/GossipSubMonitor/Tests.antt =====
-- Runs of lib/gossipsub-monitor.ts with one topic.
use xpi_p2p_ts.Dict
use xpi_p2p_ts.Text.{Text, literal, text_key, Text_discrete}
use xpi_p2p_ts.GossipSubMonitor.{
  Pubsub, Monitor, create, default_config, measure, get_topic_mesh_health, get_overall_health,
}
use xpi_p2p_ts.GossipSubMonitor.Changes.{
  Check, one, all, run, count_unhealthy, count_recovered, weight, run-alternates,
}
use xpi_p2p_ts.GossipSubMonitor.Summary.{is_among, healthy_of, mesh_of, get_overall_health_lem}
use xpi_p2p_ts.Base.{ℕ, ◌+◌, ◌≡◌, refl, true, some, List, [], ◌∷◌, map, if◌then◌else◌}

abbrev blocks : Text
blocks = literal "blocks"

-- A network in which the topic has so many subscribers.
abbrev with_peers : ℕ → Pubsub
with_peers n = record { topics = blocks ∷ []; subscribers = λ t. n }

-- The topic was healthy when it was looked at last.
abbrev monitor : Monitor
monitor = record (create default_config) {
  has_node = true;
  topic_health_cache = (blocks, measure 1000 default_config (with_peers 3) blocks) ∷ [];
}

-- It loses its peers, and gets them back.
abbrev checks : List Check
checks =
    one 2000 (some (with_peers 1)) blocks
    ∷ one 3000 (some (with_peers 0)) blocks
    ∷ all 4000 (some (with_peers 2))
    ∷ []

announces_once : count_unhealthy blocks (run checks (monitor, [])).1 ≡ 1
unfolding run get_topic_mesh_health get_overall_health Dict.get Dict.set Text_discrete
announces_once = refl

run-alternates_example :
    count_unhealthy blocks (run checks (monitor, [])).1 + weight blocks (run checks (monitor, [])).0
    ≡ count_recovered blocks (run checks (monitor, [])).1 + weight blocks monitor
unfolding Dict.get Text_discrete
run-alternates_example = run-alternates blocks checks monitor refl

get_overall_health_lem_example :
    let (e, h) = get_overall_health 4000 (some (with_peers 2)) (monitor, []) in
    (h.topics ≡ map (measure 4000 default_config (with_peers 2)) (blocks ∷ []))
    × (h.total_topics ≡ 1)
    × (h.healthy_topics ≡ healthy_of h.topics)
    × (h.healthy_topics + h.unhealthy_topics ≡ h.total_topics)
    × (h.total_mesh_peers ≡ mesh_of h.topics)
    × ((p : Text)
        → Dict.get p e.0.topic_health_cache ≡ (
            if is_among p (blocks ∷ [])
            then some (measure 4000 default_config (with_peers 2) p)
            else Dict.get p monitor.topic_health_cache))
get_overall_health_lem_example = get_overall_health_lem 4000 (with_peers 2) monitor [] refl
