-- ===== src/GossipSubMonitor.antt =====
-- GossipSubMonitor of lib/gossipsub-monitor.ts. What libp2p tells of its topics is the record Pubsub, an
-- argument of each call, as is `Date.now()`.
pub mod Summary
pub mod Changes
mod Tests
use xpi_p2p_ts.Dict
use xpi_p2p_ts.Dict.{Dict}
use xpi_p2p_ts.Text.{Text, text_key}
use xpi_p2p_ts.Base.{
  ℕ, ◌+◌, leb, not, ◌&&◌, Bool, true, false, Option, none, some, List, [], ◌∷◌, ◌++◌, length,
  if◌then◌else◌,
}

pub record TopicMeshHealth : Type 0 where
  pub topic : Text
  pub mesh_peers : ℕ
  pub fanout_peers : ℕ
  pub subscriber_count : ℕ
  pub is_healthy : Bool
  pub last_checked : ℕ

pub record GossipSubHealth : Type 0 where
  pub is_enabled : Bool
  pub total_topics : ℕ
  pub healthy_topics : ℕ
  pub unhealthy_topics : ℕ
  pub total_mesh_peers : ℕ
  pub topics : List TopicMeshHealth

pub record Config : Type 0 where
  pub min_mesh_peers : ℕ
  pub health_check_interval : ℕ
  pub auto_health_check : Bool

abbrev pub default_config : Config
default_config = record {
  min_mesh_peers = 2;
  health_check_interval = 30000;
  auto_health_check = true;
}

-- `mesh:healthy`, which is declared too, is never emitted.
pub data Event : Type 0 where
  unhealthy : Text → ℕ → ℕ → Event
  recovered : Text → ℕ → Event
  health_check : GossipSubHealth → Event

-- The topics, and how many subscribers each has.
pub record Pubsub : Type 0 where
  pub topics : List Text
  pub subscribers : Text → ℕ

pub record Monitor : Type 0 where
  pub has_node : Bool
  pub config : Config
  pub has_health_check : Bool
  pub topic_health_cache : Dict Text TopicMeshHealth
  pub is_started : Bool

abbrev pub create : Config → Monitor
create c = record {
  has_node = false;
  config = c;
  has_health_check = false;
  topic_health_cache = [];
  is_started = false;
}

unfoldable pub initialize : Monitor → Monitor
initialize m = record m { has_node = true }

-- `none` is the error of a monitor without a node.
pub start : Monitor → Option Monitor
start m =
    if m.has_node
    then some (
        if m.is_started then m else record m {
          is_started = true;
          has_health_check = if m.config.auto_health_check then true else m.has_health_check;
        })
    else none

unfoldable pub stop : Monitor → Monitor
stop m = record m { is_started = false; has_health_check = false; topic_health_cache = [] }

abbrev pub Emitting : Type 0
Emitting = Monitor × List Event

abbrev pub no_health : ℕ → Text → TopicMeshHealth
no_health now topic = record {
  topic = topic;
  mesh_peers = 0;
  fanout_peers = 0;
  subscriber_count = 0;
  is_healthy = false;
  last_checked = now;
}

abbrev pub measure : ℕ → Config → Pubsub → Text → TopicMeshHealth
measure now c pubsub topic = record {
  topic = topic;
  mesh_peers = pubsub.subscribers topic;
  fanout_peers = 0;
  subscriber_count = pubsub.subscribers topic;
  is_healthy = leb c.min_mesh_peers (pubsub.subscribers topic);
  last_checked = now;
}

-- The event of a topic whose health is another than before.
abbrev pub change : Config → Option TopicMeshHealth → TopicMeshHealth → List Event
change c none health = []
change c (some previous) health =
    if not previous.is_healthy && health.is_healthy
    then recovered health.topic health.mesh_peers ∷ []
    else if previous.is_healthy && not health.is_healthy
    then unhealthy health.topic health.mesh_peers c.min_mesh_peers ∷ []
    else []

abbrev pub store_health : TopicMeshHealth → Emitting → Emitting
store_health health (m, events) = (
  record m { topic_health_cache = Dict.set health.topic health m.topic_health_cache },
  events ++ change m.config (Dict.get health.topic m.topic_health_cache) health,
)

-- With a node that has the service `pubsub`.
abbrev pub available : Option Pubsub → Monitor → Option Pubsub
available pubsub m = if m.has_node then pubsub else none

abbrev pub check_topic : ℕ → Option Pubsub → Text → Emitting → Emitting × TopicMeshHealth
check_topic now none topic e = (e, no_health now topic)
check_topic now (some pubsub) topic e =
    let health = measure now e.0.config pubsub topic in (store_health health e, health)

unfoldable pub get_topic_mesh_health :
    ℕ → Option Pubsub → Text → Emitting → Emitting × TopicMeshHealth
get_topic_mesh_health now pubsub topic e = check_topic now (available pubsub e.0) topic e

-- What the loop over the topics adds up.
pub record Sums : Type 0 where
  pub healths : List TopicMeshHealth
  pub healthy : ℕ
  pub unhealthy : ℕ
  pub mesh_peers : ℕ

abbrev pub add_up : Sums → TopicMeshHealth → Sums
add_up t health = record {
  healths = t.healths ++ health ∷ [];
  healthy = if health.is_healthy then t.healthy + 1 else t.healthy;
  unhealthy = if health.is_healthy then t.unhealthy else t.unhealthy + 1;
  mesh_peers = t.mesh_peers + health.mesh_peers;
}

unfoldable pub check_topics : ℕ → Option Pubsub → List Text → Emitting → Sums → Emitting × Sums
unfolding get_topic_mesh_health
check_topics now pubsub [] e t = (e, t)
check_topics now pubsub (topic ∷ topics) e t =
    let (e', health) = get_topic_mesh_health now pubsub topic e in
    check_topics now pubsub topics e' (add_up t health)

abbrev pub no_sums : Sums
no_sums = record { healths = []; healthy = 0; unhealthy = 0; mesh_peers = 0 }

abbrev pub disabled : GossipSubHealth
disabled = record {
  is_enabled = false;
  total_topics = 0;
  healthy_topics = 0;
  unhealthy_topics = 0;
  total_mesh_peers = 0;
  topics = [];
}

abbrev pub overall : ℕ → Sums → GossipSubHealth
overall count t = record {
  is_enabled = true;
  total_topics = count;
  healthy_topics = t.healthy;
  unhealthy_topics = t.unhealthy;
  total_mesh_peers = t.mesh_peers;
  topics = t.healths;
}

abbrev pub check_all : ℕ → Option Pubsub → Emitting → Emitting × GossipSubHealth
check_all now none e = (e, disabled)
check_all now (some pubsub) e =
    let ((m, events), t) = check_topics now (some pubsub) pubsub.topics e no_sums in
    let health = overall (length pubsub.topics) t in
    ((m, events ++ health_check health ∷ []), health)

-- Also the periodic check, and `forceHealthCheck`.
unfoldable pub get_overall_health : ℕ → Option Pubsub → Emitting → Emitting × GossipSubHealth
unfolding check_topics
get_overall_health now pubsub e = check_all now (available pubsub e.0) e

pub is_topic_healthy : ℕ → Option Pubsub → Text → Emitting → Emitting × Bool
is_topic_healthy now pubsub topic e =
    let (e', health) = get_topic_mesh_health now pubsub topic e in (e', health.is_healthy)

pub get_monitored_topics : Monitor → List Text
get_monitored_topics m = Dict.keys m.topic_health_cache
