-- ===== src/DiscoverySecurity.antt =====
-- DiscoverySecurityValidator and the policies of lib/discovery/security.ts, with the types of
-- lib/discovery/types.ts. Third-party code is in Platform: the signature check, JSON.stringify and
-- the distance of two places, which is floating-point. `Date.now()` is an argument.
pub mod Policy
pub mod Reputation
pub mod RateLimit
pub mod Validation
mod Tests
use Prim.Native.String.{◌++◌ as text_append}
use text.Mathlib.Text.{◌==◌ as same_text}
use xpi_p2p_ts.Dict
use xpi_p2p_ts.Dict.{Dict}
use xpi_p2p_ts.DiscoverySecurity.Policy.{SecurityPolicy, Verdict}
use xpi_p2p_ts.Base.{
  ℕ, ◌+◌, ◌-◌, ◌*◌, ltb, leb, is_nonzero, if◌then◌else◌, not, ◌&&◌, String, string_key, Bool, true,
  false, Option, none, some, List, [], ◌∷◌, ◌++◌, every, drop, length,
}

pub record PeerInfo (PublicKey : Type 0) : Type 0 where
  pub peer_id : String
  pub multiaddrs : Option (List String)
  pub public_key : Option PublicKey

pub record Advertisement (PublicKey Signature Place Json : Type 0) : Type 0 where
  pub id : String
  pub protocol : String
  pub peer_info : PeerInfo PublicKey
  pub capabilities : List String
  pub signature : Option Signature
  pub created_at : ℕ
  pub expires_at : ℕ
  pub reputation : ℕ
  pub custom_criteria : Option Json
  pub location : Option Place

-- The fields that validation reads; the location with its radius.
pub record Criteria (Area : Type 0) : Type 0 where
  pub protocol : String
  pub capabilities : Option (List String)
  pub min_reputation : Option ℕ
  pub location : Option Area

pub record Platform (PublicKey Signature Place Area Json : Type 0) : Type 0 where
  pub show_number : ℕ → String
  pub stringify_list : List String → String
  pub stringify : Json → String
  -- Whether the signature of a text is one by the key; nothing where the code throws.
  pub schnorr_verify : String → Signature → PublicKey → Option Bool
  -- `distance > radiusKm`
  pub is_beyond : Area → Place → Bool

pub record Interaction : Type 0 where
  pub timestamp : ℕ
  pub success : Bool
  pub weight : ℕ
  pub reason : Option String

pub record ReputationData : Type 0 where
  pub peer_id : String
  pub score : ℕ
  pub successes : ℕ
  pub failures : ℕ
  pub last_interaction : ℕ
  pub history : List Interaction

pub record Tracker : Type 0 where
  pub count : ℕ
  pub window_start : ℕ

pub record Validator (Ad : Type 0) : Type 0 where
  pub reputation_data : Dict String ReputationData
  pub seen_advertisements : Dict String ℕ
  pub rate_limit_tracker : Dict String Tracker
  pub policy : SecurityPolicy Ad

-- Which checks failed, and what they cost: the code's `securityScore` is 100 less the penalty.
pub record Result : Type 0 where
  pub valid : Bool
  pub penalty : ℕ
  pub error : Option String
  pub signature_valid : Bool
  pub not_expired : Bool
  pub reputation_acceptable : Bool
  pub criteria_match : Bool
  pub custom_validation : Bool

pub data Operation : Type 0 where
  advertise : Operation
  discover : Operation

abbrev pub operation_name : Operation → String
operation_name Operation.advertise = "advertise"
operation_name Operation.discover = "discover"

abbrev pub neutral : ℕ → String → ReputationData
neutral now peer = record {
  peer_id = peer;
  score = 75;
  successes = 0;
  failures = 0;
  last_interaction = now;
  history = [];
}

abbrev pub cap : ℕ → ℕ → ℕ
cap most n = if leb n most then n else most

-- `slice(-100)` of a longer history.
abbrev pub limit_history : List Interaction → List Interaction
limit_history h = if ltb 100 (length h) then drop (length h - 100) h else h

abbrev pub interact : ℕ → Bool → ℕ → Option String → ReputationData → ReputationData
interact now ok weight why r =
    let made : Interaction = record {
      timestamp = now;
      success = ok;
      weight = weight;
      reason = why;
    } in
    record {
      peer_id = r.peer_id;
      score = if ok then cap 100 (r.score + weight * 2) else r.score - weight * 5;
      successes = if ok then r.successes + weight else r.successes;
      failures = if ok then r.failures else r.failures + weight;
      last_interaction = now;
      history = limit_history (r.history ++ made ∷ []);
    }

-- More than 7 days old.
abbrev pub is_old : ℕ → ℕ → Bool
is_old now time = ltb (time + 7 * 24 * 60 * 60 * 1000) now

-- `${peerId}:${operation}`
abbrev pub rate_key : String → Operation → String
rate_key peer op = text_append peer (text_append ":" (operation_name op))

-- The tracker of the window that runs, if one does.
abbrev pub tracker_at : ℕ → ℕ → Option Tracker → Tracker
tracker_at now window none = record { count = 0; window_start = now }
tracker_at now window (some t) =
    if ltb (t.window_start + window) now then record { count = 0; window_start = now } else t

module _ {Ad : Type 0} where
  pub init : SecurityPolicy Ad → Validator Ad
  init p = record {
    reputation_data = [];
    seen_advertisements = [];
    rate_limit_tracker = [];
    policy = p;
  }

  unfoldable pub get_reputation : ℕ → String → Validator Ad → Validator Ad × ReputationData
  get_reputation now peer v = elim (Dict.get peer v.reputation_data) [
    | some r ↦ (v, r)
    | none ↦ (
      record v { reputation_data = Dict.set peer (neutral now peer) v.reputation_data },
      neutral now peer,
    )
  ]

  pub update_reputation : ℕ → String → Bool → ℕ → Option String → Validator Ad → Validator Ad
  update_reputation now peer ok weight why v =
      let (v', r) = get_reputation now peer v in
      record v' {
        reputation_data = Dict.set peer (interact now ok weight why r) v'.reputation_data;
      }

  abbrev pub max_operations : Operation → SecurityPolicy Ad → ℕ
  max_operations Operation.advertise p = p.rate_limits.max_advertisements_per_peer
  max_operations Operation.discover p = p.rate_limits.max_discovery_queries_per_peer

  -- The tracker is written back with its count, also where the operation is refused.
  unfoldable pub check_rate_limit : ℕ → String → Operation → Validator Ad → Validator Ad × Bool
  check_rate_limit now peer op v =
      let key = rate_key peer op in
      let window = v.policy.rate_limits.window_size_ms in
      let t = tracker_at now window (Dict.get key v.rate_limit_tracker) in
      let full = leb (max_operations op v.policy) (t.count) in
      let counted = if full then t else record t { count = t.count + 1 } in
      if not v.policy.enable_rate_limiting
      then (v, true)
      else (record v { rate_limit_tracker = Dict.set key counted v.rate_limit_tracker }, not full)

  -- The loops over copies of the entries.
  unfoldable pub cleanup : ℕ → Validator Ad → Validator Ad
  cleanup now v = record v {
    reputation_data =
        Dict.sweep (λ (r : ReputationData). is_old now (r.last_interaction)) v.reputation_data;
    seen_advertisements = Dict.sweep (is_old now) v.seen_advertisements;
    rate_limit_tracker =
        Dict.sweep
          (λ (t : Tracker). ltb (t.window_start + v.policy.rate_limits.window_size_ms * 2) now)
          v.rate_limit_tracker;
  }

module _ {PublicKey Signature Place Area Json : Type 0}
    (lib : Platform PublicKey Signature Place Area Json) where
  -- The parts of the signed message, one after the other.
  pub construct_signed_message : Advertisement PublicKey Signature Place Json → String
  construct_signed_message ad = text_append (ad.peer_info.peer_id) (
      text_append (elim (ad.peer_info.multiaddrs) [ none ↦ "" | some a ↦ lib.stringify_list a ])
        (text_append (ad.protocol) (
          text_append (lib.stringify_list (ad.capabilities)) (
            text_append (lib.show_number (ad.created_at)) (
              text_append (lib.show_number (ad.expires_at))
                (elim (ad.custom_criteria) [ none ↦ "" | some c ↦ lib.stringify c ]))))))

  pub validate_signature : Advertisement PublicKey Signature Place Json → Bool
  validate_signature ad = elim (ad.signature) [
    | none ↦ false
    | some sig ↦ elim (ad.peer_info.public_key) [
      | none ↦ false
      | some key ↦ elim (lib.schnorr_verify (construct_signed_message ad) sig key) [
        | none ↦ false
        | some ok ↦ ok
      ]
    ]
  ]

  -- `${peerId}:${id}`
  abbrev pub seen_key : Advertisement PublicKey Signature Place Json → String
  seen_key ad = text_append (ad.peer_info.peer_id) (text_append ":" (ad.id))

  abbrev pub is_replay : ℕ → Option ℕ → Bool
  is_replay created none = false
  is_replay created (some seen) = is_nonzero seen && leb created seen

  -- Whether the advertisement is a replay; one that is not is recorded.
  unfoldable pub check_replay_attack :
      Advertisement PublicKey Signature Place Json → Dict String ℕ → Dict String ℕ × Bool
  check_replay_attack ad seen =
      if is_replay (ad.created_at) (Dict.get (seen_key ad) seen)
      then (seen, true)
      else (Dict.set (seen_key ad) (ad.created_at) seen, false)

  abbrev pub includes_text : String → List String → Bool
  includes_text s [] = false
  includes_text s (t ∷ ts) = let rest = includes_text s ts in if same_text t s then true else rest

  -- A minimum of 0 is none, as the code's test has it.
  abbrev pub validate_criteria_match :
      Advertisement PublicKey Signature Place Json → Criteria Area → Bool
  validate_criteria_match ad c =
      same_text (ad.protocol) (c.protocol)
      && elim (c.capabilities) [
        | none ↦ true
        | some wanted ↦ every (λ w. includes_text w (ad.capabilities)) wanted
      ]
      && elim (c.min_reputation) [
        | none ↦ true
        | some least ↦ not (is_nonzero least && ltb (ad.reputation) least)
      ]
      && elim (c.location) [
        | none ↦ true
        | some area ↦ elim (ad.location) [
          | none ↦ true
          | some place ↦ not (lib.is_beyond area place)
        ]
      ]
