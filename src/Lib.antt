-- ===== src/Lib.antt =====
-- Verification of xpi-p2p-ts: the components of the library that decide by themselves, without the
-- network. Paths are from the repository's root.
--
-- The program and its parts. A node announces resources in a DHT, broadcasts messages and takes
-- part in MuSig2 signing sessions. What is announced while the routing table is empty waits in the
-- announcement queue (lib/dht-queue.ts). What other peers announce goes through the core security
-- manager (lib/security.ts), which asks the ban manager, the rate limiter, the resource tracker and
-- the validator of the protocol, in that order. Advertisements found in the DHT are validated by
-- the discovery security (lib/discovery/security.ts). The bootstrap manager (lib/bootstrap-
-- manager.ts) keeps up the connections to the peers through which a node joins the network, and the
-- GossipSub monitor (lib/gossipsub-monitor.ts) watches how many peers each topic has.
--   The protocol handler of MuSig2 (lib/musig2/protocol.ts) takes each message through the security
-- validator (lib/musig2/security.ts), the message signer (lib/musig2/message-signing.ts), the
-- replay protection (lib/musig2/replay-protection.ts) and the validators of payloads
-- (lib/musig2/validation.ts) before it hands the payload on; points, keys and signatures of
-- payloads are written and read by lib/musig2/serialization.ts, and so are whole sessions for
-- lib/musig2/session-persistence.ts, which stores and reloads them. A session's coordinator and its
-- successors come from the election (lib/musig2/election.ts), and operations on a session take its
-- lock (lib/musig2/session-lock.ts).
--
-- The files.
--   Base                shared names: native numbers, texts, Boolean tests, lists, keys of maps.
--   Dict                JavaScript's Map and Set, with their laws.
--   Sorting             a stable sort, for Array.prototype.sort.
--   Text, Value         JavaScript's texts as code units, with hexadecimal, decimal and UTF-8, and
--                       the values that a message can hold.
--   Outcome             a call that returns or throws, and the chains of such calls.
--   AnnouncementQueue   DHTAnnouncementQueue: `Queue` is its state, `enqueue`, `flush`, `remove`,
--                       `clear` and `cleanup_expired` its methods. Events are returned in a list.
--   Replay              ReplayProtection: `validate_message`, `cleanup`, `clear_session` and the
--                       sequence numbers. Replay.Window has the runs of these.
--   Security            Limits, RateLimiter, ResourceTracker, BanManager and Manager, one for each
--                       constant or class of lib/security.ts.
--   Election            electCoordinator with its four methods; Election.Succession has the backups
--                       and getCoordinatorPriorityList.
--   SessionLock         SessionLock, its callers and their interleavings as the relation `Step`.
--   DiscoverySecurity   DiscoverySecurityValidator; Policy has the policies, Validation has
--                       validateAdvertisement.
--   SigningSecurity     MuSig2SecurityValidator of lib/musig2/security.ts.
--   Serialization       the functions of lib/musig2/serialization.ts.
--   Validation          the validators of fields of lib/musig2/validation.ts; Validation.Payloads has
--                       those of payloads and messages.
--   MessageSigning      MuSig2MessageSigner: `sign_message`, `verify_message`, `get_signature_data`.
--   ProtocolHandler     MuSig2ProtocolHandler: `handle_message` with its steps, `check_security` to
--                       `check_structure`.
--   SessionPersistence  SessionPersistence: `serialize` and `deserialize`; Store has the storage in
--                       memory, `save`, `load` and `cleanup_expired`.
--   BootstrapManager    BootstrapManager: its state and `schedule_reconnect`; Operations has the calls
--                       that change it, Run their sequences as the relation `Step`.
--   GossipSubMonitor    GossipSubMonitor: `get_topic_mesh_health` and `get_overall_health`.
-- In each folder the modules below a component are named for what they prove; Tests are runs on
-- small inputs, and Toy a stand-in for a library that these runs use.
--
-- How the code is modelled. A method takes the object and returns it changed, together with its
-- answer and its events. `Date.now()` is an argument, a number of milliseconds; a comparison of a
-- difference of times is written as a sum, so that nothing is cut off at zero. A missing value is
-- an Option, a thrown error is `none` or a constructor of its own. A text or number that the code
-- tests for truth is tested for being empty or zero. A method that awaits is one step, except for
-- `acquire` of the lock, whose await is what its module is about, for the batches of a flush, of
-- which all items are started before the first one is settled, and for the dials of the bootstrap
-- manager, whose ends are steps of their own. A number in a message is whole or not finite. The
-- jitter of the bootstrap manager and its random draws are in thousandths.
--
-- Bounds and fuel. Numbers are not bounded: times, counts and sizes stay far below 2^53.
-- `flush_from` gets one unit of fuel for each item and one more, since each round takes an item
-- when the batch size is above zero; with a batch size of zero the code loops for ever.
-- `priority_loop` gets one round for each signer and one more: each round adds an index below their
-- number, or ends. The `digits` of a number get the number and one more: each step divides by ten.
--
-- Third-party code is a parameter: the flush callback, the protocol's validators, Math.ceil(n *
-- 0.1) in floating point (its one hypothesis is that it is above zero for n above zero), public
-- keys with their bytes, sha256, localeCompare, the Schnorr check, JSON.stringify, whether libp2p
-- can parse an address, and the distance of two places. Equal bytes of public keys mean equal keys,
-- where a theorem asks for that. The arithmetic of xpi-ts is the record Bitcore; where a round trip
-- needs it, points and keys are read back from the bytes that were written for them (IsFaithful),
-- and so are numbers (AreNumbersFaithful). Its signatures are the record Schnorr; where a theorem
-- needs it, what a key signs is accepted for its public key (IsSound).
--
-- Not modelled: timers (a flag, a delay or nothing), console output, statistics, the coordinators
-- and all that speaks to libp2p, the cryptography of MuSig2, the P2P protocol's encoding, what the
-- bootstrap manager sends over streams, and concurrent calls of one manager while a protocol's
-- validator is awaited.
pub mod Base
pub mod Dict
pub mod AnnouncementQueue
pub mod Replay
pub mod Security
pub mod Sorting
pub mod Serialization
pub mod Validation
pub mod GossipSubMonitor
pub mod MessageSigning
pub mod ProtocolHandler
pub mod BootstrapManager
pub mod Text
pub mod Outcome
pub mod Value
pub mod Election
pub mod SessionLock
pub mod SessionPersistence
pub mod DiscoverySecurity
pub mod SigningSecurity
