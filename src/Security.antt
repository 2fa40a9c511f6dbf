-- ===== src/Security.antt =====
-- lib/security.ts: what the coordinator asks before it announces a resource of a peer.
pub mod Limits
pub mod RateLimiter
pub mod ResourceTracker
pub mod BanManager
pub mod Manager
