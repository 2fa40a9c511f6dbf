-- ===== src/AnnouncementQueue/Flush.antt =====
-- The flush of lib/dht-queue.ts.
pub mod Find
pub mod Batches
pub mod Outcomes
