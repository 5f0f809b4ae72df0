-- ===== src/Captured.antt =====
-- The captured sessions (magicvault-core/src/store.rs, injection.rs, session.rs): cookies, the fields
-- that keep a capture, the partition, the leases and the sessions that are replayed from it.
pub mod Cookies
pub mod Fields
pub mod Expiry
pub mod Partition
pub mod Session
pub mod Storing
pub mod Replay
pub mod Leases
pub mod Eviction
pub mod Publication
pub mod Paths
pub mod Hosts
pub mod Applicable
pub mod Filtering
pub mod Marks
pub mod Stale
pub mod Prefixes
pub mod CookieKeys
pub mod Kept
