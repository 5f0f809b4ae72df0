-- ===== src/OneTime.antt =====
-- One-time credential custody (magicvault-core/src/one_time.rs): a code is registered, reserved for
-- one bound attempt, and consumed, released, cancelled, expired or superseded.
pub mod Entry
pub mod Table
pub mod Settle
pub mod Scope
pub mod Invariant
pub mod Preserve
pub mod Sweeping
pub mod Registering
pub mod Lifecycle
pub mod Steps
pub mod Origins
pub mod Spent
pub mod Once
pub mod Attempts
pub mod Late
pub mod Registrations
pub mod Journals
pub mod Scopes
pub mod Keys
