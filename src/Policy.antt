-- ===== src/Policy.antt =====
-- Access policy (magicvault-core/src/policy.rs): domain scopes, requests and bindings, the daily
-- usage limit, approvals, the policy check and single-use grants.
pub mod Domains
pub mod Requests
pub mod Usage
pub mod Approvals
pub mod Check
pub mod Grants
pub mod HostSets
pub mod WireTrips
pub mod HostMembers
pub mod Patterns
pub mod Permits
pub mod DailyLimit
pub mod Fingerprints
pub mod ApprovalUse
pub mod Redemption
pub mod Bindings
