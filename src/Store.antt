-- ===== src/Store.antt =====
-- The secret store (magicvault-core/src/store.rs): its feature flags, the run-scoped partition,
-- its wrappers of the one-time table and of the policy tables, and the MCP OAuth partition.
pub mod Features
pub mod Vault
pub mod Ephemeral
pub mod Custody
pub mod Access
pub mod Approval
pub mod Deadlines
pub mod Clearing
pub mod Swept
pub mod Issue
pub mod McpOauth
pub mod McpCommits
pub mod McpBounds
pub mod Provisioning
