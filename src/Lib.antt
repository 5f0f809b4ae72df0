-- ===== src/Lib.antt =====
-- A model of MagicVault's custody core, the crate magicvault-core, and of the JSON traversal of
-- magicvault-primitives that guards what its callers keep and send.
--
-- The store holds secrets in partitions. A provisioned secret is used through the policy: a request
-- names a secret, a tool, an action and the domains it will reach, and is allowed, denied or held for
-- an approval. An allowed request gets a single-use grant that is bound to exactly that request and is
-- redeemed once, alone or in a batch. A run's own secrets are plain ephemeral values, which may have a
-- deadline, or one-time codes, which one bound attempt reserves and then consumes or gives back. What
-- a browser session captured is kept for its origin, within a limit, and replayed as cookies, headers
-- and storage until its lease is marked stale.
--
-- Where the parts are:
--   OneTime.*        magicvault-core/src/one_time.rs. Entry: the types, `OneTimeBinding::admits`, the
--                    receipts and the deadline; Table: `register` and `reserve`; Settle: `consume`,
--                    `release`, `cancel`; Scope: `state`, `sweep`, `retire_scope`, `scope_holds_live`,
--                    `live_values`. Invariant, Preserve, Registering, Sweeping: the invariant and
--                    the operations; Lifecycle, Origins, Spent, Once: the diagram at the head of the
--                    source as a relation, and entries and reservations along it; Steps: calls in any
--                    order; Attempts, Late, Registrations, Journals, Scopes, Keys: the operations.
--   Policy.*         magicvault-core/src/policy.rs. Domains: `RequestedDomains`, `is_dns_host`;
--                    Requests: `AccessRequest`, `GrantBinding`; Usage: `UsageTracker`; Approvals:
--                    `RequestFingerprint`, `ApprovalTable`; Check: routes, `domain_matches`,
--                    `check_policy`; Grants: `GrantTable`. The theorems are in HostSets, HostMembers,
--                    WireTrips, Patterns, Permits, DailyLimit, Fingerprints, ApprovalUse, Redemption
--                    and Bindings.
--   Secrets, Store.Vault    magicvault-core/src/types.rs, and `SameSite` of injection.rs.
--   Store.*          magicvault-core/src/store.rs. Features: capabilities and `ensure_feature_enabled`;
--                    Ephemeral: `register_ephemeral*`, `get_ephemeral*`, `clear_ephemeral`; Custody:
--                    the one-time methods and their audit events; Access: `evaluate_access*`,
--                    `record_usage`, the grant methods; Approval: the approval methods; McpOauth:
--                    `read_mcp_oauth`, `write_mcp_oauth`, `take_mcp_oauth`, `delete_mcp_oauth` and
--                    `persist_mcp_oauth_partition`; Provisioning: `store_provisioned`,
--                    `delete_provisioned` and `persist_provisioned` of writers whose steps interleave.
--                    The theorems are in Deadlines, Clearing, Swept, Issue, McpCommits, McpBounds and
--                    Provisioning.
--   Json.*           magicvault-primitives/src/json_traversal.rs. Sink: `std::io::Write`; Buffers: the
--                    writers; Compact: `write_json` and `write_canonical_json`; Sorted: the order of
--                    an object's members; Measure: `json_encoded_len`, `exact_json_encoded_len`,
--                    `canonical_json_bytes`; Inspect: `inspect_json_bounded`; Copy:
--                    `clone_json_iteratively`, `canonicalize_json`, `clone_json_bounded`; Scan: the
--                    scanners of encoded bytes, with the count of nodes in Nodes and
--                    `EncodedJsonStreamAdmission` in Stream. The theorems are in Writing,
--                    Contents, Exact, Admission, Rebuilt, Canonical, Copied,
--                    Admitted, Alike, Chunks, Depth, Admits and Implied.
--   Captured.*       the captured sessions of magicvault-core/src/store.rs, with the cookies of
--                    injection.rs and the context of session.rs. Cookies: `filter_cookies_for_url`;
--                    Fields: a capture as the fields of an entry, and the merging of two; Partition:
--                    `persist_captured`, `flush_captured`, the eviction and the clearing; Storing:
--                    `store_captured*`; Session: `SessionContext` and `CapturedSessionLease`; Replay:
--                    `get_session`; Leases: the stale marks and the status; Expiry:
--                    `detect_jwt_expiry`. The theorems are in Filtering, Publication, Eviction, Stale and
--                    Kept, on those of Applicable, Hosts, Paths, Marks, Prefixes and CookieKeys.
--   Base.*           equality, byte texts, lists, maps and `i64`, with their laws.
--   Tests.*          runs at concrete inputs.
--
-- How the source is read:
--   - a method takes the state and returns the new one with its result. A lock is held for one step;
--     poisoned locks are not modelled. Two clock readings in one method are two arguments, and so is
--     each id that `Uuid::new_v4` draws;
--   - a `String` is the list of its bytes; a literal is `ascii "..."`;
--   - a `HashMap` is an association list with at most one entry for a key (`NodupKeys`), whose order
--     stands for the iteration order, which the source leaves open;
--   - an `i64` is an integer, and a sum wraps around as in a release build (`add_i64`); a count of the
--     daily limit is capped as `u32::saturating_add` caps it. The generation of a one-time entry is a
--     `u64` that wraps around after 2^64 registrations of one table (`next_u64`); a step of
--     OneTime.Steps registers below that count only;
--   - the reason of a denial is a constructor with what its text shows, and `display_host` gives the
--     bytes shown and whether they were cut, since `escape_debug` is the standard library's;
--   - chrono's day of a timestamp (`date_key`) is a parameter, a function of the timestamp alone; for
--     one that chrono cannot hold the source takes the day of the clock instead;
--   - the file of the MCP OAuth partition is the map that it decodes to, and what the disk does to an
--     update (`Publication`) is an argument of it: which of base64, encryption, key provider or file
--     call failed is not told apart, and the bound on the size of the encrypted file is one of them;
--   - a `serde_json::Value` is a tree whose numbers are of a type of serde_json; the text of a number
--     and the pieces that are written for a string are parameters (`Serde`), and what the scanners
--     need of them is `WritesJson`. An object is the list of its members as its map is walked; the
--     locked serde_json has no `preserve_order`, so its maps are in the order of their keys
--     (`Ascending`);
--   - the loops of json_traversal.rs keep a worklist and are run for a number of rounds that is
--     computed from the tree (`rounds`, at most three for each value, and `builds`), with `none` for
--     too few; the theorems say that they are enough. A `usize` sum is capped where the source says
--     `saturating_add`. All other loops go through a list.
--   - what a publication does to the file of the captured partition is an argument (`DiskWrite`): the
--     file is replaced, it stays, or it is replaced and a later call of the publication fails. The
--     file is the map that it decodes to, and each method is one step. The readings of
--     the clock in one `get_session` give the same second. The generation of a capture is a
--     `u64` that wraps around (`next_u64`). The expiry of a token is a function that the storing
--     methods take: `detect_jwt_expiry` of Captured.Expiry is that function, for what base64 decodes
--     and serde_json reads. `url::Url` is the record of what the source asks of it, and the place in
--     the list decides the order of cookies that compare equal. The eviction runs for as many rounds
--     as there are captures, of which each removes one.
--
-- Not modelled: files, encryption and key providers, serde, memory wiping and the audit file; of the
-- store the loads, the listings, the tasks that wait on captures, and captured writers that interleave;
-- of the JSON traversal the pretty writer, the comparison of two values, the loops that map strings
-- and the hashes; of the injection all but cookies and `detect_jwt_expiry`; the other crates
-- (protocol, effects, service, MCP server, prompt, command line) and the browser extension.
pub mod Base
pub mod OneTime
pub mod Secrets
pub mod Policy
pub mod Store
pub mod Json
pub mod Captured
mod Tests
