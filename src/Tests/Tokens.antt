-- ===== src/Tests/Tokens.antt =====
-- Runs of the MCP OAuth partition (magicvault-core/src/store.rs) at one callback state.
use native.Mathlib.Decide.{ℕ_discrete}
use magic_vault.Base.{Text, text_eq, nat_eq, true, none, some, [], ◌∷◌, ascii, ◌≡◌, refl, arith, ok}
use magic_vault.Base.Bytes.{strip_prefix, all_bytes}
use magic_vault.Base.Map.{lookup, remove}
use magic_vault.Store.Features.{fully_available, refused_feature}
use magic_vault.Store.McpOauth.{
  McpOauthPartition, McpOauthPartitionStatus, published, failed, unsynced, read_mcp_oauth,
  write_mcp_oauth, take_mcp_oauth, delete_mcp_oauth, commit, persist_mcp_oauth_partition,
  validate_mcp_oauth_record_id, validate_mcp_oauth_collection, collection_error,
  ensure_mcp_oauth_partition_ready,
}
use magic_vault.Store.McpCommits.{
  IsSynced, Updates, writes, takes, deletes, start, then_update, Updates-IsSynced,
  take_mcp_oauth-once,
}
use magic_vault.Store.McpBounds.{IsBounded, Updates-IsBounded, byte_sum}

abbrev callback : Text
callback =
    ascii "authorization-state:0123456789abcdef0123456789abcdef0123456789abcdef0123456789abcdef"

abbrev verifier : Text
verifier = ascii "verifier"

abbrev fresh : McpOauthPartition
fresh = record {
  capabilities = fully_available (ascii "memory");
  records = [];
  status = McpOauthPartitionStatus.ready;
  file = [];
}

abbrev written : McpOauthPartition
written = (write_mcp_oauth fresh callback verifier true published).0

abbrev kept : McpOauthPartition
kept = (take_mcp_oauth written callback (failed (ascii "disk full"))).0

abbrev in_doubt : McpOauthPartition
in_doubt = (delete_mcp_oauth kept callback (unsynced (ascii "io"))).0

to_in_doubt : Updates fresh in_doubt
to_in_doubt =
    then_update
      (then_update (then_update start (writes fresh callback verifier true published))
        (takes written callback (failed (ascii "disk full"))))
      (deletes kept callback (unsynced (ascii "io")))

fresh-IsSynced : IsSynced fresh
fresh-IsSynced = record { nodup = tt; same = λ k. refl }

Updates-IsSynced_example : IsSynced in_doubt
Updates-IsSynced_example = Updates-IsSynced fresh-IsSynced to_in_doubt

fresh-IsBounded : IsBounded fresh.file
unfolding byte_sum
fresh-IsBounded = record { few = omega arith; small = omega arith; are_records = tt }

Updates-IsBounded_example : IsBounded in_doubt.file
Updates-IsBounded_example = Updates-IsBounded fresh-IsBounded to_in_doubt

abbrev stored : McpOauthPartition
stored = record fresh { records = (callback, verifier) ∷ []; file = (callback, verifier) ∷ [] }

test_taken : (take_mcp_oauth stored callback published).1 ≡ ok (some verifier)
unfolding take_mcp_oauth commit persist_mcp_oauth_partition refused_feature lookup remove text_eq
    nat_eq ℕ_discrete validate_mcp_oauth_record_id strip_prefix all_bytes
    ensure_mcp_oauth_partition_ready validate_mcp_oauth_collection collection_error
test_taken = refl

take_mcp_oauth-once_example :
    let q = (take_mcp_oauth stored callback published).0 in
    (lookup callback stored.records ≡ some verifier)
    × (lookup callback q.file ≡ none)
    × (read_mcp_oauth q callback ≡ ok none)
    × (take_mcp_oauth q callback published ≡ (q, ok none))
take_mcp_oauth-once_example =
    take_mcp_oauth-once stored callback verifier published published test_taken

abbrev doubtful : McpOauthPartition
doubtful = record stored { status = McpOauthPartitionStatus.commit_unknown }
