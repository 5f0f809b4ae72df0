-- ===== src/Store/McpBounds.antt =====
-- magicvault-core/src/store.rs: the bounds of the MCP OAuth partition.
use mathlib.Core.Path.{subst}
use magic_vault.Base.{
  sym, ℕ, ◌+◌, ◌≤◌, Text, text_eq, nat_eq, none, some, [], ◌∷◌, All, length, ◌≡◌, arith, ◌⊎◌, inl,
  inr, Option-cases,
}
use magic_vault.Base.Map.{Map, lookup}
use magic_vault.Store.McpOauth.{
  McpOauthPartition, Publication, validate_mcp_oauth_record_id, validate_mcp_oauth_document,
  validate_mcp_oauth_collection, collection_error, checked_add, max_mcp_oauth_records,
  max_mcp_oauth_record_bytes, max_mcp_oauth_total_bytes, persist_mcp_oauth_partition, commit,
  write_checks, common_checks, write_mcp_oauth, take_mcp_oauth, delete_mcp_oauth,
}
use magic_vault.Store.McpCommits.{Update, Updates, writes, takes, deletes, start, then_update}

-- The bytes of all documents.
unfoldable pub byte_sum : Map Text → ℕ
byte_sum [] = 0
byte_sum ((_, document) ∷ m) = length document + byte_sum m

-- A record that the vault accepts: its id is valid, and its document has 1 byte to 2 MiB.
abbrev pub IsRecord : Text × Text → Type 0
IsRecord (id, document) =
    (validate_mcp_oauth_record_id id ≡ none)
    × (1 ≤ length document)
    × (length document ≤ max_mcp_oauth_record_bytes)

pub record IsBounded (m : Map Text) : Type 0 where
  pub few : length m ≤ max_mcp_oauth_records
  pub small : byte_sum m ≤ max_mcp_oauth_total_bytes
  pub are_records : All IsRecord m

document_bounds :
    (document : Text)
    → validate_mcp_oauth_document document ≡ none
    → (1 ≤ length document) × (length document ≤ max_mcp_oauth_record_bytes)
unfolding validate_mcp_oauth_document
document_bounds [] h = ground arith
document_bounds (c ∷ document) h = ground arith

collection_bounds :
    (total : ℕ) (m : Map Text)
    → total ≤ max_mcp_oauth_total_bytes
    → collection_error total m ≡ none
    → (total + byte_sum m ≤ max_mcp_oauth_total_bytes) × All IsRecord m
unfolding collection_error byte_sum checked_add
collection_bounds total [] b h = (ground arith, tt)
collection_bounds total ((id, document) ∷ m) b h =
    ground (arith, document_bounds document, collection_bounds (total + length document) m)

collection-IsBounded : (m : Map Text) → validate_mcp_oauth_collection m ≡ none → IsBounded m
unfolding validate_mcp_oauth_collection
collection-IsBounded m h =
    let checked : collection_error 0 m ≡ none = ground arith in
    let (small, are_records) = collection_bounds 0 m (omega arith) checked in
    record { few = ground arith; small = omega (arith, small); are_records = are_records }

commit-file :
    {A : Type 0} (p : McpOauthPartition) (before : Map Text) (outcome : Publication) (a : A)
    → ((commit p before outcome a).0.file ≡ p.file)
      ⊎ (((commit p before outcome a).0.file ≡ p.records)
          × (validate_mcp_oauth_collection p.records ≡ none))
unfolding commit persist_mcp_oauth_partition
commit-file p before outcome a = grind arith

commit-IsBounded :
    {A : Type 0} (p : McpOauthPartition) (before : Map Text) (outcome : Publication) (a : A)
    → IsBounded p.file
    → IsBounded (commit p before outcome a).0.file
commit-IsBounded p before outcome a b = elim (commit-file p before outcome a) [
  | inl kept ↦ subst IsBounded (sym kept) b
  | inr (new, valid) ↦ subst IsBounded (sym new) (collection-IsBounded p.records valid)
]

Update-IsBounded : {p q : McpOauthPartition} → Update p q → IsBounded p.file → IsBounded q.file
unfolding write_mcp_oauth take_mcp_oauth delete_mcp_oauth
Update-IsBounded (writes p id document create_only outcome) b =
    elim (Option-cases (write_checks p id document create_only)) [
      | inr (e, q) ↦ rw (q, write_mcp_oauth) b
      | inl q ↦ rw (q, write_mcp_oauth) (commit-IsBounded _ _ outcome tt b)
    ]
Update-IsBounded (takes p id outcome) b = elim (Option-cases (common_checks p id)) [
  | inr (e, q) ↦ rw (q, take_mcp_oauth) b
  | inl q ↦ elim (Option-cases (lookup id p.records)) [
    | inl r ↦ rw (q, r, take_mcp_oauth) b
    | inr (document, r) ↦ rw (q, r, take_mcp_oauth) (commit-IsBounded _ _ outcome (some document) b)
  ]
]
Update-IsBounded (deletes p id outcome) b = elim (Option-cases (common_checks p id)) [
  | inr (e, q) ↦ rw (q, delete_mcp_oauth) b
  | inl q ↦ elim (Option-cases (lookup id p.records)) [
    | inl r ↦ rw (q, r, delete_mcp_oauth) b
    | inr (document, r) ↦ rw (q, r, delete_mcp_oauth) (commit-IsBounded _ _ outcome tt b)
  ]
]

-- Where the file is within the bounds it stays so after any updates: at most 256 records with valid
-- ids, each document of 1 byte to 2 MiB, and at most 32 MiB in all.
pub Updates-IsBounded :
    {p q : McpOauthPartition} → IsBounded p.file → Updates p q → IsBounded q.file
Updates-IsBounded b start = b
Updates-IsBounded b (then_update us u) = Update-IsBounded u (Updates-IsBounded b us)
