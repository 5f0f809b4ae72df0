-- ===== src/Store/McpOauth.antt =====
-- magicvault-core/src/store.rs: the MCP OAuth partition. `file` is what the vault file decodes to; an
-- update writes it through `persist_mcp_oauth_partition`, whose encryption and file calls are one
-- input, the `Publication`: the file is replaced and synced, it stays as it was, or it is replaced and
-- the sync of its directory fails.
use magic_vault.Base.Bytes.{usize_max}
use magic_vault.Base.{
  ℕ, ◌+◌, ◌-◌, Text, text_eq, nat_eq, ◌==◌, Bool, true, false, ◌&&◌, ◌||◌, not, Option, none, some,
  [], ◌∷◌, if◌then◌else◌, ascii, ltb, leb, length, is_empty, Result, ok, err,
}
use magic_vault.Base.Bytes.{strip_prefix, all_bytes}
use magic_vault.Base.Map.{Map, lookup, insert, remove, contains_key}
use magic_vault.Store.Features.{
  SecretSourceKind, SecretStoreError, SecretRuntimeCapabilities, refused_feature,
}

abbrev pub max_mcp_oauth_records : ℕ
max_mcp_oauth_records = 256

abbrev pub max_mcp_oauth_record_bytes : ℕ
max_mcp_oauth_record_bytes = 2097152

abbrev pub max_mcp_oauth_total_bytes : ℕ
max_mcp_oauth_total_bytes = 33554432

abbrev pub mcp_oauth_digest_hex_bytes : ℕ
mcp_oauth_digest_hex_bytes = 64

pub data McpOauthPartitionStatus : Type 0 where
  ready unavailable commit_unknown : McpOauthPartitionStatus

pub data McpOauthError : Type 0 where
  feature : SecretStoreError → McpOauthError
  invalid_record conflict capacity partition_unavailable : McpOauthError
  commit_state_unknown : McpOauthError
  publication : Text → McpOauthError

pub data Publication : Type 0 where
  published : Publication
  failed unsynced : Text → Publication

pub record McpOauthPartition : Type 0 where
  pub capabilities : SecretRuntimeCapabilities
  pub records : Map Text
  pub status : McpOauthPartitionStatus
  pub file : Map Text

-- A check is the error that it returns.
abbrev pub first_error : Option McpOauthError → Option McpOauthError → Option McpOauthError
first_error (some e) later = some e
first_error none later = later

abbrev pub or_else : Option Text → Option Text → Option Text
or_else (some t) later = some t
or_else none later = later

abbrev pub is_hex : ℕ → Bool
is_hex c = leb b'0' c && leb c b'9' || leb b'a' c && leb c b'f'

unfoldable pub validate_mcp_oauth_record_id : Text → Option McpOauthError
validate_mcp_oauth_record_id record_id =
    elim (or_else (strip_prefix (ascii "credentials:") record_id) (
      or_else (strip_prefix (ascii "authorization-state:") record_id)
        (strip_prefix (ascii "pending-authorization:") record_id))) [
          | none ↦ some invalid_record
          | some digest ↦
              if not (length digest == mcp_oauth_digest_hex_bytes) || not (all_bytes is_hex digest)
              then some invalid_record
              else none
        ]

unfoldable pub ensure_mcp_oauth_partition_ready : McpOauthPartitionStatus → Option McpOauthError
ensure_mcp_oauth_partition_ready McpOauthPartitionStatus.ready = none
ensure_mcp_oauth_partition_ready McpOauthPartitionStatus.unavailable = some partition_unavailable
ensure_mcp_oauth_partition_ready McpOauthPartitionStatus.commit_unknown = some commit_state_unknown

unfoldable pub validate_mcp_oauth_document : Text → Option McpOauthError
validate_mcp_oauth_document document =
    if is_empty document || ltb max_mcp_oauth_record_bytes (length document)
    then some invalid_record
    else none

unfoldable pub checked_add : ℕ → ℕ → Option ℕ
checked_add a b = if ltb usize_max (a + b) then none else some (a + b)

unfoldable pub checked_sub : ℕ → ℕ → Option ℕ
checked_sub a b = if ltb a b then none else some (a - b)

-- `try_fold` of `checked_add` over the lengths, from `total`.
unfoldable pub total_bytes : ℕ → Map Text → Option ℕ
total_bytes total [] = some total
total_bytes total ((_, document) ∷ m) = elim (checked_add total (length document)) [
  | none ↦ none
  | some next ↦ total_bytes next m
]

abbrev pub length_of : Option Text → ℕ
length_of none = 0
length_of (some document) = length document

abbrev pub replaced_total : Option ℕ → ℕ → ℕ → Option ℕ
replaced_total none replaced replacement = none
replaced_total (some total) replaced replacement = elim (checked_sub total replaced) [
  | none ↦ none
  | some left ↦ checked_add left replacement
]

unfoldable pub validate_mcp_oauth_capacity : Map Text → Text → ℕ → Option McpOauthError
unfolding total_bytes checked_sub checked_add
validate_mcp_oauth_capacity records record_id replacement_bytes =
    let record_count = length records + (if contains_key record_id records then 0 else 1) in
    let next_total =
      replaced_total (total_bytes 0 records) (length_of (lookup record_id records))
        replacement_bytes in
    if ltb max_mcp_oauth_records record_count then some capacity else elim next_total [
      | none ↦ some capacity
      | some total ↦ if ltb max_mcp_oauth_total_bytes total then some capacity else none
    ]

-- The loop of `validate_mcp_oauth_collection`, from the sum `total`.
unfoldable pub collection_error : ℕ → Map Text → Option McpOauthError
collection_error total [] = none
collection_error total ((record_id, document) ∷ m) =
    let checks =
      first_error (validate_mcp_oauth_record_id record_id) (validate_mcp_oauth_document document) in
    elim checks [
      | some e ↦ some e
      | none ↦ elim (checked_add total (length document)) [
        | none ↦ some capacity
        | some next ↦
            let rest = collection_error next m in
            if ltb max_mcp_oauth_total_bytes next then some capacity else rest
      ]
    ]

unfoldable pub validate_mcp_oauth_collection : Map Text → Option McpOauthError
unfolding collection_error
validate_mcp_oauth_collection records =
    if ltb max_mcp_oauth_records (length records) then some capacity else collection_error 0 records

pub record McpOauthPersistFailure : Type 0 where
  pub source : McpOauthError
  pub commit_state_unknown : Bool

abbrev pub feature_error : SecretRuntimeCapabilities → Option McpOauthError
feature_error c = elim (refused_feature c SecretSourceKind.provisioned) [
  | none ↦ none
  | some e ↦ some (feature e)
]

abbrev pub before_commit : McpOauthError → Option McpOauthPersistFailure
before_commit e = some (record { source = e; commit_state_unknown = false })

-- The file afterwards, and the failure.
unfoldable pub persist_mcp_oauth_partition :
    McpOauthPartition → Publication → Map Text × Option McpOauthPersistFailure
persist_mcp_oauth_partition p outcome =
    elim (first_error (feature_error p.capabilities) (validate_mcp_oauth_collection p.records)) [
      | some e ↦ (p.file, before_commit e)
      | none ↦ elim outcome [
        | published ↦ (p.records, none)
        | failed reason ↦ (p.file, before_commit (publication reason))
        | unsynced reason ↦
            (p.records, some (record { source = publication reason; commit_state_unknown = true }))
      ]
    ]

-- The match on the result that the three updates share: `p` is the changed partition, `before` the
-- records that a failure before the commit restores.
unfoldable pub commit :
    {A : Type 0}
    → McpOauthPartition
    → Map Text
    → Publication
    → A
    → McpOauthPartition × Result A McpOauthError
unfolding persist_mcp_oauth_partition
commit p before outcome a =
    let (file, failure) = persist_mcp_oauth_partition p outcome in
    elim failure [
      | none ↦ (record p { file = file }, ok a)
      | some f ↦
          if f.commit_state_unknown
          then (
            record p { file = file; status = McpOauthPartitionStatus.commit_unknown },
            err commit_state_unknown,
          )
          else (record p { file = file; records = before }, err f.source)
    ]

-- The checks that every method opens with.
abbrev pub common_checks : McpOauthPartition → Text → Option McpOauthError
common_checks p record_id = first_error (feature_error p.capabilities) (
    first_error (validate_mcp_oauth_record_id record_id)
      (ensure_mcp_oauth_partition_ready p.status))

unfoldable pub read_mcp_oauth : McpOauthPartition → Text → Result (Option Text) McpOauthError
read_mcp_oauth p record_id = elim (common_checks p record_id) [
  | some e ↦ err e
  | none ↦ ok (lookup record_id p.records)
]

abbrev pub write_checks : McpOauthPartition → Text → Text → Bool → Option McpOauthError
write_checks p record_id document create_only = first_error (feature_error p.capabilities) (
    first_error (validate_mcp_oauth_record_id record_id) (
      first_error (validate_mcp_oauth_document document) (
        first_error (ensure_mcp_oauth_partition_ready p.status) (
          if create_only && contains_key record_id p.records
          then some conflict
          else validate_mcp_oauth_capacity p.records record_id (length document)))))

-- The records that a write restores: the previous document goes back, or the new one goes.
abbrev pub restored : Text → Option Text → Map Text → Map Text
restored record_id none m = remove record_id m
restored record_id (some previous) m = insert record_id previous m

unfoldable pub write_mcp_oauth :
    McpOauthPartition
    → Text
    → Text
    → Bool
    → Publication
    → McpOauthPartition × Result (Unit {0}) McpOauthError
unfolding commit
write_mcp_oauth p record_id document create_only outcome =
    let changed = insert record_id document p.records in
    elim (write_checks p record_id document create_only) [
      | some e ↦ (p, err e)
      | none ↦
          commit (record p { records = changed })
            (restored record_id (lookup record_id p.records) changed) outcome tt
    ]

unfoldable pub take_mcp_oauth :
    McpOauthPartition → Text → Publication → McpOauthPartition × Result (Option Text) McpOauthError
unfolding commit
take_mcp_oauth p record_id outcome =
    let left = remove record_id p.records in
    elim (common_checks p record_id) [
      | some e ↦ (p, err e)
      | none ↦ elim (lookup record_id p.records) [
        | none ↦ (p, ok none)
        | some document ↦
            commit (record p { records = left }) (insert record_id document left) outcome
              (some document)
      ]
    ]

unfoldable pub delete_mcp_oauth :
    McpOauthPartition → Text → Publication → McpOauthPartition × Result (Unit {0}) McpOauthError
unfolding commit
delete_mcp_oauth p record_id outcome =
    let left = remove record_id p.records in
    elim (common_checks p record_id) [
      | some e ↦ (p, err e)
      | none ↦ elim (lookup record_id p.records) [
        | none ↦ (p, ok tt)
        | some document ↦
            commit (record p { records = left }) (insert record_id document left) outcome tt
      ]
    ]
