-- ===== src/Store/McpCommits.antt =====
-- magicvault-core/src/store.rs: the MCP OAuth partition in memory and in its file, under
-- updates.
use magic_vault.Base.{
  Text, text_eq, Bool, Option, none, some, ok, err, ◌≡◌, ◌≢◌, refl, ◌∙◌, inl, inr, arith,
  Option-cases,
}
use magic_vault.Base.Map.{
  Map, lookup, insert, remove, NodupKeys, lookup-insert, lookup-remove, insert-NodupKeys,
  remove-NodupKeys,
}
use magic_vault.Store.McpOauth.{
  McpOauthPartition, McpOauthError, McpOauthPartitionStatus, commit_state_unknown, Publication,
  persist_mcp_oauth_partition, commit, restored, read_mcp_oauth, write_mcp_oauth, take_mcp_oauth,
  delete_mcp_oauth, ensure_mcp_oauth_partition_ready, write_checks, common_checks,
}

-- The same record under each id in memory and in the file.
pub record IsSynced (p : McpOauthPartition) : Type 0 where
  pub nodup : NodupKeys p.records
  pub same : (k : Text) → lookup k p.records ≡ lookup k p.file

module _ {A : Type 0} (p : McpOauthPartition) (before : Map Text) (outcome : Publication)
    (a : A) where
  commit-IsSynced :
      NodupKeys p.records
      → NodupKeys before
      → ((k : Text) → lookup k before ≡ lookup k p.file)
      → IsSynced (commit p before outcome a).0
  unfolding commit persist_mcp_oauth_partition
  commit-IsSynced u u' same = grind arith

  -- A commit that fails before the file is replaced restores the records.
  commit-err :
      (e : McpOauthError)
      → (commit p before outcome a).1 ≡ err e
      → e ≢ commit_state_unknown
      → ((commit p before outcome a).0 ≡ record p { records = before })
  unfolding commit persist_mcp_oauth_partition
  commit-err e h d = grind arith

restored-lookup :
    (k id document : Text) (m : Map Text)
    → lookup k (restored id (lookup id m) (insert id document m)) ≡ lookup k m
restored-lookup k id document m = elim (Option-cases (lookup id m)) [
  | inl q ↦ ground (arith, lookup-remove k id (insert id document m), lookup-insert k id document m)
  | inr (previous, q) ↦
      ground
        (arith, lookup-insert k id previous (insert id document m), lookup-insert k id document m)
]

restored-NodupKeys :
    (id : Text) (o : Option Text) (m : Map Text) → NodupKeys m → NodupKeys (restored id o m)
restored-NodupKeys id none m u = remove-NodupKeys id m u
restored-NodupKeys id (some previous) m u = insert-NodupKeys id previous m u

put_back-lookup :
    (k id document : Text) (m : Map Text)
    → lookup id m ≡ some document
    → lookup k (insert id document (remove id m)) ≡ lookup k m
put_back-lookup k id document m h =
    ground (arith, lookup-insert k id document (remove id m), lookup-remove k id m)

write-IsSynced :
    (p : McpOauthPartition) (id document : Text) (create_only : Bool) (outcome : Publication)
    → IsSynced p
    → IsSynced (write_mcp_oauth p id document create_only outcome).0
unfolding write_mcp_oauth
write-IsSynced p id document create_only outcome s =
    elim (Option-cases (write_checks p id document create_only)) [
      | inr (e, q) ↦ rw (q, write_mcp_oauth) s
      | inl q ↦
          let changed = insert id document p.records in
          rw (q, write_mcp_oauth)
            (commit-IsSynced (record p { records = changed })
              (restored id (lookup id p.records) changed) outcome tt
              (insert-NodupKeys id document p.records s.nodup)
              (restored-NodupKeys id (lookup id p.records) changed
                (insert-NodupKeys id document p.records s.nodup))
              (λ k. restored-lookup k id document p.records ∙ s.same k))
    ]

module _ {A : Type 0} (p : McpOauthPartition) (id document : Text) (outcome : Publication) (a : A)
    (s : IsSynced p) (found : lookup id p.records ≡ some document) where
  removal-IsSynced :
      IsSynced
        (commit
          (record p { records = remove id p.records })
          (insert id document (remove id p.records))
          outcome
          a).0
  removal-IsSynced =
      commit-IsSynced (record p { records = remove id p.records })
        (insert id document (remove id p.records)) outcome a (remove-NodupKeys id p.records s.nodup)
        (insert-NodupKeys id document (remove id p.records) (remove-NodupKeys id p.records s.nodup))
        (λ k. put_back-lookup k id document p.records found ∙ s.same k)

take-IsSynced :
    (p : McpOauthPartition) (id : Text) (outcome : Publication)
    → IsSynced p
    → IsSynced (take_mcp_oauth p id outcome).0
unfolding take_mcp_oauth
take-IsSynced p id outcome s = elim (Option-cases (common_checks p id)) [
  | inr (e, q) ↦ rw (q, take_mcp_oauth) s
  | inl q ↦ elim (Option-cases (lookup id p.records)) [
    | inl r ↦ rw (q, r, take_mcp_oauth) s
    | inr (document, r) ↦
        rw (q, r, take_mcp_oauth) (removal-IsSynced p id document outcome (some document) s r)
  ]
]

delete-IsSynced :
    (p : McpOauthPartition) (id : Text) (outcome : Publication)
    → IsSynced p
    → IsSynced (delete_mcp_oauth p id outcome).0
unfolding delete_mcp_oauth
delete-IsSynced p id outcome s = elim (Option-cases (common_checks p id)) [
  | inr (e, q) ↦ rw (q, delete_mcp_oauth) s
  | inl q ↦ elim (Option-cases (lookup id p.records)) [
    | inl r ↦ rw (q, r, delete_mcp_oauth) s
    | inr (document, r) ↦
        rw (q, r, delete_mcp_oauth) (removal-IsSynced p id document outcome tt s r)
  ]
]

-- An update of the partition.
pub data Update : McpOauthPartition → McpOauthPartition → Type 0 where
  writes :
      (p : McpOauthPartition) (id document : Text) (create_only : Bool) (outcome : Publication)
      → Update p (write_mcp_oauth p id document create_only outcome).0
  takes :
      (p : McpOauthPartition) (id : Text) (outcome : Publication)
      → Update p (take_mcp_oauth p id outcome).0
  deletes :
      (p : McpOauthPartition) (id : Text) (outcome : Publication)
      → Update p (delete_mcp_oauth p id outcome).0

pub data Updates (p : McpOauthPartition) : McpOauthPartition → Type 0 where
  start : Updates p p
  then_update : {q r : McpOauthPartition} → Updates p q → Update q r → Updates p r

Update-IsSynced : {p q : McpOauthPartition} → Update p q → IsSynced p → IsSynced q
Update-IsSynced (writes p id document create_only outcome) s =
    write-IsSynced p id document create_only outcome s
Update-IsSynced (takes p id outcome) s = take-IsSynced p id outcome s
Update-IsSynced (deletes p id outcome) s = delete-IsSynced p id outcome s

-- Where the records in memory are those of the file, they stay so after any writes, takes and
-- deletions, whether the disk publishes each, fails before the file is replaced, or fails to sync it.
pub Updates-IsSynced : {p q : McpOauthPartition} → IsSynced p → Updates p q → IsSynced q
Updates-IsSynced s start = s
Updates-IsSynced s (then_update us u) = Update-IsSynced u (Updates-IsSynced s us)

checked_ready :
    (p : McpOauthPartition) (id : Text)
    → common_checks p id ≡ none
    → p.status ≡ McpOauthPartitionStatus.ready
unfolding ensure_mcp_oauth_partition_ready
checked_ready p id h = ground arith

committed :
    {A : Type 0} (p : McpOauthPartition) (before : Map Text) (outcome : Publication) (a b : A)
    → (commit p before outcome a).1 ≡ ok b
    → (a ≡ b) × ((commit p before outcome a).0 ≡ record p { file = p.records })
unfolding commit persist_mcp_oauth_partition
committed p before outcome a b h = grind arith

absent :
    (q : McpOauthPartition) (id : Text) (outcome : Publication)
    → common_checks q id ≡ none
    → lookup id q.records ≡ none
    → (read_mcp_oauth q id ≡ ok none) × (take_mcp_oauth q id outcome ≡ (q, ok none))
unfolding take_mcp_oauth read_mcp_oauth
absent q id outcome h gone = (ground arith, ground arith)

-- A take that returns a document was committed.
taken :
    (p : McpOauthPartition) (id document : Text) (outcome : Publication)
    → (take_mcp_oauth p id outcome).1 ≡ ok (some document)
    → (common_checks p id ≡ none)
      × (lookup id p.records ≡ some document)
      × ((take_mcp_oauth p id outcome).0
          ≡ record p { records = remove id p.records; file = remove id p.records })
unfolding take_mcp_oauth
taken p id document outcome h = elim (Option-cases (common_checks p id)) [
  | inr (e, q) ↦ absurd (ground arith)
  | inl q ↦ elim (Option-cases (lookup id p.records)) [
    | inl r ↦ absurd (ground arith)
    | inr (found, r) ↦
        let done =
          committed (record p { records = remove id p.records })
            (insert id found (remove id p.records)) outcome (some found) (some document)
            (rw (q, r, take_mcp_oauth) at h) in
        (q, r ∙ done.0, rw (q, r, take_mcp_oauth) done.1)
  ]
]

-- A document is taken once, and only when its removal is on the disk: after a take that returns it,
-- it was the record of the id, neither memory nor the file has one, and a read and another take of
-- the id return none.
pub take_mcp_oauth-once :
    (p : McpOauthPartition) (id document : Text) (outcome outcome' : Publication)
    → (take_mcp_oauth p id outcome).1 ≡ ok (some document)
    → let q = (take_mcp_oauth p id outcome).0 in
      (lookup id p.records ≡ some document)
      × (lookup id q.file ≡ none)
      × (read_mcp_oauth q id ≡ ok none)
      × (take_mcp_oauth q id outcome' ≡ (q, ok none))
take_mcp_oauth-once p id document outcome outcome' h =
    let (checks, found, same) = taken p id document outcome h in
    let q : McpOauthPartition = record p {
      records = remove id p.records;
      file = remove id p.records;
    } in
    let gone : lookup id (remove id p.records) ≡ none =
      ground (arith, lookup-remove id id p.records) in
    let (reads, takes_again) = absent q id outcome' checks gone in
    (found, rw (same, gone), rw same reads, rw same takes_again)

stopped :
    (p : McpOauthPartition) (id document : Text) (create_only : Bool)
    → p.status ≡ McpOauthPartitionStatus.commit_unknown
    → ((e : McpOauthError) × (common_checks p id ≡ some e))
      × ((e : McpOauthError) × (write_checks p id document create_only ≡ some e))
unfolding ensure_mcp_oauth_partition_ready
stopped p id document create_only h = (
  elim (Option-cases (common_checks p id)) [ inl q ↦ absurd (ground arith) | inr found ↦ found ],
  elim (Option-cases (write_checks p id document create_only)) [
    | inl q ↦ absurd (ground arith)
    | inr found ↦ found
  ],
)

-- After a commit whose state is unknown every method is refused until the partition is loaded again,
-- and changes nothing.
pub commit_unknown-refused :
    (p : McpOauthPartition) (id document : Text) (create_only : Bool) (outcome : Publication)
    → p.status ≡ McpOauthPartitionStatus.commit_unknown
    → ((e : McpOauthError) × (read_mcp_oauth p id ≡ err e))
      × ((e : McpOauthError) × (write_mcp_oauth p id document create_only outcome ≡ (p, err e)))
      × ((e : McpOauthError) × (take_mcp_oauth p id outcome ≡ (p, err e)))
      × ((e : McpOauthError) × (delete_mcp_oauth p id outcome ≡ (p, err e)))
unfolding read_mcp_oauth write_mcp_oauth take_mcp_oauth delete_mcp_oauth
commit_unknown-refused p id document create_only outcome h =
    let ((e, q), (e', q')) = stopped p id document create_only h in
    (
      (e, rw (q, read_mcp_oauth) refl),
      (e', rw (q', write_mcp_oauth) refl),
      (e, rw (q, take_mcp_oauth) refl),
      (e, rw (q, delete_mcp_oauth) refl),
    )
