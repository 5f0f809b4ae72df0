-- ===== src/Store/Provisioning.antt =====
-- magicvault-core/src/store.rs: writers of the provisioned partition, interleaved. A writer changes the
-- entries under the state lock and releases it; later it takes the persist lock, copies the entries
-- (`snapshot`) and replaces the file with the copy (`publish`). `writers` counts those between their
-- change and their snapshot, `lock` is the copy of the one that holds the persist lock.
use magic_vault.Base.{
  ℕ, zero, suc, Text, text_eq, Bool, true, false, Option, none, some, if◌then◌else◌, Result, ok,
  err, ◌≡◌, arith,
}
use magic_vault.Base.Map.{Map, insert, remove, contains_key}
use magic_vault.Base.Time.{ℤ}
use magic_vault.Secrets.{InjectionTarget}
use magic_vault.Policy.Check.{SecretPolicy}
use magic_vault.Store.Features.{
  SecretSourceKind, SecretStoreError, SecretRuntimeCapabilities, inline_provisioned_secret,
  refused_feature,
}
use magic_vault.Store.Vault.{SecretEntry, SecretSource}

pub record ProvisionedPartition : Type 0 where
  pub capabilities : SecretRuntimeCapabilities
  pub entries : Map SecretEntry
  pub file : Map SecretEntry
  pub writers : ℕ
  pub lock : Option (Map SecretEntry)

abbrev pub is_inline : InjectionTarget → Bool
is_inline InjectionTarget.inline = true
is_inline _ = false

-- `store_provisioned` up to its `persist_provisioned`, with the error that it returns.
unfoldable pub store_provisioned :
    ProvisionedPartition
    → Text
    → Text
    → Map Text
    → InjectionTarget
    → SecretPolicy
    → ℤ
    → ProvisionedPartition × Option SecretStoreError
store_provisioned p id label fields injection policy created_at =
    let entry : SecretEntry = record {
      id = id;
      label = label;
      fields = fields;
      source = SecretSource.provisioned;
      injection = injection;
      policy = some policy;
      created_at = created_at;
    } in
    elim (refused_feature p.capabilities SecretSourceKind.provisioned) [
      | some e ↦ (p, some e)
      | none ↦
          if is_inline injection
          then (p, some inline_provisioned_secret)
          else (record p { entries = insert id entry p.entries; writers = suc p.writers }, none)
    ]

-- `delete_provisioned` up to its `persist_provisioned`, which it skips where nothing was removed.
unfoldable pub delete_provisioned :
    ProvisionedPartition → Text → ProvisionedPartition × Result Bool SecretStoreError
delete_provisioned p secret_id =
    elim (refused_feature p.capabilities SecretSourceKind.provisioned) [
      | some e ↦ (p, err e)
      | none ↦
          if contains_key secret_id p.entries
          then (record p { entries = remove secret_id p.entries; writers = suc p.writers }, ok true)
          else (p, ok false)
    ]

-- `persist_provisioned` of one waiting writer: it takes the free lock and copies the entries, and then
-- replaces the file and frees the lock.
unfoldable pub snapshot : ProvisionedPartition → Option ProvisionedPartition
snapshot p = elim p.lock [
  | some _ ↦ none
  | none ↦ elim p.writers [
    | zero ↦ none
    | suc n ↦ some (record p { writers = n; lock = some p.entries })
  ]
]

unfoldable pub publish : ProvisionedPartition → Option ProvisionedPartition
publish p = elim p.lock [ none ↦ none | some copy ↦ some (record p { file = copy; lock = none }) ]

-- A step of some writer, where no write to the disk fails.
pub data WriterStep : ProvisionedPartition → ProvisionedPartition → Type 0 where
  stores :
      (p : ProvisionedPartition) (id label : Text) (fields : Map Text) (injection : InjectionTarget)
      (policy : SecretPolicy) (created_at : ℤ)
      → WriterStep p (store_provisioned p id label fields injection policy created_at).0
  deletes : (p : ProvisionedPartition) (id : Text) → WriterStep p (delete_provisioned p id).0
  snapshots : {p q : ProvisionedPartition} → snapshot p ≡ some q → WriterStep p q
  publishes : {p q : ProvisionedPartition} → publish p ≡ some q → WriterStep p q

pub data WriterSteps (p : ProvisionedPartition) : ProvisionedPartition → Type 0 where
  idle : WriterSteps p p
  then_step : {q r : ProvisionedPartition} → WriterSteps p q → WriterStep q r → WriterSteps p r

-- What the file holds once the holder of the lock has published.
abbrev pub latest : ProvisionedPartition → Map SecretEntry
latest p = elim p.lock [ none ↦ p.file | some copy ↦ copy ]

-- Where no writer waits for its snapshot, the latest copy is that of the entries.
abbrev pub IsCaughtUp : ProvisionedPartition → Type 0
IsCaughtUp p = p.writers ≡ 0 → latest p ≡ p.entries

WriterStep-IsCaughtUp : {p q : ProvisionedPartition} → WriterStep p q → IsCaughtUp p → IsCaughtUp q
unfolding store_provisioned delete_provisioned snapshot publish
WriterStep-IsCaughtUp (stores p id label fields injection policy created_at) c z = ground arith
WriterStep-IsCaughtUp (deletes p id) c z = ground arith
WriterStep-IsCaughtUp (snapshots h) c z = ground arith
WriterStep-IsCaughtUp (publishes h) c z = ground arith

WriterSteps-IsCaughtUp :
    {p q : ProvisionedPartition} → IsCaughtUp p → WriterSteps p q → IsCaughtUp q
WriterSteps-IsCaughtUp c idle = c
WriterSteps-IsCaughtUp c (then_step s t) = WriterStep-IsCaughtUp t (WriterSteps-IsCaughtUp c s)

-- From a partition that is caught up, however the steps of the writers interleave and where no write
-- to the disk fails: when no writer is left between its change and its publication, the file holds
-- the entries that are in memory.
pub file-entries :
    {p q : ProvisionedPartition}
    → IsCaughtUp p
    → WriterSteps p q
    → q.writers ≡ 0
    → q.lock ≡ none
    → q.file ≡ q.entries
file-entries c s done free = ground (arith, WriterSteps-IsCaughtUp c s done, free)
