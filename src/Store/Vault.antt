-- ===== src/Store/Vault.antt =====
-- magicvault-core/src/types.rs and store.rs: the entries and the state of the store, as far as the
-- modelled methods read and write it, and the audit event. The state under the lock, the tables with
-- their own locks and the configuration are one record; the durable partitions' files are not here.
use magic_vault.Base.{ℕ, Bool, Text, Option, none, List, []}
use magic_vault.Base.Map.{Map}
use magic_vault.Base.Time.{ℤ}
use magic_vault.Secrets.{InjectionTarget}
use magic_vault.OneTime.Table.{OneTimeTable}
use magic_vault.Policy.Usage.{Counts}
use magic_vault.Policy.Approvals.{ApprovalTable}
use magic_vault.Policy.Grants.{GrantTable}
use magic_vault.Policy.Check.{SecretPolicy}
use magic_vault.Store.Features.{SecretRuntimeCapabilities}

pub data SecretSource : Type 0 where
  provisioned : SecretSource
  captured : Text → ℕ → Bool → Option ℤ → SecretSource
  ephemeral : Text → SecretSource

pub record SecretEntry : Type 0 where
  pub id : Text
  pub label : Text
  pub fields : Map Text
  pub source : SecretSource
  pub injection : InjectionTarget
  pub policy : Option SecretPolicy
  pub created_at : ℤ

pub data SecretRef : Type 0 where
  provisioned grant session placeholder : Text → SecretRef

pub record SecretAuditEvent : Type 0 where
  pub timestamp : ℤ
  pub event : Text
  pub secret_id : Option Text
  pub tool : Option Text
  pub action : Option Text
  pub domain : Option Text
  pub domains : List Text
  pub challenge_id : Option Text
  pub detail : Option Text

unfoldable pub new_at : Text → ℤ → SecretAuditEvent
new_at event timestamp = record {
  timestamp = timestamp;
  event = event;
  secret_id = none;
  tool = none;
  action = none;
  domain = none;
  domains = [];
  challenge_id = none;
  detail = none;
}

pub record SecretStore : Type 0 where
  pub capabilities : SecretRuntimeCapabilities
  pub default_grant_ttl_secs : ℤ
  pub provisioned : Map SecretEntry
  pub ephemeral : Map SecretEntry
  pub ephemeral_deadlines : Map ℤ
  pub one_time : OneTimeTable
  pub usage_tracker : Counts
  pub approval_table : ApprovalTable
  pub grant_table : GrantTable
