-- ===== src/Store/Features.antt =====
-- magicvault-core/src/store.rs: which partitions of the store are enabled, and the store's errors.
-- Of `SecretStoreError` the variants that the modelled methods return are here; the text in
-- `PolicyDenied` is the reason that it prints, and `daily_usage_exceeded` is that variant with the text
-- of `record_usage`.
use magic_vault.Base.{if◌then◌else◌, not, Text, Bool, true, false, Option, none, some, ascii}
use magic_vault.Policy.Check.{DenyReason}

pub data SecretSourceKind : Type 0 where
  provisioned captured ephemeral : SecretSourceKind

unfoldable pub as_str : SecretSourceKind → Text
as_str SecretSourceKind.provisioned = ascii "provisioned"
as_str SecretSourceKind.captured = ascii "captured"
as_str SecretSourceKind.ephemeral = ascii "ephemeral"

pub data SecretFeatureSupport : Type 0 where
  available memory_only disabled : SecretFeatureSupport

pub record SecretFeatureStatus : Type 0 where
  pub support : SecretFeatureSupport
  pub reason : Option Text

abbrev pub is_disabled : SecretFeatureSupport → Bool
is_disabled SecretFeatureSupport.disabled = true
is_disabled _ = false

abbrev pub is_available : SecretFeatureStatus → Bool
is_available status = not (is_disabled status.support)

pub record SecretRuntimeCapabilities : Type 0 where
  pub provider_name : Text
  pub provisioned : SecretFeatureStatus
  pub captured : SecretFeatureStatus
  pub ephemeral : SecretFeatureStatus

abbrev pub available_status : SecretFeatureStatus
available_status = record { support = SecretFeatureSupport.available; reason = none }

abbrev pub disabled_status : Text → SecretFeatureStatus
disabled_status reason = record { support = SecretFeatureSupport.disabled; reason = some reason }

abbrev pub fully_available : Text → SecretRuntimeCapabilities
fully_available provider_name = record {
  provider_name = provider_name;
  provisioned = available_status;
  captured = available_status;
  ephemeral = available_status;
}

abbrev pub without_durable_storage : Text → Text → SecretRuntimeCapabilities
without_durable_storage provider_name reason = record {
  provider_name = provider_name;
  provisioned = disabled_status reason;
  captured = disabled_status reason;
  ephemeral = available_status;
}

abbrev pub status_for : SecretRuntimeCapabilities → SecretSourceKind → SecretFeatureStatus
status_for c SecretSourceKind.provisioned = c.provisioned
status_for c SecretSourceKind.captured = c.captured
status_for c SecretSourceKind.ephemeral = c.ephemeral

pub data SecretStoreError : Type 0 where
  secret_not_found : Text → SecretStoreError
  grant_not_found : Text → SecretStoreError
  policy_denied : DenyReason → SecretStoreError
  daily_usage_exceeded : SecretStoreError
  approval_required : Text → SecretStoreError
  feature_disabled : SecretSourceKind → Text → SecretStoreError
  deadline_passed inline_provisioned_secret : SecretStoreError

abbrev pub reason_or_default : Option Text → Text
reason_or_default none = ascii "feature disabled"
reason_or_default (some reason) = reason

-- `ensure_feature_enabled`, as the error that it returns.
unfoldable pub refused_feature :
    SecretRuntimeCapabilities → SecretSourceKind → Option SecretStoreError
refused_feature c source =
    let status = status_for c source in
    if is_available status
    then none
    else some (feature_disabled source (reason_or_default status.reason))
