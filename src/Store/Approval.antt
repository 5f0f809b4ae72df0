-- ===== src/Store/Approval.antt =====
-- magicvault-core/src/store.rs: the store's methods on approvals, with the audit events they append.
-- `at` is the clock reading that `SecretAuditEvent::new` takes for the event.
use magic_vault.Base.{
  Text, text_eq, Bool, true, false, not, Option, none, some, List, [], ◌∷◌, if◌then◌else◌, ascii,
  Result, ok, err,
}
use magic_vault.Base.Time.{ℤ}
use magic_vault.Policy.Domains.{RequestedDomains, from_legacy, to_wire}
use magic_vault.Policy.Requests.{scoped}
use magic_vault.Policy.Approvals.{ApprovalChallenge, grant, list_pending}
use magic_vault.Policy.Approvals
use magic_vault.Store.Features.{
  SecretSourceKind, SecretStoreError, refused_feature, status_for, is_available,
}
use magic_vault.Store.Vault.{SecretStore, SecretEntry, SecretAuditEvent, new_at}
use magic_vault.Store.Custody.{Journaled, unchanged}
use magic_vault.Store.Access.{get_provisioned, find_secret}

-- The events of `grant_approval`.
unfoldable pub granted_event : ApprovalChallenge → ℤ → SecretAuditEvent
unfolding new_at
granted_event c at = record (new_at (ascii "approval_granted") at) {
  domain = c.domain;
  domains = c.domains;
  secret_id = some c.secret_id;
  tool = some c.tool;
  action = some c.action;
  challenge_id = some c.id;
}

unfoldable pub grant_failed_event : Text → ℤ → SecretAuditEvent
unfolding new_at
grant_failed_event challenge_id at = record (new_at (ascii "approval_grant_failed") at) {
  challenge_id = some challenge_id;
  detail = some (ascii "challenge_missing_or_expired");
}

unfoldable pub grant_approval :
    SecretStore → Text → ℤ → ℤ → Journaled (Result Bool SecretStoreError)
unfolding granted_event grant_failed_event
grant_approval s challenge_id now at =
    let (approvals, challenge) = grant s.approval_table challenge_id now in
    let kept = record s { approval_table = approvals } in
    elim (refused_feature s.capabilities SecretSourceKind.provisioned) [
      | some e ↦ unchanged s (err e)
      | none ↦ elim challenge [
        | some c ↦ record { store = kept; outcome = ok true; events = granted_event c at ∷ [] }
        | none ↦ record {
          store = kept;
          outcome = ok false;
          events = grant_failed_event challenge_id at ∷ [];
        }
      ]
    ]

pub record PendingSecretApproval : Type 0 where
  pub challenge_id : Text
  pub secret_id : Text
  pub secret_label : Text
  pub tool : Text
  pub action : Text
  pub domain : Option Text
  pub domains : List Text
  pub expires_at : ℤ

abbrev pub label_or_id : Option SecretEntry → Text → Text
label_or_id none secret_id = secret_id
label_or_id (some entry) secret_id = entry.label

unfoldable pub pending_approval : SecretStore → ApprovalChallenge → PendingSecretApproval
unfolding get_provisioned
pending_approval s c = record {
  challenge_id = c.id;
  secret_id = c.secret_id;
  secret_label = label_or_id (get_provisioned s c.secret_id) c.secret_id;
  tool = c.tool;
  action = c.action;
  domain = c.domain;
  domains = c.domains;
  expires_at = c.expires_at;
}

unfoldable pub pending_approvals : SecretStore → List ApprovalChallenge → List PendingSecretApproval
unfolding pending_approval
pending_approvals s [] = []
pending_approvals s (c ∷ cs) = pending_approval s c ∷ pending_approvals s cs

unfoldable pub list_pending_approvals : SecretStore → ℤ → SecretStore × List PendingSecretApproval
unfolding pending_approvals
list_pending_approvals s now =
    let (approvals, challenges) = list_pending s.approval_table now in
    if not (is_available (status_for s.capabilities SecretSourceKind.provisioned))
    then (s, [])
    else (record s { approval_table = approvals }, pending_approvals s challenges)

unfoldable pub restored_event : Text → Text → Text → RequestedDomains → ℤ → SecretAuditEvent
unfolding new_at to_wire
restored_event secret_id tool action domains at =
    let (domain, listed) = to_wire domains in
    record (new_at (ascii "approval_granted_restored") at) {
      secret_id = some secret_id;
      tool = some tool;
      action = some action;
      domain = domain;
      domains = listed;
      detail = some (ascii "pause_resume");
    }

-- `requested_at` is the clock reading of the request, `now` that of the reaping.
unfoldable pub approve_request_scoped :
    SecretStore
    → Text
    → Text
    → Text
    → RequestedDomains
    → ℤ
    → ℤ
    → ℤ
    → Journaled (Option SecretStoreError)
unfolding find_secret restored_event
approve_request_scoped s secret_id tool action domains requested_at now at =
    elim (find_secret s secret_id) [
      | err e ↦ unchanged s (some e)
      | ok _ ↦ record {
        store = record s {
          approval_table =
              Approvals.approve_request s.approval_table
                (scoped secret_id tool action domains requested_at) now;
        };
        outcome = none;
        events = restored_event secret_id tool action domains at ∷ [];
      }
    ]

unfoldable pub approve_request :
    SecretStore → Text → Text → Text → Option Text → ℤ → ℤ → ℤ → Journaled (Option SecretStoreError)
unfolding approve_request_scoped
approve_request s secret_id tool action domain requested_at now at =
    approve_request_scoped s secret_id tool action (from_legacy domain) requested_at now at
