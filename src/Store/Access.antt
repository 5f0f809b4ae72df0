-- ===== src/Store/Access.antt =====
-- magicvault-core/src/store.rs: the store's methods on provisioned secrets: the access check, the
-- use of the daily limit, and the issue and redemption of grants. A method that reads the clock more
-- than once takes the readings in their order, an id that is drawn is an argument.
use magic_vault.Base.{
  ℕ, Text, text_eq, not, Option, none, some, List, if◌then◌else◌, Result, ok, err,
}
use magic_vault.Base.Map.{lookup}
use magic_vault.Base.Time.{ℤ}
use magic_vault.Policy.Domains.{RequestedDomains, from_legacy}
use magic_vault.Policy.Requests.{
  GrantBinding, DelegatedGrantAuthority, scoped, from_request, delegated,
}
use magic_vault.Policy.Usage.{try_record_use}
use magic_vault.Policy.Check.{SecretPolicy, PolicyResult, check_policy}
use magic_vault.Policy.Grants.{
  RedemptionPayload, BoundGrantRedemption, BoundGrantRedemptionError, redeem_bound_batch,
  discard_grants,
}
use magic_vault.Policy.Grants
use magic_vault.Store.Features.{
  SecretSourceKind, SecretStoreError, secret_not_found, grant_not_found, policy_denied,
  daily_usage_exceeded, approval_required, refused_feature, status_for, is_available,
}
use magic_vault.Store.Vault.{SecretStore, SecretEntry, SecretRef}

unfoldable pub get_provisioned : SecretStore → Text → Option SecretEntry
get_provisioned s secret_id =
    if not (is_available (status_for s.capabilities SecretSourceKind.provisioned))
    then none
    else lookup secret_id s.provisioned

-- The guard that these methods open with: an error, or the entry of the secret.
unfoldable pub find_secret : SecretStore → Text → Result SecretEntry SecretStoreError
unfolding get_provisioned
find_secret s secret_id = elim (refused_feature s.capabilities SecretSourceKind.provisioned) [
  | some e ↦ err e
  | none ↦ elim (get_provisioned s secret_id) [
    | none ↦ err (secret_not_found secret_id)
    | some entry ↦ ok entry
  ]
]

-- What `evaluate_access_scoped` reads besides the store: the clock at the request, at the
-- consumption of an approval and at the issue of a challenge, and the id of the challenge.
pub record AccessInputs : Type 0 where
  pub requested_at : ℤ
  pub consumed_at : ℤ
  pub issued_at : ℤ
  pub challenge_id : Text

abbrev pub limit_of : Option SecretPolicy → Option ℕ
limit_of none = none
limit_of (some policy) = policy.max_uses_per_day

module _ (date_key : ℤ → ℕ) where
  unfoldable pub evaluate_access_scoped :
      SecretStore
      → Text
      → Text
      → Text
      → RequestedDomains
      → AccessInputs
      → SecretStore × Result PolicyResult SecretStoreError
  unfolding find_secret
  evaluate_access_scoped s secret_id tool action domains i = elim (find_secret s secret_id) [
    | err e ↦ (s, err e)
    | ok entry ↦ elim entry.policy [
      | none ↦ (s, ok PolicyResult.allowed)
      | some policy ↦
          let (approvals, result) =
            check_policy date_key policy (scoped secret_id tool action domains i.requested_at)
              s.usage_tracker s.approval_table i.challenge_id i.consumed_at i.issued_at in
          (record s { approval_table = approvals }, ok result)
    ]
  ]

  unfoldable pub evaluate_access :
      SecretStore
      → Text
      → Text
      → Text
      → Option Text
      → AccessInputs
      → SecretStore × Result PolicyResult SecretStoreError
  unfolding evaluate_access_scoped
  evaluate_access s secret_id tool action domain i =
      evaluate_access_scoped s secret_id tool action (from_legacy domain) i

  -- `at_ts` is the time given, or else the clock's.
  unfoldable pub record_usage : SecretStore → Text → ℤ → SecretStore × Option SecretStoreError
  unfolding find_secret
  record_usage s secret_id at_ts = elim (find_secret s secret_id) [
    | err e ↦ (s, some e)
    | ok entry ↦
        let (counts, recorded) =
          try_record_use date_key s.usage_tracker secret_id at_ts (limit_of entry.policy) in
        (record s { usage_tracker = counts }, if recorded then none else some daily_usage_exceeded)
  ]

abbrev pub ttl_or_default : SecretStore → Option ℤ → ℤ
ttl_or_default s none = s.default_grant_ttl_secs
ttl_or_default s (some ttl_secs) = ttl_secs

-- What the issue of a grant reads: the id that is drawn and the two clock readings.
pub record GrantInputs : Type 0 where
  pub grant_id : Text
  pub reaped_at : ℤ
  pub granted_at : ℤ

unfoldable pub issue_grant_with_binding :
    SecretStore
    → Text
    → GrantBinding
    → Option ℤ
    → GrantInputs
    → SecretStore × Result Text SecretStoreError
unfolding get_provisioned
issue_grant_with_binding s secret_id binding ttl_secs g = elim (get_provisioned s secret_id) [
  | none ↦ (s, err (secret_not_found secret_id))
  | some entry ↦
      let (grants, grant_id) =
        Grants.issue_grant s.grant_table secret_id entry.fields entry.injection binding
          (ttl_or_default s ttl_secs) g.grant_id g.reaped_at g.granted_at in
      (record s { grant_table = grants }, ok grant_id)
]

-- The error of a policy result that does not allow, and of an evaluation that failed.
abbrev pub refusal : Result PolicyResult SecretStoreError → Option SecretStoreError
refusal (err e) = some e
refusal (ok PolicyResult.allowed) = none
refusal (ok (PolicyResult.denied reason)) = some (policy_denied reason)
refusal (ok (PolicyResult.needs_approval challenge)) = some (approval_required challenge.id)

abbrev pub as_grant : Result Text SecretStoreError → Result SecretRef SecretStoreError
as_grant (ok grant_id) = ok (SecretRef.grant grant_id)
as_grant (err e) = err e

module _ (date_key : ℤ → ℕ) where
  -- `request_at` is the clock reading of the request that the binding is made from.
  unfoldable pub issue_grant_scoped :
      SecretStore
      → Text
      → Text
      → Text
      → RequestedDomains
      → Option ℤ
      → AccessInputs
      → ℤ
      → GrantInputs
      → SecretStore × Result SecretRef SecretStoreError
  unfolding evaluate_access_scoped issue_grant_with_binding
  issue_grant_scoped s secret_id tool action domains ttl_secs i request_at g =
      let (evaluated, result) = evaluate_access_scoped date_key s secret_id tool action domains i in
      let (issued, grant) =
        issue_grant_with_binding evaluated secret_id
          (from_request (scoped secret_id tool action domains request_at)) ttl_secs g in
      elim (refused_feature s.capabilities SecretSourceKind.provisioned) [
        | some e ↦ (s, err e)
        | none ↦ elim (refusal result) [
          | some e ↦ (evaluated, err e)
          | none ↦ (issued, as_grant grant)
        ]
      ]

  unfoldable pub issue_grant :
      SecretStore
      → Text
      → Text
      → Text
      → Option Text
      → Option ℤ
      → AccessInputs
      → ℤ
      → GrantInputs
      → SecretStore × Result SecretRef SecretStoreError
  unfolding issue_grant_scoped
  issue_grant s secret_id tool action domain ttl_secs i request_at g =
      issue_grant_scoped s secret_id tool action (from_legacy domain) ttl_secs i request_at g

  unfoldable pub issue_delegated_grant_scoped :
      SecretStore
      → Text
      → Text
      → Text
      → RequestedDomains
      → DelegatedGrantAuthority
      → Option ℤ
      → AccessInputs
      → ℤ
      → GrantInputs
      → SecretStore × Result Text SecretStoreError
  unfolding evaluate_access_scoped issue_grant_with_binding
  issue_delegated_grant_scoped s secret_id tool action domains authority ttl_secs i request_at g =
      let (evaluated, result) = evaluate_access_scoped date_key s secret_id tool action domains i in
      elim (refused_feature s.capabilities SecretSourceKind.provisioned) [
        | some e ↦ (s, err e)
        | none ↦ elim (refusal result) [
          | some e ↦ (evaluated, err e)
          | none ↦
              issue_grant_with_binding evaluated secret_id
                (delegated (scoped secret_id tool action domains request_at) authority) ttl_secs g
        ]
      ]

  unfoldable pub issue_delegated_grant :
      SecretStore
      → Text
      → Text
      → Text
      → Option Text
      → DelegatedGrantAuthority
      → Option ℤ
      → AccessInputs
      → ℤ
      → GrantInputs
      → SecretStore × Result Text SecretStoreError
  unfolding issue_delegated_grant_scoped
  issue_delegated_grant s secret_id tool action domain authority ttl_secs i request_at g =
      issue_delegated_grant_scoped s secret_id tool action (from_legacy domain) authority ttl_secs i
        request_at g

unfoldable pub redeem_grant :
    SecretStore → Text → ℤ → SecretStore × Result RedemptionPayload SecretStoreError
redeem_grant s grant_id now =
    let (grants, payload) = Grants.redeem_grant s.grant_table grant_id now in
    elim (refused_feature s.capabilities SecretSourceKind.provisioned) [
      | some e ↦ (s, err e)
      | none ↦ (
        record s { grant_table = grants },
        elim payload [ none ↦ err (grant_not_found grant_id) | some p ↦ ok p ],
      )
    ]

unfoldable pub redeem_bound_grants :
    SecretStore
    → List BoundGrantRedemption
    → ℤ
    → SecretStore × Result (List RedemptionPayload) BoundGrantRedemptionError
redeem_bound_grants s requests now =
    let (grants, outcome) = redeem_bound_batch s.grant_table requests now in
    (record s { grant_table = grants }, outcome)

unfoldable pub discard_store_grants : SecretStore → List Text → SecretStore
discard_store_grants s grant_ids = record s { grant_table = discard_grants s.grant_table grant_ids }
