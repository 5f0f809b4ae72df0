-- ===== src/Store/Issue.antt =====
-- magicvault-core/src/store.rs: the issue of a grant and its redemption.
use magic_vault.Base.{
  ℕ, Text, text_eq, Bool, Option, none, some, [], ◌∷◌, if◌then◌else◌, ok, err, ◌≡◌, ap, ◌∙◌, inl,
  inr, ◌↔◌, arith, Result-cases,
}
use magic_vault.Base.Bytes.{any_of}
use magic_vault.Base.Map.{lookup, lookup-insert_self}
use magic_vault.Base.Time.{ℤ, leb_ℤ, add_i64}
use magic_vault.Policy.Domains.{RequestedDomains}
use magic_vault.Policy.Requests.{GrantBinding, DelegatedGrantAuthority, scoped, from_request}
use magic_vault.Policy.HostSets.{IsCanonical}
use magic_vault.Policy.Check.{PolicyResult}
use magic_vault.Policy.Grants.{
  GrantTable, GrantRecord, RedemptionPayload, GrantBindingExpectation, is_expected,
  binding_mismatch, expired, redeem_bound_batch, has_duplicate, validate, take_grants, payloads,
}
use magic_vault.Policy.Grants
use magic_vault.Policy.Bindings.{names_exactly, is_expected-exact}
use magic_vault.Store.Features.{SecretSourceKind, refused_feature}
use magic_vault.Store.Vault.{SecretStore, SecretEntry, SecretRef}
use magic_vault.Store.Access.{
  AccessInputs, GrantInputs, find_secret, get_provisioned, evaluate_access_scoped,
  issue_grant_scoped, issue_grant_with_binding, redeem_bound_grants, ttl_or_default,
}

-- A batch of one request.
redeem_one :
    (t : GrantTable) (token : Text) (e : GrantBindingExpectation) (now : ℤ) (g : GrantRecord)
    → lookup token t ≡ some g
    → (redeem_bound_batch t (record { token = token; expected = e } ∷ []) now).1 ≡ (
        if leb_ℤ g.expires_at now
        then err expired
        else if is_expected g.payload.binding e
        then ok (g.payload ∷ [])
        else err binding_mismatch)
unfolding redeem_bound_batch has_duplicate any_of validate take_grants payloads
redeem_one t token e now g h = ground arith

issue_grant-lookup :
    (t : GrantTable) (secret_id id : Text) (entry : SecretEntry) (b : GrantBinding)
    (ttl now later : ℤ)
    → lookup id (Grants.issue_grant t secret_id entry.fields entry.injection b ttl id now later).0
      ≡ some (record {
        payload = record {
          secret_id = secret_id;
          fields = entry.fields;
          target = entry.injection;
          binding = b;
        };
        expires_at = add_i64 later ttl;
      })
unfolding Grants.issue_grant
issue_grant-lookup t secret_id id entry b ttl now later = lookup-insert_self id _ _

is_expected_secret :
    (secret_id tool action : Text) (domains : RequestedDomains) (at : ℤ)
    (e : GrantBindingExpectation)
    → IsCanonical domains
    → is_expected (from_request (scoped secret_id tool action domains at)) e
      ≡ names_exactly e tool action domains none
is_expected_secret secret_id tool action domains at e c =
    let nobody : DelegatedGrantAuthority = record {
      principal = [];
      workspace = [];
      provider = [];
      agent_id = [];
    } in
    (is_expected-exact secret_id tool action domains at nobody e c).0

-- The payload that a grant of the secret for this access carries.
abbrev pub granted_payload :
    Text → Text → Text → RequestedDomains → ℤ → SecretEntry → RedemptionPayload
granted_payload secret_id tool action domains request_at entry = record {
  secret_id = secret_id;
  fields = entry.fields;
  target = entry.injection;
  binding = from_request (scoped secret_id tool action domains request_at);
}

find_secret_iff :
    (s : SecretStore) (secret_id : Text) (entry : SecretEntry)
    → (find_secret s secret_id ≡ ok entry) ↔ (
        (refused_feature s.capabilities SecretSourceKind.provisioned ≡ none)
        × (get_provisioned s secret_id ≡ some entry))
unfolding find_secret
find_secret_iff s secret_id entry = (λ h. ground arith, λ (h, q). ground arith)

module _ (date_key : ℤ → ℕ) where
  evaluate-same :
      (s : SecretStore) (secret_id tool action : Text) (domains : RequestedDomains)
      (i : AccessInputs)
      → let u = (evaluate_access_scoped date_key s secret_id tool action domains i).0 in
        (get_provisioned u secret_id ≡ get_provisioned s secret_id)
        × (u.grant_table ≡ s.grant_table)
        × (u.default_grant_ttl_secs ≡ s.default_grant_ttl_secs)
  unfolding evaluate_access_scoped get_provisioned
  evaluate-same s secret_id tool action domains i = ground arith

  evaluate-found :
      (s : SecretStore) (secret_id tool action : Text) (domains : RequestedDomains)
      (i : AccessInputs) (r : PolicyResult)
      → (evaluate_access_scoped date_key s secret_id tool action domains i).1 ≡ ok r
      → (entry : SecretEntry) × (find_secret s secret_id ≡ ok entry)
  unfolding evaluate_access_scoped
  evaluate-found s secret_id tool action domains i r h =
      elim (Result-cases (find_secret s secret_id)) [
        | inl found ↦ found
        | inr (e, q) ↦ absurd (ground arith)
      ]

  -- The grant with the id that was drawn is returned exactly when the evaluation of the same
  -- access allows it: a denial, a needed approval, a missing secret and a disabled feature all
  -- return an error.
  pub issue_grant_scoped_iff :
      (s : SecretStore) (secret_id tool action : Text) (domains : RequestedDomains) (ttl : Option ℤ)
      (i : AccessInputs) (request_at : ℤ) (g : GrantInputs)
      → ((issue_grant_scoped date_key s secret_id tool action domains ttl i request_at g).1
          ≡ ok (SecretRef.grant g.grant_id))
        ↔ ((evaluate_access_scoped date_key s secret_id tool action domains i).1
            ≡ ok PolicyResult.allowed)
  unfolding issue_grant_scoped issue_grant_with_binding Grants.issue_grant
  issue_grant_scoped_iff s secret_id tool action domains ttl i request_at g = (
    λ h. ground arith,
    λ h.
        let (entry, found) =
          evaluate-found s secret_id tool action domains i PolicyResult.allowed h in
        let (feature, there) = (find_secret_iff s secret_id entry).0 found in
        let (same, _, _) = evaluate-same s secret_id tool action domains i in
        ground (arith, feature, there, same),
  )

  issued :
      (s : SecretStore) (secret_id tool action : Text) (domains : RequestedDomains) (ttl : Option ℤ)
      (i : AccessInputs) (request_at : ℤ) (g : GrantInputs) (entry : SecretEntry)
      → find_secret s secret_id ≡ ok entry
      → (evaluate_access_scoped date_key s secret_id tool action domains i).1
        ≡ ok PolicyResult.allowed
      → (issue_grant_scoped date_key s secret_id tool action domains ttl i request_at
          g).0.grant_table
        ≡ (Grants.issue_grant s.grant_table secret_id entry.fields entry.injection
            (from_request (scoped secret_id tool action domains request_at))
            (ttl_or_default s ttl)
            g.grant_id
            g.reaped_at
            g.granted_at).0
  unfolding issue_grant_scoped issue_grant_with_binding
  issued s secret_id tool action domains ttl i request_at g entry found h =
      let (feature, there) = (find_secret_iff s secret_id entry).0 found in
      let (same, grants, default) = evaluate-same s secret_id tool action domains i in
      ground (arith, feature, there, same, grants, default, h)

  -- A grant that was issued for canonical domains, to a secret that is there and whose evaluation
  -- allows the access, is redeemed, until its time to live is over, by a batch of one request for
  -- exactly the tool, the action and the domains it was issued for, on no delegated authority,
  -- and yields the fields of the secret; any other request is a mismatch.
  pub issue_grant_scoped-redeem :
      (s : SecretStore) (secret_id tool action : Text) (domains : RequestedDomains) (ttl : Option ℤ)
      (i : AccessInputs) (request_at : ℤ) (g : GrantInputs) (entry : SecretEntry)
      (e : GrantBindingExpectation) (now : ℤ)
      → IsCanonical domains
      → find_secret s secret_id ≡ ok entry
      → (evaluate_access_scoped date_key s secret_id tool action domains i).1
        ≡ ok PolicyResult.allowed
      → let u =
          (issue_grant_scoped date_key s secret_id tool action domains ttl i request_at g).0 in
        (redeem_bound_grants u (record { token = g.grant_id; expected = e } ∷ []) now).1 ≡ (
          if leb_ℤ (add_i64 g.granted_at (ttl_or_default s ttl)) now
          then err expired
          else if names_exactly e tool action domains none
          then ok (granted_payload secret_id tool action domains request_at entry ∷ [])
          else err binding_mismatch)
  unfolding redeem_bound_grants
  issue_grant_scoped-redeem s secret_id tool action domains ttl i request_at g entry e now c found
        h =
      let u = (issue_grant_scoped date_key s secret_id tool action domains ttl i request_at g).0 in
      let record_of : GrantRecord = record {
        payload = granted_payload secret_id tool action domains request_at entry;
        expires_at = add_i64 g.granted_at (ttl_or_default s ttl);
      } in
      let there : lookup g.grant_id u.grant_table ≡ some record_of =
        ap (lookup g.grant_id)
          (issued s secret_id tool action domains ttl i request_at g entry found h)
        ∙ issue_grant-lookup s.grant_table secret_id g.grant_id entry
            (from_request (scoped secret_id tool action domains request_at)) (ttl_or_default s ttl)
            g.reaped_at g.granted_at in
      redeem_one u.grant_table g.grant_id e now record_of there
      ∙ ap
          (λ (b : Bool).
            if leb_ℤ record_of.expires_at now
            then err expired
            else if b
            then ok (record_of.payload ∷ [])
            else err binding_mismatch)
          (is_expected_secret secret_id tool action domains request_at e c)
