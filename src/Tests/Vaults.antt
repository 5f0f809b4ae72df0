-- ===== src/Tests/Vaults.antt =====
-- Runs of the store (magicvault-core/src/store.rs) at one provisioned secret and one run.
use native.Mathlib.Decide.{ℕ_discrete}
use magic_vault.Base.{
  text_eq, false, none, some, [], ◌∷◌, ascii, ◌≡◌, ◌≢◌, refl, arith, ok, err, if◌then◌else◌,
}
use magic_vault.Base.Map.{lookup, insert, remove}
use magic_vault.Base.Time.{pos, leb_ℤ, ltb_ℤ, add_i64, min_ℤ}
use magic_vault.Secrets.{InjectionTarget}
use magic_vault.OneTime.Entry.{
  admits, receipt, transitioned, terminal_error, state_error, expire_if_due, destination_ok,
  challenge_ok,
}
use magic_vault.OneTime.Table.{
  next_u64, key, register, reserve, new_entry, supersede, reserve_entry, index_reservation,
}
use magic_vault.OneTime.Scope.{sweep, sweep_entries}
use magic_vault.Policy.Check.{PolicyResult}
use magic_vault.Policy.Grants.{binding_mismatch, expired, secret_scoped, GrantBindingExpectation}
use magic_vault.Policy.Bindings.{names_exactly}
use magic_vault.Store.Features.{fully_available, refused_feature}
use magic_vault.Store.Vault.{SecretStore, SecretEntry, SecretSource, SecretRef}
use magic_vault.Store.Ephemeral.{
  register_ephemeral_inner, get_ephemeral_scoped, is_due, clear_ephemeral,
  ephemeral_scope_holds_user_typed_secret,
}
use magic_vault.Store.Custody.{reserve_one_time, one_time_feature}
use magic_vault.Store.Access.{
  AccessInputs, GrantInputs, find_secret, get_provisioned, evaluate_access_scoped,
  issue_grant_scoped, redeem_bound_grants, ttl_or_default,
}
use magic_vault.Store.Deadlines.{register_ephemeral-get}
use magic_vault.Store.Clearing.{clear_ephemeral-holds}
use magic_vault.Store.Issue.{issue_grant_scoped-redeem, granted_payload}
use magic_vault.Tests.Codes.{registered, scope, code, first, submit, reserved_code}
use magic_vault.Tests.Grants.{bank, bank-IsCanonical, http, post, secret_id, day, no_approvals}

abbrev entry : SecretEntry
entry = record {
  id = secret_id;
  label = ascii "bank";
  fields = (ascii "value", ascii "hunter2") ∷ [];
  source = SecretSource.provisioned;
  injection = InjectionTarget.inline;
  policy = none;
  created_at = pos 0;
}

abbrev store : SecretStore
store = record {
  capabilities = fully_available (ascii "memory");
  default_grant_ttl_secs = pos 300;
  provisioned = (secret_id, entry) ∷ [];
  ephemeral = [];
  ephemeral_deadlines = [];
  one_time = registered;
  usage_tracker = [];
  approval_table = no_approvals;
  grant_table = [];
}

abbrev held : SecretStore
held =
    (register_ephemeral_inner store scope (ascii "pin") (ascii "4711") (some (pos 9000)) (pos 2000)
      (pos 2)).0

test_registered :
    (register_ephemeral_inner store scope
      (ascii "pin")
      (ascii "4711")
      (some (pos 9000))
      (pos 2000)
      (pos 2)).1
    ≡ ok (SecretRef.placeholder (ascii "pin"))
unfolding register_ephemeral_inner refused_feature leb_ℤ
test_registered = refl

register_ephemeral-get_example :
    (get_ephemeral_scoped held scope (ascii "pin") (pos 8999)).1
    ≡ (if is_due (pos 8999) (some (pos 9000)) then none else some (ascii "4711"))
register_ephemeral-get_example =
    register_ephemeral-get store scope (ascii "pin") (ascii "4711") (some (pos 9000)) (pos 2000)
      (pos 2) (pos 8999) tt test_registered

other_scope : ascii "other" ≢ scope
other_scope = λ h. ground arith

clear_ephemeral-holds_example :
    let u = (clear_ephemeral store scope).0 in
    (ephemeral_scope_holds_user_typed_secret u scope (pos 3000) ≡ false)
    × (ephemeral_scope_holds_user_typed_secret u (ascii "other") (pos 3000)
        ≡ ephemeral_scope_holds_user_typed_secret store (ascii "other") (pos 3000))
clear_ephemeral-holds_example =
    clear_ephemeral-holds store scope (ascii "other") (pos 3000) refl tt other_scope

test_unused : lookup first registered.reservations ≡ none
unfolding register lookup leb_ℤ
test_unused = refl

feature_on : one_time_feature store ≡ none
unfolding one_time_feature refused_feature
feature_on = refl

test_reserved :
    lookup
      (key scope code)
      (reserve_one_time store scope code submit first (pos 2000)).store.one_time.entries
    ≡ some reserved_code
unfolding reserve_one_time one_time_feature refused_feature sweep sweep_entries next_u64 register
    reserve lookup insert remove supersede key text_eq ℕ_discrete leb_ℤ new_entry reserve_entry
    index_reservation ltb_ℤ admits destination_ok challenge_ok expire_if_due terminal_error
    state_error transitioned receipt min_ℤ add_i64
test_reserved = refl

abbrev reads : AccessInputs
reads = record {
  requested_at = pos 1000;
  consumed_at = pos 1000;
  issued_at = pos 1000;
  challenge_id = ascii "c1";
}

abbrev draws : GrantInputs
draws = record { grant_id = ascii "g1"; reaped_at = pos 1000; granted_at = pos 1001 }

found_entry : find_secret store secret_id ≡ ok entry
unfolding find_secret refused_feature get_provisioned lookup text_eq ℕ_discrete
found_entry = refl

test_allowed :
    (evaluate_access_scoped day store secret_id http post bank reads).1 ≡ ok PolicyResult.allowed
unfolding evaluate_access_scoped find_secret refused_feature get_provisioned lookup text_eq
    ℕ_discrete
test_allowed = refl

abbrev expectation : GrantBindingExpectation
expectation = secret_scoped http post bank

issue_grant_scoped-redeem_example :
    let u = (issue_grant_scoped day store secret_id http post bank none reads (pos 1000) draws).0 in
    (redeem_bound_grants u
      (record { token = draws.grant_id; expected = expectation } ∷ [])
      (pos 1200)).1
    ≡ (if leb_ℤ (add_i64 draws.granted_at (ttl_or_default store none)) (pos 1200)
        then err expired
        else if names_exactly expectation http post bank none
        then ok (granted_payload secret_id http post bank (pos 1000) entry ∷ [])
        else err binding_mismatch)
issue_grant_scoped-redeem_example =
    issue_grant_scoped-redeem day store secret_id http post bank none reads (pos 1000) draws entry
      expectation (pos 1200) bank-IsCanonical found_entry test_allowed
