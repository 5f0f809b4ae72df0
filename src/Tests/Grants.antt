-- ===== src/Tests/Grants.antt =====
-- Runs of the policy (magicvault-core/src/policy.rs) at one secret that is posted to a bank's hosts.
use Prim.Native.Nat.{◌/◌}
use native.Mathlib.Decide.{ℕ_discrete}
use magic_vault.Base.{
  ℕ, ◌+◌, ◌≤◌, Text, text_eq, nat_eq, option_text_eq, true, none, some, List, [], ◌∷◌, ascii, ◌↔◌,
  ◌≡◌, ◌≢◌, ◌⊎◌, refl, ◌∙◌, arith, ok, err, if◌then◌else◌,
}
use magic_vault.Base.Bytes.{compare_text, any_of, all_of, all_bytes, split, ends_with_byte}
use magic_vault.Base.Map.{lookup}
use magic_vault.Base.Time.{ℤ, pos, add_i64, ◌<ℤ◌}
use magic_vault.Secrets.{InjectionTarget}
use magic_vault.Policy.Domains.{RequestedDomains, set, is_dns_host, is_label, domains_eq}
use magic_vault.Policy.Requests.{
  AccessRequest, DelegatedGrantAuthority, scoped, requested_domains, from_request, authority_eq,
}
use magic_vault.Policy.Usage.{count}
use magic_vault.Policy.Approvals.{
  ApprovalTable, issue, grant, consume, approve_request, fingerprint_eq,
}
use magic_vault.Policy.Check.{SecretPolicy, check_policy, allowed}
use magic_vault.Policy.Grants.{
  GrantTable, GrantRecord, BoundGrantRedemption, BoundGrantRedemptionError, secret_scoped,
  redeem_bound_batch, is_expected, expired, internal, has_duplicate, reap_expired,
}
use magic_vault.Policy.HostSets.{IsCanonical}
use magic_vault.Policy.WireTrips.{from_wire-to_wire}
use magic_vault.Policy.Permits.{check_policy_iff, IsPermitted}
use magic_vault.Policy.DailyLimit.{use_all, use_all-count}
use magic_vault.Policy.ApprovalUse.{issue-grant-consume}
use magic_vault.Policy.Redemption.{
  IsBatch, named_payloads, names_token, redeem_bound_batch-ok, redeem_bound_batch-err,
}
use magic_vault.Policy.Bindings.{is_expected-exact, names_exactly, named_by}

abbrev pub day : ℤ → ℕ
day (pos n) = n / 86400
day _ = 0

abbrev pub secret_id : Text
secret_id = ascii "s1"

abbrev pub http : Text
http = ascii "http"

abbrev pub post : Text
post = ascii "post"

abbrev pub bank : RequestedDomains
bank = set (ascii "api.bank.example" ∷ ascii "bank.example" ∷ [])

abbrev policy : SecretPolicy
policy = record {
  allowed_tools = ascii "http:post" ∷ [];
  allowed_domains = ascii "*.bank.example" ∷ [];
  max_uses_per_day = some 2;
  requires_approval = true;
}

abbrev request : AccessRequest
request = scoped secret_id http post bank (pos 1000)

abbrev pub no_approvals : ApprovalTable
no_approvals = record { ttl_secs = pos 300; pending = []; approved = [] }

check_policy_iff_example :
    ((check_policy day policy request [] no_approvals (ascii "c1") (pos 1000) (pos 1001)).1
      ≡ allowed)
    ↔ ((requested : RequestedDomains) × IsPermitted day request [] no_approvals
          (pos 1000)
          policy
          requested)
check_policy_iff_example =
    check_policy_iff day request [] no_approvals (pos 1000) policy (ascii "c1") (pos 1001)

abbrev first : Text
first = ascii "g1"

abbrev stored : GrantRecord
stored = record {
  payload = record {
    secret_id = secret_id;
    fields = (ascii "value", ascii "hunter2") ∷ [];
    target = InjectionTarget.inline;
    binding = from_request request;
  };
  expires_at = pos 1300;
}

abbrev grants : GrantTable
grants = (first, stored) ∷ []

abbrev wanted : Text → BoundGrantRedemption
wanted token = record { token = token; expected = secret_scoped http post bank }

pub bank-IsCanonical : IsCanonical bank
unfolding compare_text is_dns_host is_label all_bytes all_of split nat_eq ends_with_byte ℕ_discrete
    text_eq
bank-IsCanonical = (
  record {
    ascends = ((refl, tt), (tt, tt));
    are_hosts = (refl, (refl, tt));
    bounded = omega arith;
  },
  omega arith,
)

abbrev agent : DelegatedGrantAuthority
agent = record {
  principal = ascii "p";
  workspace = ascii "w";
  provider = ascii "x";
  agent_id = ascii "a";
}

named_here : names_exactly (secret_scoped http post bank) http post bank none ≡ true
unfolding names_exactly named_by text_eq ℕ_discrete domains_eq authority_eq
named_here = refl

expected_here : is_expected (from_request request) (secret_scoped http post bank) ≡ true
expected_here =
    (is_expected-exact secret_id http post bank (pos 1000) agent (secret_scoped http post bank)
      bank-IsCanonical).0
    ∙ named_here

found_here : lookup first grants ≡ some stored
unfolding lookup text_eq ℕ_discrete
found_here = refl

batch : IsBatch grants (pos 1100) (wanted first ∷ [])
unfolding has_duplicate any_of
batch = record {
  nonempty = refl;
  bounded = omega arith;
  distinct = refl;
  redeemable = (
    record {
      granted = stored;
      found = found_here;
      in_time = omega arith;
      expected = expected_here;
    },
    tt,
  );
}

redeem_bound_batch-ok_example :
    let (u, outcome) = redeem_bound_batch grants (wanted first ∷ []) (pos 1100) in
    (outcome ≡ ok (named_payloads grants (wanted first ∷ [])))
    × (lookup first u
        ≡ (if names_token first (wanted first ∷ []) then none else lookup first grants))
redeem_bound_batch-ok_example =
    redeem_bound_batch-ok grants (wanted first ∷ []) (pos 1100) first batch

two : List BoundGrantRedemption
two = wanted first ∷ wanted (ascii "g2") ∷ []

two_fail : ¬ (IsBatch grants (pos 1100) two)
unfolding lookup text_eq ℕ_discrete two
two_fail b = let (m, _) = b.redeemable.1 in let found = m.found in cc

redeem_bound_batch-err_example :
    let (u, outcome) = redeem_bound_batch grants two (pos 1100) in
    (e : BoundGrantRedemptionError) × (outcome ≡ err e)
    × (e ≢ internal)
    × (((u ≡ grants) × (e ≢ expired)) ⊎ ((u ≡ reap_expired grants (pos 1100)) × (e ≡ expired)))
redeem_bound_batch-err_example = redeem_bound_batch-err grants two (pos 1100) two_fail

use_all-count_example :
    let (end, n) = use_all day [] secret_id (some 2) (pos 10 ∷ pos 20 ∷ pos 30 ∷ []) 0 in
    (count (secret_id, 0) end ≤ 2) × (count (secret_id, 0) [] + n ≡ count (secret_id, 0) end)
unfolding count
use_all-count_example =
    use_all-count day [] secret_id 2 (pos 10 ∷ pos 20 ∷ pos 30 ∷ []) 0 (omega arith) (omega arith)

well_formed : requested_domains request ≡ ok bank
unfolding scoped requested_domains
well_formed = from_wire-to_wire bank bank-IsCanonical

early_grant : pos 1100 <ℤ add_i64 request.requested_at no_approvals.ttl_secs
unfolding add_i64 scoped
early_grant = omega arith

early_use : pos 1200 <ℤ add_i64 request.requested_at no_approvals.ttl_secs
unfolding add_i64 scoped
early_use = omega arith

issue-grant-consume_example :
    let (t₁, c) = issue no_approvals request (ascii "c1") (pos 1001) in
    let (t₂, granted_now) = grant t₁ (ascii "c1") (pos 1100) in
    (granted_now ≡ some c)
    × ((grant t₂ (ascii "c1") (pos 1150)).1 ≡ none)
    × ((consume t₂ request (pos 1200)).1 ≡ true)
issue-grant-consume_example =
    issue-grant-consume no_approvals request (ascii "c1") (pos 1001) (pos 1100) (pos 1200)
      (pos 1150) {d = bank} tt well_formed early_grant early_use

abbrev approved_once : ApprovalTable
approved_once = approve_request no_approvals request (pos 1001)
