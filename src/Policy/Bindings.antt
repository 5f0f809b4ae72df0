-- ===== src/Policy/Bindings.antt =====
-- magicvault-core/src/policy.rs: what a grant binding matches.
use magic_vault.Base.{
  Text, text_eq, option_text_eq, ◌==◌, Bool, ◌&&◌, Option, none, some, ok, ◌≡◌, refl, arith,
}
use magic_vault.Base.Time.{ℤ}
use magic_vault.Policy.Domains.{RequestedDomains, domains_eq, from_legacy}
use magic_vault.Policy.Requests.{
  scoped, from_request, delegated, GrantBinding, DelegatedGrantAuthority, authority_eq,
  bound_domains, scope_matches, matches_secret_exact, matches_delegated, matches_delegated_domains,
}
use magic_vault.Policy.HostSets.{IsCanonical}
use magic_vault.Policy.WireTrips.{from_wire-to_wire}
use magic_vault.Policy.Grants.{
  GrantBindingExpectation, secret, delegated_to, secret_scoped, delegated_scoped, is_expected,
}

-- The tool, the action, the domains and the authority that an expectation names.
pub record Named : Type 0 where
  pub tool : Text
  pub action : Text
  pub domains : RequestedDomains
  pub authority : Option DelegatedGrantAuthority

unfoldable pub named_by : GrantBindingExpectation → Named
named_by (secret t a domain) = record {
  tool = t;
  action = a;
  domains = from_legacy domain;
  authority = none;
}
named_by (delegated_to t a domain authority) = record {
  tool = t;
  action = a;
  domains = from_legacy domain;
  authority = some authority;
}
named_by (secret_scoped t a domains) = record {
  tool = t;
  action = a;
  domains = domains;
  authority = none;
}
named_by (delegated_scoped t a domains authority) = record {
  tool = t;
  action = a;
  domains = domains;
  authority = some authority;
}

-- Whether the expectation names exactly this.
unfoldable pub names_exactly :
    GrantBindingExpectation → Text → Text → RequestedDomains → Option DelegatedGrantAuthority → Bool
unfolding named_by
names_exactly e tool action domains authority =
    let n = named_by e in
    tool == n.tool && action == n.action && domains == n.domains && authority == n.authority

scope_matches-bound :
    (b : GrantBinding) (d domains : RequestedDomains) (tool action : Text)
    → bound_domains b ≡ ok d
    → scope_matches b tool action domains ≡ (b.tool == tool && b.action == action && d == domains)
unfolding scope_matches
scope_matches-bound b d domains tool action h = rw h refl

is_expected-bound :
    (b : GrantBinding) (d : RequestedDomains) (e : GrantBindingExpectation)
    → bound_domains b ≡ ok d
    → is_expected b e ≡ names_exactly e b.tool b.action d b.delegated_authority
unfolding is_expected names_exactly named_by matches_secret_exact matches_delegated
    matches_delegated_domains
is_expected-bound b d (secret t a domain) h =
    ground (arith, scope_matches-bound b d (from_legacy domain) t a h)
is_expected-bound b d (delegated_to t a domain w) h =
    ground (arith, scope_matches-bound b d (from_legacy domain) t a h)
is_expected-bound b d (secret_scoped t a domains) h =
    ground (arith, scope_matches-bound b d domains t a h)
is_expected-bound b d (delegated_scoped t a domains w) h =
    ground (arith, scope_matches-bound b d domains t a h)

-- The binding of a grant for a scoped request with canonical domains, on the request's own
-- authority or on a delegated one, meets an expectation exactly when that names the same tool,
-- action, domains and authority: a grant of a secret never meets a delegated expectation, nor the
-- reverse.
pub is_expected-exact :
    (secret_id tool action : Text) (domains : RequestedDomains) (at : ℤ)
    (authority : DelegatedGrantAuthority) (e : GrantBindingExpectation)
    → IsCanonical domains
    → let request = scoped secret_id tool action domains at in
      (is_expected (from_request request) e ≡ names_exactly e tool action domains none)
      × (is_expected (delegated request authority) e
          ≡ names_exactly e tool action domains (some authority))
unfolding scoped from_request delegated bound_domains
is_expected-exact secret_id tool action domains at authority e c = (
  is_expected-bound (from_request (scoped secret_id tool action domains at)) domains e
      (from_wire-to_wire domains c),
  is_expected-bound (delegated (scoped secret_id tool action domains at) authority) domains e
      (from_wire-to_wire domains c),
)
