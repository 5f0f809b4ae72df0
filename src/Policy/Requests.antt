-- ===== src/Policy/Requests.antt =====
-- magicvault-core/src/policy.rs: access requests, grant bindings and what they match. The time that
-- `AccessRequest::scoped` reads is the argument `requested_at`.
use magic_vault.Base.{
  Text, text_eq, option_text_eq, ◌==◌, Bool, true, false, ◌&&◌, ◌||◌, not, Option, none, some, List,
  ◌++◌, if◌then◌else◌, ascii, is_empty, Eq, Result, ok, err,
}
use native.Mathlib.Decide.{ℕ_discrete}
use magic_vault.Base.Time.{ℤ}
use magic_vault.Policy.Domains.{
  RequestedDomains, DomainScopeError, from_wire, to_wire, from_legacy, domains_eq,
}

pub record AccessRequest : Type 0 where
  pub secret_id : Text
  pub tool : Text
  pub action : Text
  pub domain : Option Text
  pub domains : List Text
  pub requested_at : ℤ

unfoldable pub scoped : Text → Text → Text → RequestedDomains → ℤ → AccessRequest
unfolding to_wire
scoped secret_id tool action domains requested_at =
    let (domain, listed) = to_wire domains in
    record {
      secret_id = secret_id;
      tool = tool;
      action = action;
      domain = domain;
      domains = listed;
      requested_at = requested_at;
    }

unfoldable pub requested_domains : AccessRequest → Result RequestedDomains DomainScopeError
requested_domains request = from_wire request.domain request.domains

unfoldable pub tool_action : AccessRequest → Text
tool_action request = request.tool ++ (ascii ":" ++ request.action)

pub record DelegatedGrantAuthority : Type 0 where
  pub principal : Text
  pub workspace : Text
  pub provider : Text
  pub agent_id : Text

unfoldable pub authority_discrete : Discrete (Option DelegatedGrantAuthority)
authority_discrete = hlevel ℕ_discrete

instance unfoldable pub authority_eq : Eq (Option DelegatedGrantAuthority)
unfolding authority_discrete
authority_eq = record { dec = authority_discrete }

pub record GrantBinding : Type 0 where
  pub tool : Text
  pub action : Text
  pub domain : Option Text
  pub domains : List Text
  pub delegated_authority : Option DelegatedGrantAuthority

unfoldable pub from_request : AccessRequest → GrantBinding
from_request request = record {
  tool = request.tool;
  action = request.action;
  domain = request.domain;
  domains = request.domains;
  delegated_authority = none;
}

unfoldable pub delegated : AccessRequest → DelegatedGrantAuthority → GrantBinding
delegated request authority = record {
  tool = request.tool;
  action = request.action;
  domain = request.domain;
  domains = request.domains;
  delegated_authority = some authority;
}

unfoldable pub bound_domains : GrantBinding → Result RequestedDomains DomainScopeError
bound_domains b = from_wire b.domain b.domains

-- `Result::is_ok_and(|bound| &bound == domains)`.
abbrev pub is_ok_and_eq : Result RequestedDomains DomainScopeError → RequestedDomains → Bool
is_ok_and_eq (ok bound) domains = bound == domains
is_ok_and_eq (err _) domains = false

abbrev pub matches_domain : Option Text → Option Text → Bool
matches_domain (some expected) domain = domain == some expected
matches_domain none domain = true

unfoldable pub matches : GrantBinding → Text → Text → Option Text → Bool
matches b tool action domain =
    if not (b.tool == tool) || not (b.action == action) || not (is_empty b.domains)
    then false
    else matches_domain b.domain domain

unfoldable pub scope_matches : GrantBinding → Text → Text → RequestedDomains → Bool
unfolding bound_domains
scope_matches b tool action domains =
    b.tool == tool && b.action == action && is_ok_and_eq (bound_domains b) domains

unfoldable pub matches_domains : GrantBinding → Text → Text → RequestedDomains → Bool
unfolding scope_matches
matches_domains b tool action domains = scope_matches b tool action domains

unfoldable pub matches_secret_exact : GrantBinding → Text → Text → RequestedDomains → Bool
unfolding scope_matches
matches_secret_exact b tool action domains =
    b.delegated_authority == none && scope_matches b tool action domains

unfoldable pub matches_delegated_domains :
    GrantBinding → Text → Text → RequestedDomains → DelegatedGrantAuthority → Bool
unfolding scope_matches
matches_delegated_domains b tool action domains authority =
    scope_matches b tool action domains && b.delegated_authority == some authority

unfoldable pub matches_delegated :
    GrantBinding → Text → Text → Option Text → DelegatedGrantAuthority → Bool
unfolding matches_delegated_domains from_legacy
matches_delegated b tool action domain authority =
    matches_delegated_domains b tool action (from_legacy domain) authority
