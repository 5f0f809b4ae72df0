-- ===== src/Policy/Check.antt =====
-- magicvault-core/src/policy.rs: `SecretPolicy`, the routes, and `check_policy`. The text of a deny
-- reason is a constructor with the values that the text shows.
use magic_vault.Base.{
  ℕ, Text, text_eq, ◌==◌, Bool, true, false, ◌&&◌, ◌||◌, not, Option, none, some, List, [], ◌∷◌,
  ◌++◌, if◌then◌else◌, ascii, is_empty, ok, err,
}
use magic_vault.Base.Bytes.{to_ascii_lowercase, any_of, strip_prefix, ends_with}
use magic_vault.Base.Time.{ℤ}
use magic_vault.Secrets.{InjectionTarget, header, form_fields, cookies, inline}
use magic_vault.Policy.Domains.{
  RequestedDomains, DomainScopeError, ShownHost, display_host, is_dns_host, any_domain, no_domain,
  one, set, any,
}
use magic_vault.Policy.Requests.{AccessRequest, requested_domains, tool_action}
use magic_vault.Policy.Usage.{Counts, is_within_limit}
use magic_vault.Policy.Approvals.{ApprovalTable, ApprovalChallenge, consume, issue}

pub record SecretPolicy : Type 0 where
  pub allowed_tools : List Text
  pub allowed_domains : List Text
  pub max_uses_per_day : Option ℕ
  pub requires_approval : Bool

abbrev pub http_provisioned_policy_routes : List Text
http_provisioned_policy_routes =
    ascii "http:get"
    ∷ ascii "http:post"
    ∷ ascii "http:put"
    ∷ ascii "http:patch"
    ∷ ascii "http:delete"
    ∷ ascii "http:head"
    ∷ ascii "http:options"
    ∷ []

abbrev pub browser_provisioned_policy_routes : List Text
browser_provisioned_policy_routes = ascii "browser:execute" ∷ []

pub record ProvisionedPolicyRouteCatalog : Type 0 where
  pub http : List Text
  pub browser : List Text

unfoldable pub for_target : ProvisionedPolicyRouteCatalog → InjectionTarget → List Text
for_target c (header _ _) = c.http
for_target c (form_fields _) = c.http
for_target c (cookies _) = c.http ++ c.browser
for_target c inline = []

abbrev pub provisioned_policy_route_catalog : ProvisionedPolicyRouteCatalog
provisioned_policy_route_catalog = record {
  http = http_provisioned_policy_routes;
  browser = browser_provisioned_policy_routes;
}

unfoldable pub provisioned_policy_routes_for_target : InjectionTarget → List Text
provisioned_policy_routes_for_target (header _ _) = http_provisioned_policy_routes
provisioned_policy_routes_for_target (form_fields _) = http_provisioned_policy_routes
provisioned_policy_routes_for_target (cookies _) =
    ascii "http:get"
    ∷ ascii "http:post"
    ∷ ascii "http:put"
    ∷ ascii "http:patch"
    ∷ ascii "http:delete"
    ∷ ascii "http:head"
    ∷ ascii "http:options"
    ∷ ascii "browser:execute"
    ∷ []
provisioned_policy_routes_for_target inline = []

unfoldable pub unsupported_among : List Text → List Text → List Text
unfolding any_of
unsupported_among supported [] = []
unsupported_among supported (route ∷ routes) =
    let rest = unsupported_among supported routes in
    if any_of (λ r. r == route) supported then rest else route ∷ rest

unfoldable pub find_unsupported_provisioned_policy_routes : InjectionTarget → List Text → List Text
unfolding unsupported_among provisioned_policy_routes_for_target
find_unsupported_provisioned_policy_routes target routes =
    unsupported_among (provisioned_policy_routes_for_target target) routes

-- `domain` is a lowercase host; the case of the pattern is ignored.
unfoldable pub domain_matches : Text → Text → Bool
domain_matches pattern domain =
    let lowered = to_ascii_lowercase pattern in
    if pattern == any_domain
    then not (is_empty domain)
    else if lowered == domain
    then true
    else elim (strip_prefix (ascii "*.") lowered) [
      | none ↦ false
      | some suffix ↦ domain == suffix || ends_with domain (b'.' ∷ suffix)
    ]

unfoldable pub admitted_host : List Text → Text → Bool
admitted_host patterns host = any_of (λ pattern. domain_matches pattern host) patterns

-- `iter().find(..)` of a host that no pattern admits.
unfoldable pub find_refused : List Text → List Text → Option Text
find_refused patterns [] = none
find_refused patterns (host ∷ hosts) =
    let rest = find_refused patterns hosts in
    if admitted_host patterns host then rest else some host

pub data DenyReason : Type 0 where
  tool_not_allowed : Text → DenyReason
  invalid_domains : DomainScopeError → DenyReason
  no_target_domain : DenyReason
  not_a_host : ShownHost → DenyReason
  domain_not_allowed : Text → DenyReason
  all_domains_requested : DenyReason
  daily_limit_exceeded : ℕ → DenyReason

pub data PolicyResult : Type 0 where
  allowed : PolicyResult
  denied : DenyReason → PolicyResult
  needs_approval : ApprovalChallenge → PolicyResult

-- The match on the requested domains for a secret with allowed domains.
unfoldable pub check_scope : List Text → RequestedDomains → Option DenyReason
check_scope patterns no_domain = some no_target_domain
check_scope patterns (one domain) =
    let host = to_ascii_lowercase domain in
    if not (is_dns_host host)
    then some (not_a_host (display_host domain))
    else if not (admitted_host patterns host)
    then some (domain_not_allowed host)
    else none
check_scope patterns (set hosts) = elim (find_refused patterns hosts) [
  | none ↦ none
  | some host ↦ some (domain_not_allowed host)
]
check_scope patterns any =
    if any_of (λ pattern. pattern == any_domain) patterns then none else some all_domains_requested

unfoldable pub check_domains : List Text → RequestedDomains → Option DenyReason
check_domains patterns requested =
    if is_empty patterns then none else check_scope patterns requested

unfoldable pub check_limit : (ℤ → ℕ) → Option ℕ → AccessRequest → Counts → Option DenyReason
unfolding is_within_limit
check_limit date_key none request usage = none
check_limit date_key (some limit) request usage =
    if is_within_limit date_key usage request.secret_id request.requested_at limit
    then none
    else some (daily_limit_exceeded limit)

-- The last gate. `fresh` is the id of a challenge that is issued; `consume` and `issue` each read the
-- clock, at `now` and `later`.
unfoldable pub check_approval :
    Bool → AccessRequest → ApprovalTable → Text → ℤ → ℤ → ApprovalTable × PolicyResult
check_approval false request approvals fresh now later = (approvals, allowed)
check_approval true request approvals fresh now later =
    let (taken, consumed) = consume approvals request now in
    let (issued, challenge) = issue taken request fresh later in
    if consumed then (taken, allowed) else (issued, needs_approval challenge)

unfoldable pub check_policy :
    (ℤ → ℕ)
    → SecretPolicy
    → AccessRequest
    → Counts
    → ApprovalTable
    → Text
    → ℤ
    → ℤ
    → ApprovalTable × PolicyResult
check_policy date_key policy request usage approvals fresh now later =
    let route = tool_action request in
    if not (is_empty policy.allowed_tools)
      && not (any_of (λ item. item == route) policy.allowed_tools)
    then (approvals, denied (tool_not_allowed route))
    else elim (requested_domains request) [
      | err e ↦ (approvals, denied (invalid_domains e))
      | ok requested ↦ elim (check_domains policy.allowed_domains requested) [
        | some reason ↦ (approvals, denied reason)
        | none ↦ elim (check_limit date_key policy.max_uses_per_day request usage) [
          | some reason ↦ (approvals, denied reason)
          | none ↦ check_approval policy.requires_approval request approvals fresh now later
        ]
      ]
    ]
