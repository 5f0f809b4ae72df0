-- ===== src/Policy/Permits.antt =====
-- magicvault-core/src/policy.rs: `check_policy` against a description of what is permitted.
use mathlib.Core.List.{Memᴰ}
use mathlib.Core.List.Memᴰ
use magic_vault.Base.{
  Result-cases, ℕ, ◌<◌, Text, text_eq, nat_eq, ◌==◌, Bool, true, false, not, ◌&&◌, Option, none,
  some, List, [], ◌∷◌, is_empty, All, ◌≡◌, refl, ◌⊎◌, ◌↔◌, inl, inr, arith, ok,
}
use magic_vault.Base.Bytes.{to_ascii_lowercase, any_of}
use magic_vault.Base.Time.{ℤ}
use magic_vault.Policy.Domains.{RequestedDomains, no_domain, one, set, any, any_domain}
use magic_vault.Policy.HostSets.{IsHost}
use magic_vault.Policy.Requests.{AccessRequest, requested_domains, tool_action}
use magic_vault.Policy.Usage.{Counts, count, is_within_limit}
use magic_vault.Policy.Approvals.{ApprovalTable, consume}
use magic_vault.Policy.Check.{
  SecretPolicy, allowed, domain_matches, admitted_host, find_refused, check_scope, check_domains,
  check_limit, check_approval, check_policy,
}
use magic_vault.Policy.Patterns.{Covers, domain_matches_iff, any_of_iff}

-- Some pattern of the list covers the host.
abbrev pub IsAdmitted : List Text → Text → Type 0
IsAdmitted patterns host = (p : Text) × Memᴰ p patterns × Covers p host

admitted_host_iff :
    (patterns : List Text) (host : Text)
    → (admitted_host patterns host ≡ true) ↔ IsAdmitted patterns host
unfolding admitted_host
admitted_host_iff patterns host =
    let both = any_of_iff (λ p. domain_matches p host) patterns in
    (
      λ h. let (p, m, q) = both.0 h in (p, m, (domain_matches_iff p host).0 q),
      λ (p, m, c). both.1 (p, m, (domain_matches_iff p host).1 c),
    )

find_refused_iff :
    (patterns hs : List Text) → (find_refused patterns hs ≡ none) ↔ All (IsAdmitted patterns) hs
unfolding find_refused
find_refused_iff patterns [] = (λ _. tt, λ _. refl)
find_refused_iff patterns (h ∷ hs) = (
  λ q. (
    (admitted_host_iff patterns h).0 (ground arith),
    (find_refused_iff patterns hs).0 (ground arith),
  ),
  λ (a, all).
      ground (arith, (admitted_host_iff patterns h).1 a, (find_refused_iff patterns hs).1 all),
)

-- What the allowed domains of a policy admit: no request without a domain; one host if it is a DNS
-- host name that some pattern covers; a set if every host of it is covered; all sites if `*` is listed.
abbrev pub ScopeAdmits : List Text → RequestedDomains → Type 0
ScopeAdmits patterns no_domain = ⊥
ScopeAdmits patterns (one d) =
    IsHost (to_ascii_lowercase d) × IsAdmitted patterns (to_ascii_lowercase d)
ScopeAdmits patterns (set hs) = All (IsAdmitted patterns) hs
ScopeAdmits patterns any = Memᴰ any_domain patterns

check_scope_iff :
    (patterns : List Text) (d : RequestedDomains)
    → (check_scope patterns d ≡ none) ↔ ScopeAdmits patterns d
unfolding check_scope
check_scope_iff patterns no_domain = (λ h. cc, λ h. absurd h)
check_scope_iff patterns (one d) =
    let host = to_ascii_lowercase d in
    (
      λ h. (ground arith, (admitted_host_iff patterns host).0 (ground arith)),
      λ (p, a). ground (arith, (admitted_host_iff patterns host).1 a),
    )
check_scope_iff patterns (set hs) = (
  λ h. (find_refused_iff patterns hs).0 (ground arith),
  λ a. ground (arith, (find_refused_iff patterns hs).1 a),
)
check_scope_iff patterns any =
    let both = any_of_iff (λ p. p == any_domain) patterns in
    (
      λ h. let (p, m, q) = both.0 (ground arith) in Memᴰ.cast (ground arith) m,
      λ m. ground (arith, both.1 (any_domain, m, ground arith)),
    )

nil_or {ℓ} : {A : Type ℓ} (xs : List A) → (xs ≡ []) ⊎ (is_empty xs ≡ false)
nil_or [] = inl refl
nil_or (x ∷ xs) = inr refl

-- The route is listed, or every route is allowed.
abbrev pub IsRouted : List Text → Text → Type 0
IsRouted tools route = (tools ≡ []) ⊎ Memᴰ route tools

route_iff :
    (tools : List Text) (route : Text)
    → ((not (is_empty tools) && not (any_of (λ item. item == route) tools)) ≡ false)
      ↔ IsRouted tools route
route_iff tools route =
    let both = any_of_iff (λ item. item == route) tools in
    (
      λ h. elim (nil_or tools) [
        | inl e ↦ inl e
        | inr q ↦ let (p, m, r) = both.0 (ground arith) in inr (Memᴰ.cast (ground arith) m)
      ],
      λ r. elim r [
        | inl e ↦ ground arith
        | inr m ↦ ground (arith, both.1 (route, m, ground arith))
      ],
    )

-- The secret is not domain-scoped, or its patterns admit the requested domains.
abbrev pub IsInScope : List Text → RequestedDomains → Type 0
IsInScope patterns requested = (patterns ≡ []) ⊎ ScopeAdmits patterns requested

check_domains_iff :
    (patterns : List Text) (d : RequestedDomains)
    → (check_domains patterns d ≡ none) ↔ IsInScope patterns d
unfolding check_domains
check_domains_iff patterns d = (
  λ h. elim (nil_or patterns) [
    | inl e ↦ inl e
    | inr q ↦ inr ((check_scope_iff patterns d).0 (ground arith))
  ],
  λ r. elim r [ inl e ↦ ground arith | inr a ↦ ground (arith, (check_scope_iff patterns d).1 a) ],
)

-- The day's uses of the secret are below the limit, if there is one.
abbrev pub IsWithin : Option ℕ → ℕ → Type 0
IsWithin none n = Unit
IsWithin (some limit) n = n < limit

module _ (date_key : ℤ → ℕ) (request : AccessRequest) (usage : Counts) (approvals : ApprovalTable)
    (now : ℤ) where
  check_limit_iff :
      (limit : Option ℕ)
      → (check_limit date_key limit request usage ≡ none)
        ↔ IsWithin limit (count (request.secret_id, date_key request.requested_at) usage)
  unfolding check_limit is_within_limit
  check_limit_iff none = (λ _. tt, λ _. refl)
  check_limit_iff (some limit) = (λ h. ground arith, λ h. ground arith)

  check_approval_iff :
      (fresh : Text) (later : ℤ) (required : Bool)
      → ((check_approval required request approvals fresh now later).1 ≡ allowed)
        ↔ ((required ≡ false) ⊎ ((consume approvals request now).1 ≡ true))
  unfolding check_approval
  check_approval_iff fresh later false = (λ _. inl refl, λ _. refl)
  check_approval_iff fresh later true = (λ h. inr (ground arith), λ h. ground arith)

  -- The four gates of a policy, for the domains that the request names. The last one takes an
  -- approval, so it speaks of what `consume` answers.
  pub record IsPermitted (policy : SecretPolicy) (requested : RequestedDomains) : Type 0 where
    pub well_formed : requested_domains request ≡ ok requested
    pub routed : IsRouted policy.allowed_tools (tool_action request)
    pub in_scope : IsInScope policy.allowed_domains requested
    pub within :
        IsWithin policy.max_uses_per_day
          (count (request.secret_id, date_key request.requested_at) usage)
    pub approved : (policy.requires_approval ≡ false) ⊎ ((consume approvals request now).1 ≡ true)

  -- A request is allowed exactly when its domains are well formed, its route is listed or no
  -- routes are, its domains are in scope, the count of its secret and day is below the daily
  -- limit, and an approval is taken if one is required.
  pub check_policy_iff :
      (policy : SecretPolicy) (fresh : Text) (later : ℤ)
      → ((check_policy date_key policy request usage approvals fresh now later).1 ≡ allowed)
        ↔ ((requested : RequestedDomains) × IsPermitted policy requested)
  unfolding check_policy
  check_policy_iff policy fresh later =
      let route = route_iff policy.allowed_tools (tool_action request) in
      let limit = check_limit_iff policy.max_uses_per_day in
      let approval = check_approval_iff fresh later policy.requires_approval in
      (
        λ h. elim (Result-cases (requested_domains request)) [
          | inr (e, q) ↦ absurd (ground arith)
          | inl (d, q) ↦ (
            d,
            record {
              well_formed = q;
              routed = route.0 (ground arith);
              in_scope = (check_domains_iff policy.allowed_domains d).0 (ground arith);
              within = limit.0 (ground arith);
              approved = approval.0 (ground arith);
            },
          )
        ],
        λ (d, p). ground (
          arith,
          p.well_formed,
          route.1 p.routed,
          (check_domains_iff policy.allowed_domains d).1 p.in_scope,
          limit.1 p.within,
          approval.1 p.approved,
        ),
      )
