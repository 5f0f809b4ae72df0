-- ===== src/Policy/Approvals.antt =====
-- magicvault-core/src/policy.rs: `RequestFingerprint` and `ApprovalTable`. The clock reading of
-- `Utc::now` is the argument `now`, the id of `Uuid::new_v4` the argument `fresh`; each method is one
-- step, with its two locks taken in turn.
use magic_vault.Base.{
  Text, text_eq, ◌==◌, Bool, true, false, Option, none, some, List, [], ◌∷◌, ◌++◌, if◌then◌else◌,
  Eq, Result, ok, err,
}
use Prim.Native.Nat.{Ordering}
use native.Mathlib.Decide.{ℕ_discrete}
use magic_vault.Base.Bytes.{compare_text}
use magic_vault.Base.Map.{Map, lookup, insert, remove, retain, values}
use magic_vault.Base.Time.{ℤ, add_i64, ltb_ℤ}
use magic_vault.Policy.Domains.{
  RequestedDomains, DomainScopeError, from_wire, no_domain, one, set, any,
}
use magic_vault.Policy.Requests.{AccessRequest, requested_domains}

pub data RequestFingerprint : Type 0 where
  legacy : Text → RequestFingerprint
  scoped_to : Text → Text → Text → RequestedDomains → RequestFingerprint

unfoldable pub fingerprint_discrete : Discrete RequestFingerprint
fingerprint_discrete = hlevel ℕ_discrete

instance unfoldable pub fingerprint_eq : Eq RequestFingerprint
unfolding fingerprint_discrete
fingerprint_eq = record { dec = fingerprint_discrete }

abbrev pub unwrap_or_default : Option Text → Text
unwrap_or_default none = []
unwrap_or_default (some t) = t

unfoldable pub request_fingerprint : Text → Text → Text → Option Text → Text
request_fingerprint secret_id tool action domain =
    secret_id ++ (b'|' ∷ (tool ++ (b'|' ∷ (action ++ (b'|' ∷ unwrap_or_default domain)))))

unfoldable pub fingerprint : Text → Text → Text → RequestedDomains → RequestFingerprint
unfolding request_fingerprint
fingerprint secret_id tool action no_domain =
    legacy (request_fingerprint secret_id tool action none)
fingerprint secret_id tool action (one domain) =
    legacy (request_fingerprint secret_id tool action (some domain))
fingerprint secret_id tool action (set hs) = scoped_to secret_id tool action (set hs)
fingerprint secret_id tool action any = scoped_to secret_id tool action any

pub record ApprovalChallenge : Type 0 where
  pub id : Text
  pub secret_id : Text
  pub tool : Text
  pub action : Text
  pub domain : Option Text
  pub domains : List Text
  pub expires_at : ℤ

unfoldable pub challenge_domains : ApprovalChallenge → Result RequestedDomains DomainScopeError
challenge_domains c = from_wire c.domain c.domains

pub record ApprovedRequest : Type 0 where
  pub print : RequestFingerprint
  pub expires_at : ℤ

pub record ApprovalTable : Type 0 where
  pub ttl_secs : ℤ
  pub pending : Map ApprovalChallenge
  pub approved : List ApprovedRequest

unfoldable pub retain_approved :
    (ApprovedRequest → Bool) → List ApprovedRequest → List ApprovedRequest
retain_approved keep [] = []
retain_approved keep (a ∷ more) =
    let rest = retain_approved keep more in if keep a then a ∷ rest else rest

abbrev pub unexpired : ℤ → Text → ApprovalChallenge → Bool
unexpired now _ c = ltb_ℤ now c.expires_at

abbrev pub unexpired_approval : ℤ → ApprovedRequest → Bool
unexpired_approval now a = ltb_ℤ now a.expires_at

unfoldable pub reap_expired : ApprovalTable → ℤ → ApprovalTable
unfolding retain_approved
reap_expired t now = record t {
  pending = retain (unexpired now) t.pending;
  approved = retain_approved (unexpired_approval now) t.approved;
}

unfoldable pub issue : ApprovalTable → AccessRequest → Text → ℤ → ApprovalTable × ApprovalChallenge
unfolding reap_expired
issue t request fresh now =
    let challenge : ApprovalChallenge = record {
      id = fresh;
      secret_id = request.secret_id;
      tool = request.tool;
      action = request.action;
      domain = request.domain;
      domains = request.domains;
      expires_at = add_i64 request.requested_at t.ttl_secs;
    } in
    let reaped = reap_expired t now in
    (record reaped { pending = insert fresh challenge reaped.pending }, challenge)

-- The push on `approved` with the fingerprint of the domains, if they are well formed.
abbrev pub approve_as :
    ApprovalTable
    → Text
    → Text
    → Text
    → ℤ
    → Result RequestedDomains DomainScopeError
    → ApprovalTable
approve_as t secret_id tool action expires_at (ok domains) = record t {
  approved =
      t.approved
      ++ (record { print = fingerprint secret_id tool action domains; expires_at = expires_at }
          ∷ []);
}
approve_as t secret_id tool action expires_at (err _) = t

abbrev pub granted :
    Result RequestedDomains DomainScopeError → ApprovalChallenge → Option ApprovalChallenge
granted (ok _) c = some c
granted (err _) c = none

unfoldable pub grant : ApprovalTable → Text → ℤ → ApprovalTable × Option ApprovalChallenge
unfolding reap_expired
grant t challenge_id now =
    let reaped = reap_expired t now in
    let taken = record reaped { pending = remove challenge_id reaped.pending } in
    elim (lookup challenge_id reaped.pending) [
      | none ↦ (taken, none)
      | some c ↦ (
        approve_as taken c.secret_id c.tool c.action c.expires_at (challenge_domains c),
        granted (challenge_domains c) c,
      )
    ]

unfoldable pub approve_request : ApprovalTable → AccessRequest → ℤ → ApprovalTable
unfolding reap_expired
approve_request t request now =
    approve_as (reap_expired t now) request.secret_id request.tool request.action
      (add_i64 request.requested_at t.ttl_secs) (requested_domains request)

-- `position` and `remove`: the list without the first entry of the fingerprint, if there is one.
unfoldable pub take_approval :
    RequestFingerprint → List ApprovedRequest → Option (List ApprovedRequest)
take_approval p [] = none
take_approval p (a ∷ more) =
    let rest = take_approval p more in
    if a.print == p then some more else elim rest [ none ↦ none | some others ↦ some (a ∷ others) ]

abbrev pub consume_as : ApprovalTable → Option (List ApprovedRequest) → ApprovalTable × Bool
consume_as t none = (t, false)
consume_as t (some left) = (record t { approved = left }, true)

unfoldable pub consume : ApprovalTable → AccessRequest → ℤ → ApprovalTable × Bool
unfolding reap_expired
consume t request now =
    let reaped = reap_expired t now in
    elim (requested_domains request) [
      | err _ ↦ (reaped, false)
      | ok domains ↦ consume_as reaped (
          take_approval (fingerprint request.secret_id request.tool request.action domains)
            reaped.approved)
    ]

-- The order of `list_pending`: by expiry, then by secret, then by id.
unfoldable pub pending_before : ApprovalChallenge → ApprovalChallenge → Bool
pending_before a b =
    if ltb_ℤ a.expires_at b.expires_at
    then true
    else if ltb_ℤ b.expires_at a.expires_at
    then false
    else elim (compare_text a.secret_id b.secret_id) [
      | Ordering.lt ↦ true
      | Ordering.gt ↦ false
      | Ordering.eq ↦ elim (compare_text a.id b.id) [ Ordering.gt ↦ false | _ ↦ true ]
    ]

unfoldable pub insert_pending : ApprovalChallenge → List ApprovalChallenge → List ApprovalChallenge
insert_pending c [] = c ∷ []
insert_pending c (d ∷ ds) =
    let rest = insert_pending c ds in if pending_before c d then c ∷ d ∷ ds else d ∷ rest

unfoldable pub sort_pending : List ApprovalChallenge → List ApprovalChallenge
unfolding insert_pending pending_before
sort_pending [] = []
sort_pending (c ∷ cs) = insert_pending c (sort_pending cs)

unfoldable pub list_pending : ApprovalTable → ℤ → ApprovalTable × List ApprovalChallenge
unfolding reap_expired sort_pending
list_pending t now =
    let reaped = reap_expired t now in (reaped, sort_pending (values reaped.pending))
