-- ===== src/Policy/ApprovalUse.antt =====
-- magicvault-core/src/policy.rs: `issue`, `grant` and `consume` of `ApprovalTable`.
use mathlib.Core.Path.{subst}
use magic_vault.Base.{
  ℕ, suc, ◌-◌, ◌<◌, Text, text_eq, ◌==◌, true, ◌&&◌, none, some, List, [], ◌∷◌, ◌++◌, ◌≡◌, ◌∙◌,
  refl, sym, inl, inr, arith, Option-cases, if◌then◌else◌, ltb, ok,
}
use magic_vault.Base.Map.{
  Map, lookup, remove, retain, NodupKeys, lookup-insert_self, lookup-remove, lookup-retain,
  lookup-retain-none, retain-NodupKeys, insert-NodupKeys,
}
use magic_vault.Base.Time.{ℤ, add_i64, ltb_ℤ, ◌<ℤ◌}
use magic_vault.Policy.Domains.{RequestedDomains}
use magic_vault.Policy.Requests.{AccessRequest, requested_domains}
use magic_vault.Policy.Approvals.{
  RequestFingerprint, fingerprint, fingerprint_eq, ApprovalTable, ApprovedRequest,
  ApprovalChallenge, retain_approved, unexpired, unexpired_approval, take_approval, consume, issue,
  grant, challenge_domains,
}

-- The approvals with the fingerprint that have not expired.
pub live_count : ℤ → RequestFingerprint → List ApprovedRequest → ℕ
live_count now p [] = 0
live_count now p (a ∷ more) =
    let rest = live_count now p more in
    if a.print == p && ltb_ℤ now a.expires_at then suc rest else rest

live_count-retain :
    (now : ℤ) (p : RequestFingerprint) (l : List ApprovedRequest)
    → live_count now p (retain_approved (unexpired_approval now) l) ≡ live_count now p l
unfolding live_count retain_approved
live_count-retain now p [] = refl
live_count-retain now p (a ∷ l) = ground (arith, live_count-retain now p l)

-- All entries are unexpired.
abbrev AllLive : ℤ → List ApprovedRequest → Type 0
AllLive now [] = Unit
AllLive now (a ∷ l) = (ltb_ℤ now a.expires_at ≡ true) × AllLive now l

retain_approved-AllLive :
    (now : ℤ) (l : List ApprovedRequest) → AllLive now (retain_approved (unexpired_approval now) l)
unfolding retain_approved
retain_approved-AllLive now [] = tt
retain_approved-AllLive now (a ∷ l) = ground (arith, retain_approved-AllLive now l)

take_approval-none :
    (now : ℤ) (p : RequestFingerprint) (l : List ApprovedRequest)
    → take_approval p l ≡ none
    → live_count now p l ≡ 0
unfolding take_approval live_count
take_approval-none now p [] h = refl
take_approval-none now p (a ∷ l) h = ground (arith, take_approval-none now p l)

take_approval-some :
    (now : ℤ) (p q : RequestFingerprint) (l l' : List ApprovedRequest)
    → AllLive now l
    → take_approval p l ≡ some l'
    → live_count now q l ≡ (if q == p then suc (live_count now q l') else live_count now q l')
unfolding take_approval live_count
take_approval-some now p q [] l' a h = cc
take_approval-some now p q (x ∷ l) l' a h = elim (Option-cases (take_approval p l)) [
  | inl e ↦ ground arith
  | inr (l'', e) ↦ ground (arith, take_approval-some now p q l l'' a.1 e)
]

-- Where the request's domains are well formed, `consume` answers whether an unexpired approval
-- has the fingerprint of the request, and takes one such approval and no other.
pub consume-live_count :
    (t : ApprovalTable) (r : AccessRequest) (now : ℤ) (q : RequestFingerprint)
    {d : RequestedDomains}
    → requested_domains r ≡ ok d
    → let p = fingerprint r.secret_id r.tool r.action d in
      let (u, done) = consume t r now in
      (done ≡ ltb 0 (live_count now p t.approved))
      × (live_count now q u.approved
          ≡ (if q == p then live_count now q t.approved - 1 else live_count now q t.approved))
unfolding consume
consume-live_count t r now q {d} h =
    let p = fingerprint r.secret_id r.tool r.action d in
    let l = retain_approved (unexpired_approval now) t.approved in
    let all = retain_approved-AllLive now t.approved in
    let same = live_count-retain now q t.approved in
    let same' = live_count-retain now p t.approved in
    elim (Option-cases (take_approval p l)) [
      | inl e ↦ rw (h, e, consume) (ground (arith, same, same', take_approval-none now p l e))
      | inr (l', e) ↦
          rw (h, e, consume)
            (ground (
              arith,
              same,
              same',
              take_approval-some now p q l l' all e,
              take_approval-some now p p l l' all e,
            ))
    ]

lookup-unexpired :
    (now : ℤ) (id : Text) (m : Map ApprovalChallenge) (c : ApprovalChallenge)
    → NodupKeys m
    → lookup id m ≡ some c
    → now <ℤ c.expires_at
    → lookup id (retain (unexpired now) m) ≡ some c
unfolding ltb_ℤ
lookup-unexpired now id m c u h later = ground (arith, lookup-retain (unexpired now) id m u)

live_count-append :
    (now : ℤ) (p : RequestFingerprint) (l : List ApprovedRequest) (a : ApprovedRequest)
    → a.print ≡ p
    → now <ℤ a.expires_at
    → 0 < live_count now p (l ++ (a ∷ []))
unfolding live_count ltb_ℤ
live_count-append now p [] a h later = ground arith
live_count-append now p (x ∷ l) a h later = ground (arith, live_count-append now p l a h later)

-- The granted challenge leaves the pending ones, and its fingerprint is approved until it expires.
grant-some :
    (t : ApprovalTable) (id : Text) (now : ℤ) (c : ApprovalChallenge) (d : RequestedDomains)
    → NodupKeys t.pending
    → lookup id t.pending ≡ some c
    → challenge_domains c ≡ ok d
    → now <ℤ c.expires_at
    → grant t id now ≡ (
      record t {
        pending = remove id (retain (unexpired now) t.pending);
        approved =
            retain_approved (unexpired_approval now) t.approved
            ++ (record {
              print = fingerprint c.secret_id c.tool c.action d;
              expires_at = c.expires_at;
            }
                ∷ []);
      },
      some c,
    )
unfolding grant
grant-some t id now c d u found e later =
    rw (lookup-unexpired now id t.pending c u found later, e, grant)

-- A challenge that is not pending is not granted.
grant-none :
    (t : ApprovalTable) (id : Text) (now : ℤ)
    → lookup id t.pending ≡ none
    → (grant t id now).1 ≡ none
unfolding grant
grant-none t id now h = rw (lookup-retain-none (unexpired now) id t.pending h, grant)

issue_lem :
    (t : ApprovalTable) (r : AccessRequest) (fresh : Text) (now : ℤ)
    → let (t', c) = issue t r fresh now in
      (lookup fresh t'.pending ≡ some c)
      × (challenge_domains c ≡ requested_domains r)
      × (c.expires_at ≡ add_i64 r.requested_at t.ttl_secs)
      × (c.secret_id ≡ r.secret_id)
      × (c.tool ≡ r.tool)
      × (c.action ≡ r.action)
unfolding issue challenge_domains requested_domains
issue_lem t r fresh now =
    (lookup-insert_self fresh _ (retain (unexpired now) t.pending), refl, refl, refl, refl, refl)

issue-NodupKeys :
    (t : ApprovalTable) (r : AccessRequest) (fresh : Text) (now : ℤ)
    → NodupKeys t.pending
    → NodupKeys (issue t r fresh now).0.pending
unfolding issue
issue-NodupKeys t r fresh now u =
    insert-NodupKeys fresh _ (retain (unexpired now) t.pending)
      (retain-NodupKeys (unexpired now) t.pending u)

-- A challenge that is granted before it expires lets the request that raised it pass, where the
-- domains are well formed and no id is pending twice: the grant returns the challenge, a second
-- grant of it does not, and the request then consumes an approval if that too comes before the
-- expiry.
pub issue-grant-consume :
    (t : ApprovalTable) (r : AccessRequest) (fresh : Text) (at₁ at₂ at₃ at₄ : ℤ)
    {d : RequestedDomains}
    → NodupKeys t.pending
    → requested_domains r ≡ ok d
    → at₂ <ℤ add_i64 r.requested_at t.ttl_secs
    → at₃ <ℤ add_i64 r.requested_at t.ttl_secs
    → let (t₁, c) = issue t r fresh at₁ in
      let (t₂, granted_now) = grant t₁ fresh at₂ in
      (granted_now ≡ some c) × ((grant t₂ fresh at₄).1 ≡ none) × ((consume t₂ r at₃).1 ≡ true)
issue-grant-consume t r fresh at₁ at₂ at₃ at₄ {d} u h early early' =
    let t₁ = (issue t r fresh at₁).0 in
    let c = (issue t r fresh at₁).1 in
    let (found, same, expiry, i, tl, ac) = issue_lem t r fresh at₁ in
    let p = fingerprint r.secret_id r.tool r.action d in
    let kept = retain_approved (unexpired_approval at₂) t₁.approved in
    let a : ApprovedRequest = record {
      print = fingerprint c.secret_id c.tool c.action d;
      expires_at = c.expires_at;
    } in
    let step =
      grant-some t₁ fresh at₂ c d (issue-NodupKeys t r fresh at₁ u) found (same ∙ h)
        (subst (λ e. at₂ <ℤ e) (sym expiry) early) in
    let t₂ = (grant t₁ fresh at₂).0 in
    let gone : lookup fresh t₂.pending ≡ none =
      ground (arith, step, lookup-remove fresh fresh (retain (unexpired at₂) t₁.pending)) in
    let counted =
      live_count-append at₃ p kept a (ground arith) (subst (λ e. at₃ <ℤ e) (sym expiry) early') in
    (
      ground (arith, step),
      grant-none t₂ fresh at₄ gone,
      ground (arith, step, counted, consume-live_count t₂ r at₃ p h),
    )
