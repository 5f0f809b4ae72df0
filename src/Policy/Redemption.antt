-- ===== src/Policy/Redemption.antt =====
-- magicvault-core/src/policy.rs: `GrantTable::redeem_bound_batch`.
use mathlib.Core.List.{append-nil}
use magic_vault.Base.{
  ◌≤◌, Text, text_eq, ◌==◌, Bool, true, false, none, some, List, [], ◌∷◌, ◌++◌, ◌≡◌, ◌≢◌, ◌∙◌, ap,
  refl, ◌⊎◌, ◌↔◌, inl, inr, arith, Bool-cases, Option-cases, if◌then◌else◌, ltb, ok, err, is_empty,
  length, All, is_some,
}
use magic_vault.Base.Bytes.{any_of}
use magic_vault.Base.Map.{lookup, remove, retain, lookup-remove}
use magic_vault.Base.Time.{ℤ, leb_ℤ, ◌<ℤ◌}
use magic_vault.Policy.Grants.{
  GrantTable, GrantRecord, RedemptionPayload, BoundGrantRedemption, BoundGrantRedemptionError,
  empty_batch, batch_too_large, duplicate_token, expired, internal, live_grant, is_expected,
  has_duplicate, validate, payloads, take_grants, redeem_bound_batch, reap_expired,
  max_atomic_grant_redemptions,
}

-- The request names a grant that is there, has not expired, and whose binding is the expected one.
pub record IsRedeemable (t : GrantTable) (now : ℤ) (r : BoundGrantRedemption) : Type 0 where
  pub granted : GrantRecord
  pub found : lookup r.token t ≡ some granted
  pub in_time : now <ℤ granted.expires_at
  pub expected : is_expected granted.payload.binding r.expected ≡ true

validate_iff :
    (t : GrantTable) (rs : List BoundGrantRedemption) (now : ℤ)
    → ((validate t rs now).1 ≡ none) ↔ All (IsRedeemable t now) rs
unfolding validate leb_ℤ
validate_iff t [] now = (λ _. tt, λ _. refl)
validate_iff t (r ∷ rs) now = (
  λ h. elim (Option-cases (lookup r.token t)) [
    | inl q ↦ absurd (ground arith)
    | inr (g, q) ↦ (
      record { granted = g; found = q; in_time = ground arith; expected = ground arith },
      (validate_iff t rs now).0 (ground arith),
    )
  ],
  λ (m, all).
      let step = m.found in
      let later = m.in_time in
      let right = m.expected in ground (arith, step, later, right, (validate_iff t rs now).1 all),
)

-- A failed look at the batch leaves the table, or reaps the expired grants.
validate_table :
    (t : GrantTable) (rs : List BoundGrantRedemption) (now : ℤ)
    → (((validate t rs now).0 ≡ t) × ((validate t rs now).1 ≢ some expired))
      ⊎ (((validate t rs now).0 ≡ retain (live_grant now) t)
          × ((validate t rs now).1 ≡ some expired))
unfolding validate
validate_table t [] now = inl (refl, λ h. cc)
validate_table t (r ∷ rs) now = grind (arith, validate_table t rs now)

validate-ne-internal :
    (t : GrantTable) (rs : List BoundGrantRedemption) (now : ℤ)
    → (validate t rs now).1 ≢ some internal
unfolding validate
validate-ne-internal t [] now = λ h. cc
validate-ne-internal t (r ∷ rs) now = grind (arith, validate-ne-internal t rs now)

-- The payloads of the grants that the requests name, in their order.
pub named_payloads : GrantTable → List BoundGrantRedemption → List RedemptionPayload
named_payloads t [] = []
named_payloads t (r ∷ rs) =
    let rest = named_payloads t rs in
    elim (lookup r.token t) [ none ↦ rest | some g ↦ g.payload ∷ rest ]

-- Whether some request has the token.
abbrev pub names_token : Text → List BoundGrantRedemption → Bool
names_token k rs = any_of (λ (r : BoundGrantRedemption). r.token == k) rs

abbrev AllThere : GrantTable → List BoundGrantRedemption → Type 0
AllThere t [] = Unit
AllThere t (r ∷ rs) = (is_some (lookup r.token t) ≡ true) × AllThere t rs

IsRedeemable-there :
    (t : GrantTable) (rs : List BoundGrantRedemption) (now : ℤ)
    → All (IsRedeemable t now) rs
    → AllThere t rs
IsRedeemable-there t [] now a = tt
IsRedeemable-there t (r ∷ rs) now (m, all) =
    let found = m.found in (ground (arith, found), IsRedeemable-there t rs now all)

AllThere-remove :
    (t : GrantTable) (k : Text) (rs : List BoundGrantRedemption)
    → names_token k rs ≡ false
    → AllThere t rs
    → AllThere (remove k t) rs
unfolding any_of
AllThere-remove t k [] h a = tt
AllThere-remove t k (r ∷ rs) h a =
    (ground (arith, lookup-remove r.token k t), AllThere-remove t k rs (ground arith) a.1)

named_payloads-remove :
    (t : GrantTable) (k : Text) (rs : List BoundGrantRedemption)
    → names_token k rs ≡ false
    → named_payloads (remove k t) rs ≡ named_payloads t rs
unfolding any_of named_payloads
named_payloads-remove t k [] h = refl
named_payloads-remove t k (r ∷ rs) h =
    ground (arith, lookup-remove r.token k t, named_payloads-remove t k rs)

payloads-append :
    (l : List (Text × GrantRecord)) (k : Text) (g : GrantRecord) (rest : List RedemptionPayload)
    → payloads (l ++ ((k, g) ∷ [])) ++ rest ≡ payloads l ++ (g.payload ∷ rest)
unfolding payloads
payloads-append [] k g rest = refl
payloads-append ((j, x) ∷ l) k g rest = ap (λ m. x.payload ∷ m) (payloads-append l k g rest)

-- With the grants there and no token twice, the second loop takes them all.
take_grants-all :
    (t : GrantTable) (rs : List BoundGrantRedemption) (l : List (Text × GrantRecord))
    → AllThere t rs
    → has_duplicate rs ≡ false
    → ((take_grants t rs l).1 ≡ ok (payloads l ++ named_payloads t rs))
      × ((k : Text)
          → lookup k (take_grants t rs l).0 ≡ (if names_token k rs then none else lookup k t))
unfolding take_grants has_duplicate named_payloads any_of
take_grants-all t [] l a d = (rw append-nil, λ k. refl)
take_grants-all t (r ∷ rs) l a d = elim (Option-cases (lookup r.token t)) [
  | inl q ↦ absurd (ground arith)
  | inr (g, q) ↦
      let new : names_token r.token rs ≡ false = ground arith in
      let t' = remove r.token t in
      let (out, left) =
        take_grants-all t' rs (l ++ ((r.token, g) ∷ [])) (AllThere-remove t r.token rs new a.1)
          (ground arith) in
      (
        rw (q, take_grants, named_payloads)
            (out
              ∙ ap ok (
                  ap (λ m. payloads (l ++ ((r.token, g) ∷ [])) ++ m)
                    (named_payloads-remove t r.token rs new)
                  ∙ payloads-append l r.token g (named_payloads t rs))),
        λ k. rw (q, take_grants) (left k ∙ ground (arith, lookup-remove k r.token t)),
      )
]

-- What a batch must meet to be redeemed.
pub record IsBatch (t : GrantTable) (now : ℤ) (requests : List BoundGrantRedemption) : Type 0 where
  pub nonempty : is_empty requests ≡ false
  pub bounded : length requests ≤ max_atomic_grant_redemptions
  pub distinct : has_duplicate requests ≡ false
  pub redeemable : All (IsRedeemable t now) requests

-- A batch of one to sixty-four distinct tokens, each of a grant that is there, has not expired
-- and has the expected binding, is taken whole: the payloads come in the order of the requests,
-- each named grant is gone, and no other is touched.
pub redeem_bound_batch-ok :
    (t : GrantTable) (requests : List BoundGrantRedemption) (now : ℤ) (k : Text)
    → IsBatch t now requests
    → let (u, outcome) = redeem_bound_batch t requests now in
      (outcome ≡ ok (named_payloads t requests))
      × (lookup k u ≡ (if names_token k requests then none else lookup k t))
unfolding redeem_bound_batch payloads
redeem_bound_batch-ok t requests now k b =
    let passed = (validate_iff t requests now).1 b.redeemable in
    let same : (validate t requests now).0 ≡ t =
      ground (arith, passed, validate_table t requests now) in
    let (out, left) =
      take_grants-all t requests [] (IsRedeemable-there t requests now b.redeemable) b.distinct in
    ground (arith, b.nonempty, b.bounded, b.distinct, passed, same, out, left k)

-- A batch that is empty, too large, names a token twice, or names a grant that is missing,
-- expired or bound otherwise is refused whole, with an error other than the internal one; the
-- table is as it was or, after an expired grant, without the expired ones.
pub redeem_bound_batch-err :
    (t : GrantTable) (requests : List BoundGrantRedemption) (now : ℤ)
    → ¬ (IsBatch t now requests)
    → let (u, outcome) = redeem_bound_batch t requests now in
      (e : BoundGrantRedemptionError) × (outcome ≡ err e)
      × (e ≢ internal)
      × (((u ≡ t) × (e ≢ expired)) ⊎ ((u ≡ reap_expired t now) × (e ≡ expired)))
unfolding redeem_bound_batch reap_expired
redeem_bound_batch-err t requests now fails = elim (Bool-cases (is_empty requests)) [
  | inl none_given ↦ (empty_batch, ground arith, λ h. cc, inl (ground arith, λ h. cc))
  | inr some_given ↦ elim (Bool-cases (ltb max_atomic_grant_redemptions (length requests))) [
    | inl many ↦ (batch_too_large, ground arith, λ h. cc, inl (ground arith, λ h. cc))
    | inr few ↦ elim (Bool-cases (has_duplicate requests)) [
      | inl twice ↦ (duplicate_token, ground arith, λ h. cc, inl (ground arith, λ h. cc))
      | inr once ↦ elim (Option-cases (validate t requests now).1) [
        | inl passed ↦ absurd (
            fails (record {
              nonempty = some_given;
              bounded = ground arith;
              distinct = once;
              redeemable = (validate_iff t requests now).0 passed;
            }))
        | inr (e, stopped) ↦ (
          e,
          ground (arith, stopped),
          λ h. validate-ne-internal t requests now (stopped ∙ ap some h),
          elim (validate_table t requests now) [
            | inl (same, ne) ↦ inl (ground (arith, same, stopped), λ h. ne (stopped ∙ ap some h))
            | inr (same, eq) ↦ inr (ground (arith, same, stopped), ground (arith, eq, stopped))
          ],
        )
      ]
    ]
  ]
]
