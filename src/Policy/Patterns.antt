-- ===== src/Policy/Patterns.antt =====
-- magicvault-core/src/policy.rs: what `domain_matches` and the scope check mean.
use mathlib.Core.List.{Memᴰ}
use mathlib.Core.List.Memᴰ
use magic_vault.Base.{
  Text, text_eq, nat_eq, ◌==◌, Bool, true, false, ◌||◌, Option, none, some, List, [], ◌∷◌, ◌++◌,
  ascii, is_empty, ◌≡◌, ◌≢◌, refl, ◌⊎◌, ◌↔◌, inl, inr, arith, Bool-cases,
}
use magic_vault.Base.Bytes.{to_ascii_lowercase, any_of, strip_prefix, ends_with}
use magic_vault.Base.Affixes.{strip_prefix-some, strip_prefix-append, ends_with_iff}
use magic_vault.Policy.Domains.{any_domain}
use magic_vault.Policy.Check.{domain_matches}

pub any_of_iff {ℓ} :
    {A : Type ℓ} (test : A → Bool) (xs : List A)
    → (any_of test xs ≡ true) ↔ ((x : A) × Memᴰ x xs × (test x ≡ true))
unfolding any_of
any_of_iff test [] = (λ h. cc, λ (x, m, _). absurd (Memᴰ.not-nil m))
any_of_iff test (y ∷ xs) = (
  λ h. elim (Bool-cases (test y)) [
    | inl q ↦ (y, Memᴰ.head refl, q)
    | inr q ↦ let (x, m, p) = (any_of_iff test xs).0 (ground arith) in (x, Memᴰ.tail m, p)
  ],
  λ (x, m, q). elim (Memᴰ.cases_cons m) [
    | inl e ↦ ground arith
    | inr m' ↦ ground (arith, (any_of_iff test xs).1 (x, m', q))
  ],
)

-- A pattern covers a host: the bare `*` covers every host that is not empty; any other one, in lower
-- case, is the host itself, or `*.` before a suffix that the host is or ends with behind a dot.
abbrev pub Covers : Text → Text → Type 0
Covers pattern host =
    ((pattern ≡ any_domain) × (host ≢ []))
    ⊎ ((pattern ≢ any_domain)
        × ((to_ascii_lowercase pattern ≡ host)
            ⊎ ((suffix : Text) × (to_ascii_lowercase pattern ≡ ascii "*." ++ suffix)
                × ((host ≡ suffix) ⊎ ((p : Text) × (host ≡ p ++ (b'.' ∷ suffix)))))))

-- The test of a wildcard: the part behind `*.` is the host, or the host ends with it behind a dot.
suffix_iff :
    (lower host : Text) (o : Option Text)
    → strip_prefix (ascii "*.") lower ≡ o
    → (elim o as (λ _. Bool) [
      | none ↦ false
      | some suffix ↦ host == suffix || ends_with host (b'.' ∷ suffix)
    ]
        ≡ true)
      ↔ ((suffix : Text) × (lower ≡ ascii "*." ++ suffix)
          × ((host ≡ suffix) ⊎ ((p : Text) × (host ≡ p ++ (b'.' ∷ suffix)))))
suffix_iff lower host none e =
    (λ h. cc, λ (suffix, q, _). ground (arith, strip_prefix-append (ascii "*.") suffix))
suffix_iff lower host (some suffix) e = (
  λ h. (
    suffix,
    strip_prefix-some (ascii "*.") lower suffix e,
    elim (text_eq.dec host suffix) [
      | yes q ↦ inl q
      | no q ↦ inr ((ends_with_iff host (b'.' ∷ suffix)).0 (ground arith))
    ],
  ),
  λ (suffix', q, r).
      let same : suffix ≡ suffix' = ground (arith, strip_prefix-append (ascii "*.") suffix') in
      elim r [
        | inl p ↦ ground arith
        | inr p ↦ ground (arith, (ends_with_iff host (b'.' ∷ suffix')).1 p)
      ],
)

not_empty : (s : Text) → s ≢ [] → is_empty s ≡ false
not_empty [] h = absurd (h refl)
not_empty (c ∷ s) h = refl

-- A pattern matches a host exactly when it covers it: a bare `*` covers every host but the empty
-- one, any other pattern in lower case is the host, or is `*.` before a suffix that is the host
-- or that the host ends with behind a dot.
pub domain_matches_iff :
    (pattern host : Text) → (domain_matches pattern host ≡ true) ↔ Covers pattern host
unfolding domain_matches
domain_matches_iff pattern host =
    let lower = to_ascii_lowercase pattern in
    let wild = suffix_iff lower host (strip_prefix (ascii "*.") lower) refl in
    elim (text_eq.dec pattern any_domain) [
      | yes p ↦ (
        λ h. inl (p, ground arith),
        λ c. elim c [ inl q ↦ ground (arith, not_empty host q.1) | inr q ↦ absurd (q.0 p) ],
      )
      | no p ↦ elim (text_eq.dec lower host) [
        | yes q ↦ (λ h. inr (p, inl q), λ c. ground arith)
        | no q ↦ (
          λ h. inr (p, inr (wild.0 (ground arith))),
          λ c. elim c [
            | inl r ↦ absurd (p r.0)
            | inr (_, inl r) ↦ absurd (q r)
            | inr (_, inr r) ↦ ground (arith, wild.1 r)
          ],
        )
      ]
    ]
