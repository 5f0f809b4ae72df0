-- ===== src/Captured/Hosts.antt =====
-- magicvault-core/src/injection.rs: when a host belongs to the domain of a cookie.
use magic_vault.Base.{
  Text, text_eq, nat_eq, ◌==◌, Bool, true, false, not, ◌&&◌, ◌||◌, none, some, [], ◌∷◌, ◌++◌, ascii,
  is_empty, ◌≡◌, ◌≢◌, refl, sym, ap, ◌⊎◌, ◌↔◌, inl, inr, arith, if◌then◌else◌,
}
use magic_vault.Base.Bytes.{strip_prefix, ends_with, starts_with_byte}
use magic_vault.Base.Affixes.{ends_with_iff}
use magic_vault.Captured.Cookies.{normalized, cookie_domain_matches_host}

-- The host belongs to the domain of a cookie, both without white space around them and dots behind
-- them, and in lower case: it is the domain, or a domain that begins with a dot has a name behind it
-- that the host is, or that the host ends with behind a dot.
abbrev pub IsHostOf : Text → Text → Type 0
IsHostOf domain host =
    (host ≢ [])
    × (((starts_with_byte b'.' domain ≡ false) × (host ≡ domain))
        ⊎ ((bare : Text) × ((domain ≡ b'.' ∷ bare)
              × ((bare ≢ []) × ((host ≡ bare) ⊎ ((p : Text) × (host ≡ p ++ (b'.' ∷ bare))))))))

-- The test of the domain and the host in lower case.
abbrev host_test : Text → Text → Bool
host_test domain host =
    if is_empty domain || is_empty host then false else elim (strip_prefix (ascii ".") domain) [
      | some bare ↦ not (is_empty bare) && (host == bare || ends_with host (b'.' ∷ bare))
      | none ↦ host == domain
    ]

behind_iff :
    (bare host : Text)
    → (host == bare || ends_with host (b'.' ∷ bare) ≡ true)
      ↔ ((host ≡ bare) ⊎ ((p : Text) × (host ≡ p ++ (b'.' ∷ bare))))
behind_iff bare host = elim (text_eq.dec host bare) [
  | yes e ↦ (λ h. inl e, λ c. ground (arith, e))
  | no d ↦ (
    λ h. inr ((ends_with_iff host (b'.' ∷ bare)).0 (ground (arith, h, d))),
    λ c. elim c [
      | inl e ↦ absurd (d e)
      | inr b ↦ ground (arith, (ends_with_iff host (b'.' ∷ bare)).1 b)
    ],
  )
]

dotted_iff :
    (bare host : Text)
    → (not (is_empty bare) && (host == bare || ends_with host (b'.' ∷ bare)) ≡ true)
      ↔ ((bare ≢ []) × ((host ≡ bare) ⊎ ((p : Text) × (host ≡ p ++ (b'.' ∷ bare)))))
dotted_iff [] host = (λ h. cc, λ (n, _). absurd (n refl))
dotted_iff (c ∷ bare) host =
    (λ h. ((λ e. cc), (behind_iff (c ∷ bare) host).0 h), λ (_, b). (behind_iff (c ∷ bare) host).1 b)

host_test_iff : (domain host : Text) → (host_test domain host ≡ true) ↔ IsHostOf domain host
unfolding strip_prefix
host_test_iff [] host =
    (λ h. cc, λ (n, r). elim r [ inl (_, q) ↦ absurd (n q) | inr (bare, (q, _)) ↦ cc ])
host_test_iff (c ∷ domain) [] = (λ h. cc, λ (n, _). absurd (n refl))
host_test_iff (c ∷ domain) (d ∷ host) = elim (nat_eq.dec b'.' c) [
  | yes e ↦ (
    λ h. (
      (λ q. cc),
      inr (
        domain,
        (ap (λ b. b ∷ domain) (sym e), (dotted_iff domain (d ∷ host)).0 (ground (arith, h, e))),
      ),
    ),
    λ (_, r). elim r [
      | inl (q, _) ↦ ground (arith, q, e)
      | inr (bare, (q, t)) ↦
          let same : domain ≡ bare = ground (arith, q) in
          ground (arith, e, (dotted_iff domain (d ∷ host)).1 (rw same t))
    ],
  )
  | no n ↦ (
    λ h. ((λ q. cc), inl (ground (arith, n), ground (arith, h, n))),
    λ (_, r). elim r [
      | inl (_, q) ↦ ground (arith, n, q)
      | inr (bare, (q, _)) ↦ absurd (n (ground (arith, q)))
    ],
  )
]

pub host_iff :
    (domain host : Text)
    → (cookie_domain_matches_host domain host ≡ true)
      ↔ IsHostOf (normalized domain) (normalized host)
unfolding cookie_domain_matches_host
host_iff domain host = host_test_iff (normalized domain) (normalized host)
