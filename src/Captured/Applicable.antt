-- ===== src/Captured/Applicable.antt =====
-- magicvault-core/src/injection.rs: when a cookie goes to a URL.
use magic_vault.Base.{
  text_eq, nat_eq, Bool, true, false, not, ◌&&◌, Option, none, some, ◌≡◌, refl, ◌⊎◌, ◌↔◌, inl, inr,
  arith,
}
use magic_vault.Base.Time.{ℤ, ltb_ℤ, ◌≤ℤ◌}
use magic_vault.Captured.Cookies.{
  CookieWithMetadata, Url, normalized, rooted, or_root, is_past, is_applicable,
  cookie_domain_matches_host,
}
use magic_vault.Captured.Paths.{IsPathBelow, path_iff}
use magic_vault.Captured.Hosts.{IsHostOf, host_iff}

-- The cookie is not past its expiry, a secure one goes to a secure URL only, and its domain and its
-- path, the root if it has none, are those of the URL.
pub record GoesTo (url : Url) (now : ℤ) (c : CookieWithMetadata) : Type 0 where
  pub unexpired : (c.expires ≡ none) ⊎ ((t : ℤ) × ((c.expires ≡ some t) × (now ≤ℤ t)))
  pub secured : (c.secure ≡ false) ⊎ (url.is_secure ≡ true)
  pub hosted : IsHostOf (normalized c.domain) (normalized url.host)
  pub below : IsPathBelow (rooted c.path) (or_root url.path)

expiry_iff :
    (now : ℤ) (o : Option ℤ)
    → (is_past now o ≡ false) ↔ ((o ≡ none) ⊎ ((t : ℤ) × ((o ≡ some t) × (now ≤ℤ t))))
unfolding ltb_ℤ
expiry_iff now none = (λ h. inl refl, λ h. refl)
expiry_iff now (some t) = (
  λ h. inr (t, (refl, ground arith)),
  λ c. elim c [
    | inl e ↦ cc
    | inr (u, (e, le)) ↦ let same : t ≡ u = ground (arith, e) in ground (arith, same, le)
  ],
)

scheme_iff : (s u : Bool) → (not (s && not u) ≡ true) ↔ ((s ≡ false) ⊎ (u ≡ true))
scheme_iff false u = (λ h. inl refl, λ h. refl)
scheme_iff true true = (λ h. inr refl, λ h. refl)
scheme_iff true false = (λ h. cc, λ c. elim c [ inl e ↦ cc | inr e ↦ cc ])

and_iff : (a b : Bool) → (a && b ≡ true) ↔ ((a ≡ true) × (b ≡ true))
and_iff true b = (λ h. (refl, h), λ (_, h). h)
and_iff false b = (λ h. cc, λ (h, _). cc)

not_iff : (b : Bool) → (not b ≡ true) ↔ (b ≡ false)
not_iff true = (λ h. cc, λ h. cc)
not_iff false = (λ h. refl, λ h. refl)

pub is_applicable_iff :
    (url : Url) (now : ℤ) (c : CookieWithMetadata)
    → (is_applicable url now c ≡ true) ↔ GoesTo url now c
unfolding is_applicable
is_applicable_iff url now c =
    let past = not_iff (is_past now c.expires) in
    let expiry = expiry_iff now c.expires in
    let scheme = scheme_iff c.secure url.is_secure in
    let host = host_iff c.domain url.host in
    let path = path_iff url.path c.path in
    let first = and_iff (not (is_past now c.expires)) _ in
    let second = and_iff (not (c.secure && not url.is_secure)) _ in
    let third = and_iff (cookie_domain_matches_host c.domain url.host) _ in
    (
      λ h.
          let (p, q) = first.0 h in
          let (s, r) = second.0 q in
          let (d, t) = third.0 r in
          record {
            unexpired = expiry.0 (past.0 p);
            secured = scheme.0 s;
            hosted = host.0 d;
            below = path.0 t;
          },
      λ g. first.1 (
        past.1 (expiry.1 g.unexpired),
        second.1 (scheme.1 g.secured, third.1 (host.1 g.hosted, path.1 g.below)),
      ),
    )
