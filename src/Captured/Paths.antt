-- ===== src/Captured/Paths.antt =====
-- magicvault-core/src/injection.rs: when a request's path lies below that of a cookie.
use mathlib.Core.Path.{subst}
use magic_vault.Base.{
  Text, text_eq, nat_eq, Bool, true, false, ◌||◌, Option, none, some, [], ◌∷◌, ◌++◌, ascii, ◌≡◌,
  refl, sym, ap, ◌⊎◌, ◌↔◌, inl, inr, arith, Bool-cases,
}
use magic_vault.Base.Bytes.{strip_prefix, ends_with_byte, starts_with_byte}
use magic_vault.Base.Affixes.{strip_prefix-some, strip_prefix-append}
use magic_vault.Captured.Cookies.{rooted, or_root, cookie_path_matches_request}

-- The path of a request is that of a cookie, or lies below it: what follows the cookie's path begins
-- with a slash, or that path ends with one.
abbrev pub IsPathBelow : Text → Text → Type 0
IsPathBelow path request =
    (request ≡ path)
    ⊎ ((rest : Text) × ((request ≡ path ++ rest)
          × (((p : Text) × (path ≡ p ++ ascii "/")) ⊎ ((s : Text) × (rest ≡ b'/' ∷ s)))))

ends_with_byte_split :
    (b : _) (s : Text) → ends_with_byte b s ≡ true → (p : Text) × (s ≡ p ++ (b ∷ []))
unfolding ends_with_byte
ends_with_byte_split b [] h = cc
ends_with_byte_split b (c ∷ []) h = ([], ground arith)
ends_with_byte_split b (c ∷ d ∷ s) h =
    let (p, e) = ends_with_byte_split b (d ∷ s) h in (c ∷ p, ap (λ (t : Text). c ∷ t) e)

ends_with_byte-append : (b : _) (p : Text) → ends_with_byte b (p ++ (b ∷ [])) ≡ true
unfolding ends_with_byte
ends_with_byte-append b [] = ground arith
ends_with_byte-append b (c ∷ []) = ground arith
ends_with_byte-append b (c ∷ d ∷ p) = ends_with_byte-append b (d ∷ p)

starts_with_byte_split : (b : _) (s : Text) → starts_with_byte b s ≡ true → (t : Text) × (s ≡ b ∷ t)
starts_with_byte_split b [] h = cc
starts_with_byte_split b (c ∷ t) h = (t, ground (arith, h))

-- What follows the path of the cookie.
abbrev Follows : Text → Text → Type 0
Follows path rest = ((p : Text) × (path ≡ p ++ ascii "/")) ⊎ ((s : Text) × (rest ≡ b'/' ∷ s))

slash_iff :
    (path rest : Text)
    → (ends_with_byte b'/' path || starts_with_byte b'/' rest ≡ true) ↔ Follows path rest
slash_iff path rest = (
  λ h. elim (Bool-cases (ends_with_byte b'/' path)) [
    | inl q ↦ inl (ends_with_byte_split b'/' path q)
    | inr q ↦ inr (starts_with_byte_split b'/' rest (ground (arith, h, q)))
  ],
  λ c. elim c [
    | inl (p, e) ↦
        let q : ends_with_byte b'/' path ≡ true =
          subst (λ (t : Text). ends_with_byte b'/' t ≡ true) (sym e)
            (ends_with_byte-append b'/' p) in
        ground (arith, q)
    | inr (s, e) ↦
        let q : starts_with_byte b'/' rest ≡ true = rw e (ground arith) in ground (arith, q)
  ],
)

rest_iff :
    (request path : Text) (o : Option Text)
    → strip_prefix path request ≡ o
    → (elim o as (λ _. Bool) [
      | some remaining ↦ ends_with_byte b'/' path || starts_with_byte b'/' remaining
      | none ↦ false
    ]
        ≡ true)
      ↔ ((rest : Text) × ((request ≡ path ++ rest) × Follows path rest))
rest_iff request path none e =
    (λ h. cc, λ (rest, (q, _)). ground (arith, e, q, strip_prefix-append path rest))
rest_iff request path (some remaining) e = (
  λ h. (remaining, (strip_prefix-some path request remaining e, (slash_iff path remaining).0 h)),
  λ (rest, (q, f)).
      let same : remaining ≡ rest = ground (arith, e, q, strip_prefix-append path rest) in
      (slash_iff path remaining).1 (rw same f),
)

pub path_iff :
    (request path : Text)
    → (cookie_path_matches_request request path ≡ true)
      ↔ IsPathBelow (rooted path) (or_root request)
unfolding cookie_path_matches_request
path_iff request path =
    let below =
      rest_iff (or_root request) (rooted path) (strip_prefix (rooted path) (or_root request))
        refl in
    elim (text_eq.dec (or_root request) (rooted path)) [
      | yes e ↦ (λ h. inl e, λ c. ground (arith, e))
      | no d ↦ (
        λ h. inr (below.0 (ground (arith, h, d))),
        λ c. elim c [ inl e ↦ absurd (d e) | inr b ↦ ground (arith, d, below.1 b) ],
      )
    ]
