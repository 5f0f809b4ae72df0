-- ===== src/Policy/Fingerprints.antt =====
-- magicvault-core/src/policy.rs: `RequestFingerprint` and the requests it stands for.
use magic_vault.Base.{Text, Option, none, some, [], ◌≡◌, ◌≢◌, arith}
use magic_vault.Base.Separators.{Without, split_unique}
use magic_vault.Policy.Domains.{RequestedDomains, no_domain, one}
use magic_vault.Policy.Approvals.{fingerprint, request_fingerprint, unwrap_or_default}

-- A single domain that is named is not the empty text.
abbrev pub IsNamed : RequestedDomains → Type 0
IsNamed (one d) = d ≢ []
IsNamed _ = Unit

-- The parts before the domain hold no bar.
pub record IsPlain (secret_id tool action : Text) : Type 0 where
  pub plain_id : Without b'|' secret_id
  pub plain_tool : Without b'|' tool
  pub plain_action : Without b'|' action

module _ (i t a i' t' a' : Text) (d d' : Option Text) (p : IsPlain i t a)
    (p' : IsPlain i' t' a') where
  request_fingerprint_injective :
      request_fingerprint i t a d ≡ request_fingerprint i' t' a' d'
      → (i ≡ i') × (t ≡ t') × (a ≡ a') × (unwrap_or_default d ≡ unwrap_or_default d')
  unfolding request_fingerprint
  request_fingerprint_injective h =
      let (e₁, h₁) = split_unique b'|' i i' _ _ p.plain_id p'.plain_id h in
      let (e₂, h₂) = split_unique b'|' t t' _ _ p.plain_tool p'.plain_tool h₁ in
      let (e₃, h₃) = split_unique b'|' a a' _ _ p.plain_action p'.plain_action h₂ in
      (e₁, e₂, e₃, h₃)

-- Two requests with one fingerprint have the same secret, tool, action and domains, if their ids,
-- tools and actions hold no bar and a single domain is not empty.
pub fingerprint_injective :
    (i t a i' t' a' : Text) (d d' : RequestedDomains)
    → IsPlain i t a
    → IsPlain i' t' a'
    → IsNamed d
    → IsNamed d'
    → fingerprint i t a d ≡ fingerprint i' t' a' d'
    → (i ≡ i') × (t ≡ t') × (a ≡ a') × (d ≡ d')
unfolding fingerprint
fingerprint_injective i t a i' t' a' no_domain no_domain p p' n n' h =
    ground (arith, request_fingerprint_injective i t a i' t' a' none none p p')
fingerprint_injective i t a i' t' a' no_domain (one e) p p' n n' h =
    ground (arith, request_fingerprint_injective i t a i' t' a' none (some e) p p')
fingerprint_injective i t a i' t' a' (one e) no_domain p p' n n' h =
    ground (arith, request_fingerprint_injective i t a i' t' a' (some e) none p p')
fingerprint_injective i t a i' t' a' (one e) (one e') p p' n n' h =
    ground (arith, request_fingerprint_injective i t a i' t' a' (some e) (some e') p p')
fingerprint_injective i t a i' t' a' _ _ p p' n n' h = ground arith
