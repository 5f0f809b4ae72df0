-- ===== src/Tests/Scopings.antt =====
-- Runs of the fingerprints and the domain scopes (magicvault-core/src/policy.rs).
use native.Mathlib.Decide.{ℕ_discrete}
use mathlib.Core.List.{Memᴰ}
use mathlib.Core.List.Memᴰ
use magic_vault.Base.{
  Text, text_eq, nat_eq, option_text_eq, true, List, [], ◌∷◌, ascii, ◌↔◌, ◌≡◌, inl, inr, refl,
  arith, ok,
}
use magic_vault.Base.Bytes.{
  to_ascii_lowercase, lower_byte, compare_text, all_of, all_bytes, split, ends_with_byte,
}
use magic_vault.Policy.Domains.{
  no_domain, one, from_wire, to_wire, hosts, collect_hosts, insert_host, is_dns_host, is_label,
  of_canonical, domains_eq,
}
use magic_vault.Policy.Requests.{authority_eq}
use magic_vault.Policy.Approvals.{request_fingerprint, fingerprint, fingerprint_eq}
use magic_vault.Policy.Check.{domain_matches}
use magic_vault.Policy.HostSets.{IsHosts, hosts-IsHosts}
use magic_vault.Policy.WireTrips.{from_wire-to_wire}
use magic_vault.Policy.HostMembers.{lowered}
use magic_vault.Policy.Patterns.{domain_matches_iff, Covers}
use magic_vault.Policy.Fingerprints.{fingerprint_injective, IsPlain}
use magic_vault.Tests.Grants.{bank, bank-IsCanonical, http, post, secret_id}

plain : IsPlain secret_id http post
plain = record {
  plain_id = (λ h. omega (arith, h), (λ h. omega (arith, h), tt));
  plain_tool = (
    λ h. omega (arith, h),
    (λ h. omega (arith, h), (λ h. omega (arith, h), (λ h. omega (arith, h), tt))),
  );
  plain_action = (
    λ h. omega (arith, h),
    (λ h. omega (arith, h), (λ h. omega (arith, h), (λ h. omega (arith, h), tt))),
  );
}

fingerprint_injective_example :
    (secret_id ≡ secret_id) × (http ≡ http) × (post ≡ post) × (bank ≡ bank)
fingerprint_injective_example =
    fingerprint_injective secret_id http post secret_id http post bank bank plain plain tt tt refl

from_wire-to_wire_example : from_wire (to_wire bank).0 (to_wire bank).1 ≡ ok bank
from_wire-to_wire_example = from_wire-to_wire bank bank-IsCanonical

abbrev typed : List Text
typed = ascii "Bank.Example" ∷ ascii "api.bank.example" ∷ []

abbrev listed : List Text
listed = ascii "API.bank.example" ∷ ascii "bank.example" ∷ ascii "bank.example" ∷ []

typed-hosts : hosts typed ≡ ok bank
unfolding hosts collect_hosts insert_host compare_text is_dns_host is_label all_bytes all_of split
    of_canonical to_ascii_lowercase lower_byte text_eq ℕ_discrete nat_eq ends_with_byte
typed-hosts = refl

listed-hosts : hosts listed ≡ ok bank
unfolding hosts collect_hosts insert_host compare_text is_dns_host is_label all_bytes all_of split
    of_canonical to_ascii_lowercase lower_byte text_eq ℕ_discrete nat_eq ends_with_byte
listed-hosts = refl

hosts-IsHosts_example : IsHosts bank
hosts-IsHosts_example = hosts-IsHosts typed {d = bank} typed-hosts

same_members : (z : Text) → Memᴰ z (lowered typed) ↔ Memᴰ z (lowered listed)
unfolding to_ascii_lowercase lower_byte
same_members z = (
  λ h. elim (Memᴰ.cases_cons h) [
    | inl q ↦ Memᴰ.tail (Memᴰ.head q)
    | inr r ↦ elim (Memᴰ.cases_cons r) [
      | inl q ↦ Memᴰ.head q
      | inr none_left ↦ absurd (Memᴰ.not-nil none_left)
    ]
  ],
  λ h. elim (Memᴰ.cases_cons h) [
    | inl q ↦ Memᴰ.tail (Memᴰ.head q)
    | inr r ↦ elim (Memᴰ.cases_cons r) [
      | inl q ↦ Memᴰ.head q
      | inr r' ↦ elim (Memᴰ.cases_cons r') [
        | inl q ↦ Memᴰ.head q
        | inr none_left ↦ absurd (Memᴰ.not-nil none_left)
      ]
    ]
  ],
)

domain_matches_iff_example :
    (domain_matches (ascii "*.Bank.example") (ascii "api.bank.example") ≡ true)
    ↔ Covers (ascii "*.Bank.example") (ascii "api.bank.example")
domain_matches_iff_example = domain_matches_iff (ascii "*.Bank.example") (ascii "api.bank.example")

test_shared :
    fingerprint (ascii "a|b") (ascii "c") post no_domain
    ≡ fingerprint (ascii "a") (ascii "b|c") post no_domain
unfolding fingerprint request_fingerprint
test_shared = refl

test_empty_domain :
    fingerprint secret_id http post (one []) ≡ fingerprint secret_id http post no_domain
unfolding fingerprint request_fingerprint
test_empty_domain = refl
