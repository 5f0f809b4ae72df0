-- ===== src/Policy/WireTrips.antt =====
-- magicvault-core/src/policy.rs: `to_wire` and `from_wire` of `RequestedDomains`.
use native.Mathlib.Decide.{ℕ_discrete}
use mathlib.Core.Path.{subst}
use mathlib.Core.List.{append_assoc, append-nil}
use magic_vault.Base.{
  ℕ, ◌+◌, ◌≤◌, Text, text_eq, nat_eq, ◌==◌, true, List, [], ◌∷◌, ◌++◌, length, length-append, All,
  ok, ◌≡◌, refl, sym, inl, inr, arith, Bool-cases,
}
use magic_vault.Base.Bytes.{to_ascii_lowercase, lower_byte, all_bytes, all_of, split, cons_head}
use magic_vault.Base.Order.{compare_text-above}
use magic_vault.Policy.Domains.{
  RequestedDomains, no_domain, one, set, any, is_dns_host, is_label, is_ldh, insert_host,
  collect_hosts, hosts, of_canonical, from_wire, to_wire, from_legacy, max_requested_domains,
}
use magic_vault.Policy.HostSets.{Below, Ascends, IsHost, IsCanonical}

lower_cons :
    (c : ℕ) (s : Text)
    → lower_byte c ≡ c
    → to_ascii_lowercase s ≡ s
    → to_ascii_lowercase (c ∷ s) ≡ c ∷ s
unfolding to_ascii_lowercase
lower_cons c s p q = cc

cons_head-ldh :
    (c : ℕ) (ls : List Text)
    → all_of (all_bytes is_ldh) (cons_head c ls) ≡ true
    → (is_ldh c ≡ true) × (all_of (all_bytes is_ldh) ls ≡ true)
unfolding all_of all_bytes
cons_head-ldh c [] h = ground arith
cons_head-ldh c (l ∷ ls) h = ground arith

lower_ldh : (c : ℕ) → is_ldh c ≡ true → lower_byte c ≡ c
unfolding lower_byte
lower_ldh c h = ground arith

lower_dot : (c : ℕ) → (c == b'.') ≡ true → lower_byte c ≡ c
unfolding lower_byte
lower_dot c h = ground arith

ldh_lower : (s : Text) → all_of (all_bytes is_ldh) (split b'.' s) ≡ true → to_ascii_lowercase s ≡ s
unfolding all_of split
ldh_lower [] h = unfold to_ascii_lowercase in refl
ldh_lower (c ∷ s) h = elim (Bool-cases (c == b'.')) [
  | inl dot ↦ lower_cons c s (lower_dot c dot) (ldh_lower s (ground arith))
  | inr other ↦
      let (good, rest) = cons_head-ldh c (split b'.' s) (rw other at h) in
      lower_cons c s (lower_ldh c good) (ldh_lower s rest)
]

labels_ldh : (ls : List Text) → all_of is_label ls ≡ true → all_of (all_bytes is_ldh) ls ≡ true
unfolding all_of is_label
labels_ldh [] h = refl
labels_ldh (l ∷ ls) h = ground (arith, labels_ldh ls)

-- A host name is its own lowercase form.
pub host_lower : (h : Text) → IsHost h → to_ascii_lowercase h ≡ h
unfolding is_dns_host
host_lower h p = ldh_lower h (labels_ldh (split b'.' h) (ground arith))

insert_host-end :
    (h : Text) (acc : List Text) → All (λ x. Below x h) acc → insert_host h acc ≡ acc ++ (h ∷ [])
unfolding insert_host
insert_host-end h [] a = refl
insert_host-end h (x ∷ acc) a =
    ground (arith, insert_host-end h acc a.1, compare_text-above x h a.0)

-- The members of the front part lie below the head of the back part.
Ascends-middle :
    (acc : List Text) (h : Text) (hs : List Text)
    → Ascends (acc ++ (h ∷ hs))
    → All (λ x. Below x h) acc
Ascends-middle [] h hs a = tt
Ascends-middle (x ∷ acc) h hs a = (All-middle (Below x) acc h hs a.0, Ascends-middle acc h hs a.1)
  where
    All-middle :
        (P : Text → Type 0) (acc : List Text) (h : Text) (hs : List Text)
        → All P (acc ++ (h ∷ hs))
        → P h
    All-middle P [] h hs a = a.0
    All-middle P (y ∷ acc) h hs a = All-middle P acc h hs a.1

-- Names that are an ascending continuation of the set are appended one by one.
collect_hosts-ascending :
    (hs acc : List Text)
    → Ascends (acc ++ hs)
    → All IsHost hs
    → length acc + length hs ≤ max_requested_domains
    → collect_hosts hs acc ≡ ok (acc ++ hs)
unfolding collect_hosts
collect_hosts-ascending [] acc a p n = rw append-nil
collect_hosts-ascending (h ∷ hs) acc a p n =
    let more : insert_host h acc ≡ acc ++ (h ∷ []) =
      insert_host-end h acc (Ascends-middle acc h hs a) in
    let join : (acc ++ (h ∷ [])) ++ hs ≡ acc ++ (h ∷ hs) = append_assoc acc (h ∷ []) hs in
    let rest =
      collect_hosts-ascending hs (acc ++ (h ∷ [])) (subst Ascends (sym join) a) p.1
        (omega (arith, length-append acc (h ∷ []))) in
    ground (arith, host_lower h p.0, more, join, rest, length-append acc (h ∷ []))

-- A canonical scope that was written to the wire pair reads back as itself.
pub from_wire-to_wire :
    (d : RequestedDomains) → IsCanonical d → from_wire (to_wire d).0 (to_wire d).1 ≡ ok d
unfolding from_wire to_wire hosts from_legacy of_canonical text_eq ℕ_discrete
from_wire-to_wire no_domain c = refl
from_wire-to_wire (one h) c = refl
from_wire-to_wire any c = refl
from_wire-to_wire (set []) (s, n) = absurd (omega arith)
from_wire-to_wire (set (x ∷ [])) (s, n) = absurd (omega arith)
from_wire-to_wire (set (x ∷ y ∷ hs)) (s, n) =
    rw (collect_hosts-ascending (x ∷ y ∷ hs) [] s.ascends s.are_hosts (omega (arith, s.bounded)))
