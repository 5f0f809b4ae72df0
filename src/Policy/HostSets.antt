-- ===== src/Policy/HostSets.antt =====
-- magicvault-core/src/policy.rs: the canonical form of `RequestedDomains`.
use Prim.Native.Nat.{Ordering}
use mathlib.Core.Path.{subst}
use magic_vault.Base.{
  Result-cases, ◌≤◌, Text, text_eq, true, List, [], ◌∷◌, ltb, length, All, ok, ◌≡◌, inl, inr, arith,
  Bool-cases,
}
use magic_vault.Base.Bytes.{to_ascii_lowercase, compare_text}
use magic_vault.Base.Order.{compare_text-flip, compare_text_trans}
use magic_vault.Policy.Domains.{
  RequestedDomains, no_domain, one, set, any, is_dns_host, insert_host, collect_hosts, hosts,
  of_canonical, canonical_of, max_requested_domains,
}

abbrev pub Below : Text → Text → Type 0
Below s t = compare_text s t ≡ Ordering.lt

-- Strictly ascending in the byte order.
abbrev pub Ascends : List Text → Type 0
Ascends [] = Unit
Ascends (h ∷ hs) = All (Below h) hs × Ascends hs

abbrev pub IsHost : Text → Type 0
IsHost h = is_dns_host h ≡ true

insert_host-above :
    (x h : Text) (hs : List Text) → Below x h → All (Below x) hs → All (Below x) (insert_host h hs)
unfolding insert_host
insert_host-above x h [] b a = (b, tt)
insert_host-above x h (y ∷ hs) b a = ground (arith, insert_host-above x h hs b)

above_trans : (x h : Text) (hs : List Text) → Below x h → All (Below h) hs → All (Below x) hs
above_trans x h [] b a = tt
above_trans x h (y ∷ hs) b a = (compare_text_trans x h y b a.0, above_trans x h hs b a.1)

insert_host-Ascends : (h : Text) (hs : List Text) → Ascends hs → Ascends (insert_host h hs)
unfolding insert_host
insert_host-Ascends h [] a = (tt, tt)
insert_host-Ascends h (x ∷ hs) a = ground (
  arith,
  insert_host-Ascends h hs a.1,
  compare_text-flip h x,
  insert_host-above x h hs,
  above_trans h x hs,
)

insert_host-All :
    (P : Text → Type 0) (h : Text) (hs : List Text) → P h → All P hs → All P (insert_host h hs)
unfolding insert_host
insert_host-All P h [] p a = (p, tt)
insert_host-All P h (x ∷ hs) p a = ground (arith, insert_host-All P h hs p)

-- What `hosts` keeps of the set that it builds.
pub record IsHostSet (hs : List Text) : Type 0 where
  pub ascends : Ascends hs
  pub are_hosts : All IsHost hs
  pub bounded : length hs ≤ max_requested_domains

pub collect_hosts-IsHostSet :
    (names acc : List Text) {hs : List Text}
    → IsHostSet acc
    → collect_hosts names acc ≡ ok hs
    → IsHostSet hs
unfolding collect_hosts
collect_hosts-IsHostSet [] acc {hs} s h = subst IsHostSet (ground arith) s
collect_hosts-IsHostSet (n ∷ names) acc {hs} s h =
    let host = to_ascii_lowercase n in
    let more = insert_host host acc in
    elim (Bool-cases (is_dns_host host)) [
      | inr bad ↦ absurd (ground arith)
      | inl good ↦ elim (Bool-cases (ltb max_requested_domains (length more))) [
        | inl many ↦ absurd (ground arith)
        | inr few ↦
            let kept : IsHostSet more = record {
              ascends = insert_host-Ascends host acc s.ascends;
              are_hosts = insert_host-All IsHost host acc good s.are_hosts;
              bounded = ground arith;
            } in
            collect_hosts-IsHostSet names more kept (ground arith)
      ]
    ]

pub nil-IsHostSet : IsHostSet []
nil-IsHostSet = record { ascends = tt; are_hosts = tt; bounded = omega arith }

-- A requested domain scope as `hosts` builds it.
abbrev pub IsCanonical : RequestedDomains → Type 0
IsCanonical no_domain = Unit
IsCanonical (one h) = Unit
IsCanonical (set hs) = IsHostSet hs × (2 ≤ length hs)
IsCanonical any = Unit

-- What `hosts` may return: one host, or a set of two to sixteen hosts in strictly ascending order.
abbrev pub IsHosts : RequestedDomains → Type 0
IsHosts no_domain = ⊥
IsHosts (one h) = IsHost h
IsHosts (set hs) = IsHostSet hs × (2 ≤ length hs)
IsHosts any = ⊥

of_canonical-IsHosts :
    (hs : List Text) {d : RequestedDomains} → IsHostSet hs → of_canonical hs ≡ ok d → IsHosts d
unfolding of_canonical
of_canonical-IsHosts [] s h = cc
of_canonical-IsHosts (x ∷ []) {d} s h =
    let same : one x ≡ d = ground arith in subst IsHosts same s.are_hosts.0
of_canonical-IsHosts (x ∷ y ∷ hs) {d} s h =
    let same : set (x ∷ y ∷ hs) ≡ d = ground arith in subst IsHosts same (s, omega arith)

-- `hosts` returns canonical values only: every host is a DNS host name, and a set is strictly
-- ascending with two to sixteen members.
pub hosts-IsHosts : (names : List Text) {d : RequestedDomains} → hosts names ≡ ok d → IsHosts d
unfolding hosts
hosts-IsHosts names {d} h = elim (Result-cases (collect_hosts names [])) [
  | inl (hs, q) ↦
      of_canonical-IsHosts hs (collect_hosts-IsHostSet names [] nil-IsHostSet q)
        (rw (q, canonical_of) at h)
  | inr (e, q) ↦ absurd (ground arith)
]
