-- ===== src/Policy/Domains.antt =====
-- magicvault-core/src/policy.rs: `RequestedDomains` and the DNS host test.
use magic_vault.Base.{
  ℕ, zero, suc, Text, text_eq, nat_eq, ◌==◌, Bool, true, false, ◌&&◌, ◌||◌, not, Option, none, some,
  List, [], ◌∷◌, if◌then◌else◌, ascii, ltb, leb, length, is_some, Eq, Result, ok, err,
}
use magic_vault.Base.Bytes.{
  to_ascii_lowercase, split, starts_with_byte, ends_with_byte, all_bytes, all_of, compare_text,
  take, byte_at,
}
use Prim.Native.Nat.{Ordering}
use native.Mathlib.Decide.{ℕ_discrete}

abbrev pub max_requested_domains : ℕ
max_requested_domains = 16

abbrev pub any_domain : Text
any_domain = ascii "*"

abbrev pub max_displayed_host_bytes : ℕ
max_displayed_host_bytes = 128

-- The text that `display_host` shows: the part of the host that it escapes, and whether "..." follows.
pub record ShownHost : Type 0 where
  pub shown : Text
  pub cut : Bool

pub data DomainScopeError : Type 0 where
  empty : DomainScopeError
  too_many : DomainScopeError
  invalid_host : ShownHost → DomainScopeError
  conflicting : DomainScopeError

-- `DomainSet` is its list of hosts.
pub data RequestedDomains : Type 0 where
  no_domain : RequestedDomains
  one : Text → RequestedDomains
  set : List Text → RequestedDomains
  any : RequestedDomains

-- `str::is_char_boundary`: the ends, and a byte that does not continue a character.
unfoldable pub is_char_boundary : Text → ℕ → Bool
is_char_boundary host zero = true
is_char_boundary host (suc i) = elim (byte_at host (suc i)) [
  | none ↦ length host == suc i
  | some b ↦ ltb b 128 || leb 192 b
]

-- `while !host.is_char_boundary(end) { end -= 1 }`.
unfoldable pub floor_boundary : Text → ℕ → ℕ
unfolding is_char_boundary
floor_boundary host zero = zero
floor_boundary host (suc i) =
    let lower = floor_boundary host i in if is_char_boundary host (suc i) then suc i else lower

unfoldable pub display_host : Text → ShownHost
unfolding floor_boundary
display_host host =
    let start =
      if ltb (length host) max_displayed_host_bytes
      then length host
      else max_displayed_host_bytes in
    let end = floor_boundary host start in
    record { shown = take end host; cut = ltb end (length host) }

abbrev pub is_ldh : ℕ → Bool
is_ldh b = (leb b'a' b && leb b b'z') || (leb b'0' b && leb b b'9') || b == b'-'

unfoldable pub is_label : Text → Bool
unfolding all_bytes
is_label label =
    not (label == [])
    && leb (length label) 63
    && not (starts_with_byte b'-' label)
    && not (ends_with_byte b'-' label)
    && all_bytes is_ldh label

unfoldable pub is_dns_host : Text → Bool
unfolding is_label
is_dns_host host = not (host == [] || ltb 253 (length host)) && all_of is_label (split b'.' host)

unfoldable pub from_legacy : Option Text → RequestedDomains
from_legacy none = no_domain
from_legacy (some domain) = one domain

-- `BTreeSet::insert`, on the ascending list of the members.
unfoldable pub insert_host : Text → List Text → List Text
insert_host h [] = h ∷ []
insert_host h (x ∷ xs) =
    let rest = insert_host h xs in
    elim (compare_text h x) [
      | Ordering.lt ↦ h ∷ x ∷ xs
      | Ordering.eq ↦ x ∷ xs
      | Ordering.gt ↦ x ∷ rest
    ]

-- The loop of `hosts` over the names that are left, with the set so far.
unfoldable pub collect_hosts : List Text → List Text → Result (List Text) DomainScopeError
collect_hosts [] canonical = ok canonical
collect_hosts (name ∷ names) canonical =
    let host = to_ascii_lowercase name in
    let canonical' = insert_host host canonical in
    let rest = collect_hosts names canonical' in
    if not (is_dns_host host)
    then err (invalid_host (display_host host))
    else if ltb max_requested_domains (length canonical')
    then err too_many
    else rest

unfoldable pub of_canonical : List Text → Result RequestedDomains DomainScopeError
of_canonical [] = err empty
of_canonical (h ∷ []) = ok (one h)
of_canonical (h ∷ h' ∷ hs) = ok (set (h ∷ h' ∷ hs))

abbrev pub canonical_of :
    Result (List Text) DomainScopeError → Result RequestedDomains DomainScopeError
canonical_of (ok canonical) = of_canonical canonical
canonical_of (err e) = err e

unfoldable pub hosts : List Text → Result RequestedDomains DomainScopeError
hosts names = canonical_of (collect_hosts names [])

-- `domains.len() == 1 && domains[0] == ANY_DOMAIN`.
abbrev pub is_all_sites : List Text → Bool
is_all_sites (d ∷ []) = d == any_domain
is_all_sites _ = false

unfoldable pub from_wire : Option Text → List Text → Result RequestedDomains DomainScopeError
from_wire domain [] = ok (from_legacy domain)
from_wire domain (d ∷ ds) =
    if is_some domain
    then err conflicting
    else if is_all_sites (d ∷ ds)
    then ok any
    else hosts (d ∷ ds)

unfoldable pub to_wire : RequestedDomains → Option Text × List Text
to_wire no_domain = (none, [])
to_wire (one domain) = (some domain, [])
to_wire (set hs) = (none, hs)
to_wire any = (none, any_domain ∷ [])

unfoldable pub RequestedDomains-discrete : Discrete RequestedDomains
RequestedDomains-discrete = hlevel ℕ_discrete

instance unfoldable pub domains_eq : Eq RequestedDomains
unfolding RequestedDomains-discrete
domains_eq = record { dec = RequestedDomains-discrete }
