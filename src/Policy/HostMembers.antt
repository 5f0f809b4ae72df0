-- ===== src/Policy/HostMembers.antt =====
-- magicvault-core/src/policy.rs: which hosts a value of `RequestedDomains::hosts` has.
use mathlib.Core.Path.{subst, ap₂}
use mathlib.Core.List.{Memᴰ}
use mathlib.Core.List.Memᴰ
use magic_vault.Base.{
  Result-cases, Text, List, [], ◌∷◌, All, ok, ◌≡◌, refl, sym, ◌∙◌, ◌⊎◌, ◌↔◌, inl, inr, arith,
}
use magic_vault.Base.Bytes.{to_ascii_lowercase}
use magic_vault.Base.Order.{compare_text_refl, eq_of_compare_text, compare_text_trans}
use magic_vault.Policy.Domains.{RequestedDomains, insert_host, collect_hosts, hosts}
use magic_vault.Policy.HostSets.{Below, Ascends, nil-IsHostSet, collect_hosts-IsHostSet}

-- An insertion puts the host first, finds it first, or goes on behind the first one.
insert_host_shape :
    (h y : Text) (hs : List Text)
    → (insert_host h (y ∷ hs) ≡ h ∷ y ∷ hs)
      ⊎ ((h ≡ y) × (insert_host h (y ∷ hs) ≡ y ∷ hs))
      ⊎ (insert_host h (y ∷ hs) ≡ y ∷ insert_host h hs)
unfolding insert_host
insert_host_shape h y hs = grind (arith, eq_of_compare_text h y)

insert_host-mem : (x h : Text) (hs : List Text) → Memᴰ x (insert_host h hs) → (x ≡ h) ⊎ Memᴰ x hs
insert_host-mem x h [] m = inl (Memᴰ.eq_of_singleton (unfold insert_host in m))
insert_host-mem x h (y ∷ hs) m = elim (insert_host_shape h y hs) [
  | inl e ↦ Memᴰ.cases_cons (subst (Memᴰ x) e m)
  | inr (inl (_, e)) ↦ inr (subst (Memᴰ x) e m)
  | inr (inr e) ↦ elim (Memᴰ.cases_cons (subst (Memᴰ x) e m)) [
    | inl q ↦ inr (Memᴰ.head q)
    | inr r ↦ elim (insert_host-mem x h hs r) [ inl q ↦ inl q | inr q ↦ inr (Memᴰ.tail q) ]
  ]
]

mem-insert_host : (x h : Text) (hs : List Text) → (x ≡ h) ⊎ Memᴰ x hs → Memᴰ x (insert_host h hs)
mem-insert_host x h [] (inl q) = unfold insert_host in Memᴰ.head q
mem-insert_host x h [] (inr m) = absurd (Memᴰ.not-nil m)
mem-insert_host x h (y ∷ hs) q = elim (insert_host_shape h y hs) [
  | inl e ↦ subst (Memᴰ x) (sym e) (elim q [ inl p ↦ Memᴰ.head p | inr m ↦ Memᴰ.tail m ])
  | inr (inl (p, e)) ↦ subst (Memᴰ x) (sym e) (elim q [ inl r ↦ Memᴰ.head (r ∙ p) | inr m ↦ m ])
  | inr (inr e) ↦ subst (Memᴰ x) (sym e) (elim q [
    | inl r ↦ Memᴰ.tail (mem-insert_host x h hs (inl r))
    | inr m ↦ elim (Memᴰ.cases_cons m) [
      | inl r ↦ Memᴰ.head r
      | inr r ↦ Memᴰ.tail (mem-insert_host x h hs (inr r))
    ]
  ])
]

abbrev pub lowered : List Text → List Text
lowered [] = []
lowered (n ∷ names) = to_ascii_lowercase n ∷ lowered names

collect_hosts-mem :
    (x : Text) (names acc : List Text) {hs : List Text}
    → collect_hosts names acc ≡ ok hs
    → Memᴰ x hs ↔ (Memᴰ x (lowered names) ⊎ Memᴰ x acc)
unfolding collect_hosts
collect_hosts-mem x [] acc {hs} h =
    let same : acc ≡ hs = ground arith in
    (
      λ m. inr (subst (Memᴰ x) (sym same) m),
      λ q. elim q [ inl m ↦ absurd (Memᴰ.not-nil m) | inr m ↦ subst (Memᴰ x) same m ],
    )
collect_hosts-mem x (n ∷ names) acc {hs} h =
    let host = to_ascii_lowercase n in
    let rest = collect_hosts-mem x names (insert_host host acc) {hs = hs} (ground arith) in
    (
      λ m. elim (rest.0 m) [
        | inl q ↦ inl (Memᴰ.tail q)
        | inr q ↦ elim (insert_host-mem x host acc q) [ inl p ↦ inl (Memᴰ.head p) | inr p ↦ inr p ]
      ],
      λ q. rest.1 (elim q [
        | inl m ↦ elim (Memᴰ.cases_cons m) [
          | inl p ↦ inr (mem-insert_host x host acc (inl p))
          | inr p ↦ inl p
        ]
        | inr m ↦ inr (mem-insert_host x host acc (inr m))
      ]),
    )

Below-of_mem : (x y : Text) (hs : List Text) → All (Below x) hs → Memᴰ y hs → Below x y
Below-of_mem x y [] a m = absurd (Memᴰ.not-nil m)
Below-of_mem x y (z ∷ hs) a m = elim (Memᴰ.cases_cons m) [
  | inl p ↦ subst (Below x) (sym p) a.0
  | inr q ↦ Below-of_mem x y hs a.1 q
]

not-Below-self : (x : Text) → ¬ (Below x x)
not-Below-self x h = ground (arith, compare_text_refl x)

-- Two ascending lists with the same members are equal.
Ascends-unique :
    (xs ys : List Text) → Ascends xs → Ascends ys → ((z : Text) → Memᴰ z xs ↔ Memᴰ z ys) → xs ≡ ys
Ascends-unique [] [] a b m = refl
Ascends-unique [] (y ∷ ys) a b m = absurd (Memᴰ.not-nil ((m y).1 (Memᴰ.head refl)))
Ascends-unique (x ∷ xs) [] a b m = absurd (Memᴰ.not-nil ((m x).0 (Memᴰ.head refl)))
Ascends-unique (x ∷ xs) (y ∷ ys) a b m =
    let same : x ≡ y = elim (Memᴰ.cases_cons ((m x).0 (Memᴰ.head refl))) [
      | inl p ↦ p
      | inr p ↦ elim (Memᴰ.cases_cons ((m y).1 (Memᴰ.head refl))) [
        | inl q ↦ sym q
        | inr q ↦ absurd (
            not-Below-self x
              (compare_text_trans x y x (Below-of_mem x y xs a.0 q) (Below-of_mem y x ys b.0 p)))
      ]
    ] in
    ap₂ (λ h t. h ∷ t) same
      (Ascends-unique xs ys a.1 b.1 (λ z. (
        λ q. elim (Memᴰ.cases_cons ((m z).0 (Memᴰ.tail q))) [
          | inl p ↦
              absurd (not-Below-self x (subst (Below x) (p ∙ sym same) (Below-of_mem x z xs a.0 q)))
          | inr p ↦ p
        ],
        λ q. elim (Memᴰ.cases_cons ((m z).1 (Memᴰ.tail q))) [
          | inl p ↦
              absurd (not-Below-self y (subst (Below y) (p ∙ same) (Below-of_mem y z ys b.0 q)))
          | inr p ↦ p
        ],
      )))

-- Two lists of names that `hosts` accepts and that say the same hosts, in any order, case and
-- repetition, give the same value.
pub hosts_same :
    (names names' : List Text) {d d' : RequestedDomains}
    → hosts names ≡ ok d
    → hosts names' ≡ ok d'
    → ((z : Text) → Memᴰ z (lowered names) ↔ Memᴰ z (lowered names'))
    → d ≡ d'
unfolding hosts
hosts_same names names' {d} {d'} h h' m = elim (Result-cases (collect_hosts names [])) [
  | inr (e, q) ↦ absurd (ground arith)
  | inl (hs, q) ↦ elim (Result-cases (collect_hosts names' [])) [
    | inr (e, q') ↦ absurd (ground arith)
    | inl (hs', q') ↦
        let same : hs ≡ hs' =
          Ascends-unique hs hs' (collect_hosts-IsHostSet names [] nil-IsHostSet q).ascends
            (collect_hosts-IsHostSet names' [] nil-IsHostSet q').ascends
            (λ z. (
              λ r. member z names' hs' q' ((m z).0 (member_of z names hs q r)),
              λ r. member z names hs q ((m z).1 (member_of z names' hs' q' r)),
            )) in
        ground arith
  ]
]
  where
    member_of :
        (z : Text) (ns hs : List Text)
        → collect_hosts ns [] ≡ ok hs
        → Memᴰ z hs
        → Memᴰ z (lowered ns)
    member_of z ns hs q r = elim ((collect_hosts-mem z ns [] q).0 r) [
      | inl p ↦ p
      | inr p ↦ absurd (Memᴰ.not-nil p)
    ]

    member :
        (z : Text) (ns hs : List Text)
        → collect_hosts ns [] ≡ ok hs
        → Memᴰ z (lowered ns)
        → Memᴰ z hs
    member z ns hs q r = (collect_hosts-mem z ns [] q).1 (inl r)
