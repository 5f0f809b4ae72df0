-- ===== src/Captured/Stale.antt =====
-- magicvault-core/src/store.rs: a session's lease names the capture of its origin, and marking the
-- lease stale ends the sessions of the origin.
use magic_vault.Base.{
  ℕ, Text, text_eq, nat_eq, ◌==◌, Bool, true, false, ◌||◌, Option, none, some, ◌≡◌, refl, sym, ◌∙◌,
  List, [], ◌∷◌, ◌++◌, is_empty, inl, inr, arith, Bool-cases, Option-cases,
}
use magic_vault.Base.Bytes.{any_of}
use magic_vault.Base.Map.{Map, lookup}
use magic_vault.Base.Time.{ℤ}
use magic_vault.Store.Features.{SecretStoreError}
use magic_vault.Store.Vault.{SecretEntry}
use magic_vault.Captured.Cookies.{Url}
use magic_vault.Captured.Session.{
  CapturedSessionTarget, CapturedSessionLease, SessionContext, empty_lease, push_target,
}
use magic_vault.Captured.Replay.{
  fresh_generation, gather, gather_all, assembled, get_session, Gathered, entry_cookies,
}
use magic_vault.Captured.Leases.{mark_targets, mark_lease, mark_stale_lease}
use magic_vault.Captured.Marks.{is_blocked, is_target, mark_targets-hit}
use magic_vault.Captured.Publication.{after_persist-state}
use magic_vault.Captured.Partition.{
  DiskWrite, CapturedPartition, captured_feature, persist_captured,
}

any_of-append :
    (q : CapturedSessionTarget → Bool) (ts us : List CapturedSessionTarget)
    → any_of q (ts ++ us) ≡ any_of q ts || any_of q us
unfolding any_of
any_of-append q [] us = refl
any_of-append q (t ∷ ts) us = ground (arith, any_of-append q ts us)

is_target_refl :
    (origin : Text) (generation : ℕ)
    → is_target origin generation (record { origin = origin; generation = generation }) ≡ true
is_target_refl origin generation = ground arith

push_target-pushed :
    (lease : CapturedSessionLease) (origin : Text) (generation : ℕ)
    → any_of (is_target origin generation) (push_target lease origin generation).stale_mark_targets
      ≡ true
unfolding push_target any_of
push_target-pushed lease origin generation =
    let pushed : CapturedSessionTarget = record { origin = origin; generation = generation } in
    elim (Bool-cases (any_of (is_target origin generation) lease.stale_mark_targets)) [
      | inl h ↦ rw (h, push_target) h
      | inr h ↦
          rw (h, push_target)
            (ground (
              arith,
              any_of-append (is_target origin generation) lease.stale_mark_targets (pushed ∷ []),
              is_target_refl origin generation,
            ))
    ]

push_target-kept :
    (q : CapturedSessionTarget → Bool) (lease : CapturedSessionLease) (origin : Text)
    (generation : ℕ)
    → any_of q lease.stale_mark_targets ≡ true
    → any_of q (push_target lease origin generation).stale_mark_targets ≡ true
unfolding push_target any_of
push_target-kept q lease origin generation h =
    let pushed : CapturedSessionTarget = record { origin = origin; generation = generation } in
    elim (Bool-cases (any_of (is_target origin generation) lease.stale_mark_targets)) [
      | inl k ↦ rw (k, push_target) h
      | inr k ↦
          rw (k, push_target)
            (ground (arith, any_of-append q lease.stale_mark_targets (pushed ∷ []), h))
    ]

module _ (q : CapturedSessionTarget → Bool) (origin : Text) (url : Url) (now : ℤ) where
  gather-kept :
      (candidate : Text) (e : SecretEntry) (g : Gathered)
      → any_of q g.1.stale_mark_targets ≡ true
      → any_of q (gather origin url now (candidate, e) g).1.stale_mark_targets ≡ true
  unfolding gather
  gather-kept candidate e (cookies, lease) h = elim (Bool-cases (candidate == origin)) [
    | inl o ↦ rw (o, gather) h
    | inr o ↦ elim (Option-cases (fresh_generation e)) [
      | inl f ↦ rw (o, f, gather) h
      | inr (n, f) ↦ elim (Bool-cases (is_empty (entry_cookies url now e))) [
        | inl c ↦ rw (o, f, c, gather) h
        | inr c ↦ rw (o, f, c, gather) (push_target-kept q lease candidate n h)
      ]
    ]
  ]

  gather_all-kept :
      (es : Map SecretEntry) (g : Gathered)
      → any_of q g.1.stale_mark_targets ≡ true
      → any_of q (gather_all origin url now es g).1.stale_mark_targets ≡ true
  unfolding gather_all
  gather_all-kept [] g h = h
  gather_all-kept ((candidate, e) ∷ es) g h =
      gather_all-kept es (gather origin url now (candidate, e) g) (gather-kept candidate e g h)

assembled-lease :
    (e : SecretEntry) (g : Gathered) (context : SessionContext) (lease : CapturedSessionLease)
    → assembled (some e) g ≡ some (context, lease)
    → g.1 ≡ lease
unfolding assembled
assembled-lease e g context lease h = cc

get_session-refused :
    (p : CapturedPartition) (origin : Text) (url : Url) (now : ℤ) {x : SecretStoreError}
    → captured_feature p ≡ some x
    → get_session p origin (some url) now ≡ none
unfolding get_session
get_session-refused p origin url now f = rw (f, get_session) refl

lease_targets :
    (p : CapturedPartition) (origin : Text) (url : Url) (now : ℤ) (e : SecretEntry)
    (context : SessionContext) (lease : CapturedSessionLease)
    → lookup origin p.captured ≡ some e
    → get_session p origin (some url) now ≡ some (context, lease)
    → (generation : ℕ) × ((fresh_generation e ≡ some generation)
        × (any_of (is_target origin generation) lease.stale_mark_targets ≡ true))
unfolding get_session
lease_targets p origin url now e context lease l s = elim (Option-cases (captured_feature p)) [
  | inr (_, f) ↦ let refused = get_session-refused p origin url now f in cc
  | inl f ↦ elim (Option-cases (fresh_generation e)) [
    | inl g ↦
        let stale : get_session p origin (some url) now ≡ none = rw (f, l, g, get_session) refl in
        cc
    | inr (generation, g) ↦
        let start = push_target empty_lease origin generation in
        let kept =
          gather_all-kept (is_target origin generation) origin url now p.captured
            (entry_cookies url now e, start) (push_target-pushed empty_lease origin generation) in
        let made : get_session p origin (some url) now
            ≡ assembled (some e)
                (gather_all origin url now p.captured (entry_cookies url now e, start)) =
          rw (f, l, g, get_session) refl in
        let same =
          assembled-lease e (gather_all origin url now p.captured (entry_cookies url now e, start))
            context lease (sym made ∙ s) in
        (generation, (g, rw (sym same) kept))
  ]
]

get_session-blocked :
    (p : CapturedPartition) (origin : Text) (url : Option Url) (now : ℤ)
    → is_blocked origin p.captured ≡ true
    → get_session p origin url now ≡ none
unfolding get_session
get_session-blocked p origin none now h = refl
get_session-blocked p origin (some url) now h = elim (Option-cases (captured_feature p)) [
  | inr (_, f) ↦ rw (f, get_session) refl
  | inl f ↦ elim (Option-cases (lookup origin p.captured)) [
    | inl l ↦ ground (arith, h, l)
    | inr (e, l) ↦ elim (Option-cases (fresh_generation e)) [
      | inl g ↦ rw (f, l, g, get_session) refl
      | inr (_, g) ↦ ground (arith, h, l, g)
    ]
  ]
]

persist_captured-captured :
    (p : CapturedPartition) (outcome : DiskWrite)
    → (persist_captured p outcome).0.captured ≡ p.captured
unfolding persist_captured
persist_captured-captured p outcome = ground arith

mark_targets-empty :
    (value : Bool) (ts : List CapturedSessionTarget) (s : Map SecretEntry × Bool)
    → is_empty ts ≡ true
    → (mark_targets value ts s).0 ≡ s.0
unfolding mark_targets
mark_targets-empty value [] s h = refl
mark_targets-empty value (_ ∷ _) s h = cc

mark_stale_lease-captured :
    (p : CapturedPartition) (lease : CapturedSessionLease) (outcome : DiskWrite)
    → captured_feature p ≡ none
    → (mark_stale_lease p lease outcome).0.captured
      ≡ (mark_targets true lease.stale_mark_targets (p.captured, false)).0
unfolding mark_stale_lease mark_lease
mark_stale_lease-captured p lease outcome f =
    let ts = lease.stale_mark_targets in
    let after = mark_targets true ts (p.captured, false) in
    elim (Bool-cases (is_empty ts)) [
      | inl n ↦
          rw (f, n, mark_stale_lease, mark_lease)
            (sym (mark_targets-empty true ts (p.captured, false) n))
      | inr n ↦ elim (Bool-cases (after.1)) [
        | inr c ↦ rw (f, n, c, mark_stale_lease, mark_lease) refl
        | inl c ↦
            let q = record p { captured = after.0 } in
            rw (f, n, c, mark_stale_lease, mark_lease)
              (rw (after_persist-state true (persist_captured q outcome))
                (persist_captured-captured q outcome))
      ]
    ]

-- Once a session that starts from a capture of its origin has its lease marked stale, whether the
-- publication succeeds or not, no session of that origin is found, for any URL and at any time.
pub get_session-mark_stale_lease :
    (p : CapturedPartition) (origin : Text) (url : Url) (now : ℤ) (e : SecretEntry)
    (context : SessionContext) (lease : CapturedSessionLease) (outcome : DiskWrite)
    (later_url : Option Url) (later : ℤ)
    → lookup origin p.captured ≡ some e
    → get_session p origin (some url) now ≡ some (context, lease)
    → get_session (mark_stale_lease p lease outcome).0 origin later_url later ≡ none
get_session-mark_stale_lease p origin url now e context lease outcome later_url later l s =
    let (generation, (g, t)) = lease_targets p origin url now e context lease l s in
    let blocked =
      mark_targets-hit origin generation e lease.stale_mark_targets p.captured false l g t in
    elim (Option-cases (captured_feature p)) [
      | inr (_, f) ↦ let refused = get_session-refused p origin url now f in cc
      | inl f ↦
          get_session-blocked (mark_stale_lease p lease outcome).0 origin later_url later
            (rw (mark_stale_lease-captured p lease outcome f) blocked)
    ]
