-- ===== src/Captured/Publication.antt =====
-- magicvault-core/src/store.rs: the dirty flag of the captured partition tells when its file is behind.
use magic_vault.Base.{
  ℕ, Text, Bool, true, false, Option, none, some, ◌≡◌, refl, sym, ◌∙◌, List, arith, [], ◌∷◌,
  Bool-cases, Option-cases, is_empty, inl, inr,
}
use magic_vault.Base.Map.{Map, lookup, insert, remove, contains_key}
use magic_vault.Base.Time.{ℤ}
use magic_vault.Store.Vault.{SecretEntry}
use magic_vault.Captured.Cookies.{CookieWithMetadata}
use magic_vault.Captured.Session.{CapturedSessionTarget, CapturedSessionLease}
use magic_vault.Captured.Storing.{
  Capture, put_captured, merged, existing_capture, browser_state, store_captured_inner,
  store_captured, store_captured_deferred_with_query_params, store_captured_browser_state_deferred,
}
use magic_vault.Captured.Leases.{
  mark_target, mark_targets, marked, set_mark, mark_lease, mark_fresh, update_captured_state,
}
use magic_vault.Captured.Partition.{
  DiskWrite, CapturedPartition, CapturedError, captured_feature, persist_captured, flush_captured,
  clear_captured, clear_all_captured, after_persist,
}

-- Where the flag is clear, the file holds the captures.
abbrev pub IsSaved : CapturedPartition → Type 0
IsSaved p = p.captured_dirty ≡ false → p.captured_file ≡ p.captured

-- A call of some operation; the `DiskWrite` at its end is what its publication does.
pub data CapturedStep (detect_jwt_expiry : Text → Option ℤ)
    : CapturedPartition → CapturedPartition → Type 0 where
  stores :
      (p : CapturedPartition) (origin : Text) (headers : Map Text)
      (cookies : List CookieWithMetadata) (local session : Map Text) (now : ℤ) (outcome : DiskWrite)
      → CapturedStep detect_jwt_expiry p
          (store_captured detect_jwt_expiry p origin headers cookies local session now outcome).0
  defers :
      (p : CapturedPartition) (origin : Text) (headers auth_query_params : Map Text)
      (cookies : List CookieWithMetadata) (local session : Map Text) (now : ℤ)
      → CapturedStep detect_jwt_expiry p
          (store_captured_deferred_with_query_params detect_jwt_expiry p origin headers
            auth_query_params cookies local session now).0
  snapshots :
      (p : CapturedPartition) (origin : Text) (cookies : List CookieWithMetadata)
      (local session : Option (Map Text)) (now : ℤ)
      → CapturedStep detect_jwt_expiry p
          (store_captured_browser_state_deferred detect_jwt_expiry p origin cookies local session
            now).0
  flushes :
      (p : CapturedPartition) (outcome : DiskWrite)
      → CapturedStep detect_jwt_expiry p (flush_captured p outcome).0
  marks :
      (value : Bool) (p : CapturedPartition) (lease : CapturedSessionLease) (outcome : DiskWrite)
      → CapturedStep detect_jwt_expiry p (mark_lease value p lease outcome).0
  freshens :
      (p : CapturedPartition) (origin : Text) (generation : ℕ) (outcome : DiskWrite)
      → CapturedStep detect_jwt_expiry p (mark_fresh p origin generation outcome).0
  clears :
      (p : CapturedPartition) (origin : Text) (outcome : DiskWrite)
      → CapturedStep detect_jwt_expiry p (clear_captured p origin outcome).0
  clears_all :
      (p : CapturedPartition) (outcome : DiskWrite)
      → CapturedStep detect_jwt_expiry p (clear_all_captured p outcome).0

persist_captured-IsSaved :
    (p : CapturedPartition) (outcome : DiskWrite)
    → captured_feature p ≡ none
    → IsSaved (persist_captured p outcome).0
unfolding persist_captured
persist_captured-IsSaved p outcome h = ground arith

persist_captured-IsSaved_kept :
    (p : CapturedPartition) (outcome : DiskWrite)
    → IsSaved p
    → IsSaved (persist_captured p outcome).0
unfolding persist_captured
persist_captured-IsSaved_kept p outcome s = ground arith

pub after_persist-state :
    (answer : Bool) (r : CapturedPartition × Option CapturedError)
    → (after_persist answer r).0 ≡ r.0
after_persist-state answer (q, none) = refl
after_persist-state answer (q, some _) = refl

put_captured-IsSaved :
    (d : Text → Option ℤ) (p : CapturedPartition) (origin : Text) (c : Capture) (now : ℤ)
    → IsSaved (put_captured d p origin c now)
unfolding put_captured
put_captured-IsSaved d p origin c now h = cc

store_captured_inner-IsSaved :
    (d : Text → Option ℤ) (p : CapturedPartition) (origin : Text) (c : Capture) (now : ℤ)
    → IsSaved p
    → IsSaved (store_captured_inner d p origin c now).0
unfolding store_captured_inner
store_captured_inner-IsSaved d p origin c now s = elim (Option-cases (captured_feature p)) [
  | inl e ↦
      rw (e, store_captured_inner)
        (put_captured-IsSaved d p origin (merged (existing_capture (lookup origin p.captured)) c)
          now)
  | inr (x, e) ↦ rw (e, store_captured_inner) s
]

mark_targets-unchanged :
    (value : Bool) (ts : List CapturedSessionTarget) (m : Map SecretEntry) (changed : Bool)
    → (mark_targets value ts (m, changed)).1 ≡ false
    → (changed ≡ false) × ((mark_targets value ts (m, changed)).0 ≡ m)
unfolding mark_targets mark_target
mark_targets-unchanged value [] m changed h = (h, refl)
mark_targets-unchanged value (t ∷ ts) m changed h = elim (Option-cases (lookup t.origin m)) [
  | inl e ↦ ground (arith, mark_targets-unchanged value ts m changed, e)
  | inr (x, e) ↦ elim (Option-cases (marked value t.generation x)) [
    | inl n ↦ ground (arith, mark_targets-unchanged value ts m changed, e, n)
    | inr (y, n) ↦ ground (arith, mark_targets-unchanged value ts (insert t.origin y m) true, e, n)
  ]
]

after_persist-IsSaved :
    (answer : Bool) (p : CapturedPartition) (outcome : DiskWrite)
    → captured_feature p ≡ none
    → IsSaved (after_persist answer (persist_captured p outcome)).0
after_persist-IsSaved answer p outcome h =
    rw (after_persist-state answer (persist_captured p outcome))
      (persist_captured-IsSaved p outcome h)

store_captured-IsSaved :
    (d : Text → Option ℤ) (p : CapturedPartition) (origin : Text) (headers : Map Text)
    (cookies : List CookieWithMetadata) (local session : Map Text) (now : ℤ) (outcome : DiskWrite)
    → IsSaved p
    → IsSaved (store_captured d p origin headers cookies local session now outcome).0
unfolding store_captured
store_captured-IsSaved d p origin headers cookies local session now outcome s =
    let incoming : Capture = record {
      headers = headers;
      auth_query_params = [];
      cookies = cookies;
      local_storage = local;
      session_storage = session;
    } in
    let stored = store_captured_inner-IsSaved d p origin incoming now s in
    elim (Option-cases (store_captured_inner d p origin incoming now).1) [
      | inr (x, e) ↦ rw (e, store_captured) stored
      | inl e ↦
          rw (e, store_captured)
            (persist_captured-IsSaved_kept (store_captured_inner d p origin incoming now).0 outcome
              stored)
    ]

mark_lease-IsSaved :
    (value : Bool) (p : CapturedPartition) (lease : CapturedSessionLease) (outcome : DiskWrite)
    → IsSaved p
    → IsSaved (mark_lease value p lease outcome).0
unfolding mark_lease
mark_lease-IsSaved value p lease outcome s =
    let after = mark_targets value lease.stale_mark_targets (p.captured, false) in
    elim (Option-cases (captured_feature p)) [
      | inr (x, e) ↦ rw (e, mark_lease) s
      | inl e ↦ elim (Bool-cases (is_empty lease.stale_mark_targets)) [
        | inl n ↦ rw (e, n, mark_lease) s
        | inr n ↦ elim (Bool-cases (after.1)) [
          | inl c ↦
              rw (e, n, c, mark_lease)
                (after_persist-IsSaved true (record p { captured = after.0 }) outcome e)
          | inr c ↦
              rw (e, n, c, mark_lease)
                (λ h.
                  s h
                  ∙ sym
                      (mark_targets-unchanged value lease.stale_mark_targets p.captured false c).1)
        ]
      ]
    ]

mark_fresh-IsSaved :
    (p : CapturedPartition) (origin : Text) (generation : ℕ) (outcome : DiskWrite)
    → IsSaved p
    → IsSaved (mark_fresh p origin generation outcome).0
unfolding mark_fresh update_captured_state
mark_fresh-IsSaved p origin generation outcome s = elim (Option-cases (captured_feature p)) [
  | inr (x, e) ↦ rw (e, mark_fresh) s
  | inl e ↦ elim (Option-cases (lookup origin p.captured)) [
    | inl n ↦ rw (e, n, mark_fresh, update_captured_state) s
    | inr (x, n) ↦ elim (Option-cases (set_mark false generation x)) [
      | inl k ↦ rw (e, n, k, mark_fresh, update_captured_state) s
      | inr (y, k) ↦
          rw (e, n, k, mark_fresh, update_captured_state)
            (after_persist-IsSaved true (record p { captured = insert origin y p.captured }) outcome
              e)
    ]
  ]
]

flush_captured-IsSaved :
    (p : CapturedPartition) (outcome : DiskWrite) → IsSaved p → IsSaved (flush_captured p outcome).0
unfolding flush_captured persist_captured captured_feature
flush_captured-IsSaved p outcome s = ground arith

clear_captured-IsSaved :
    (p : CapturedPartition) (origin : Text) (outcome : DiskWrite)
    → IsSaved p
    → IsSaved (clear_captured p origin outcome).0
unfolding clear_captured
clear_captured-IsSaved p origin outcome s = elim (Option-cases (captured_feature p)) [
  | inr (x, e) ↦ rw (e, clear_captured) s
  | inl e ↦ elim (Bool-cases (contains_key origin p.captured)) [
    | inl k ↦
        rw (e, k, clear_captured)
          (after_persist-IsSaved true (record p { captured = remove origin p.captured }) outcome e)
    | inr k ↦ rw (e, k, clear_captured) s
  ]
]

clear_all_captured-IsSaved :
    (p : CapturedPartition) (outcome : DiskWrite)
    → IsSaved p
    → IsSaved (clear_all_captured p outcome).0
unfolding clear_all_captured
clear_all_captured-IsSaved p outcome s = elim (Option-cases (captured_feature p)) [
  | inr (x, e) ↦ rw (e, clear_all_captured) s
  | inl e ↦
      rw (e, clear_all_captured) (persist_captured-IsSaved (record p { captured = [] }) outcome e)
]

CapturedStep-IsSaved :
    {d : Text → Option ℤ} {p q : CapturedPartition} → CapturedStep d p q → IsSaved p → IsSaved q
unfolding store_captured_deferred_with_query_params store_captured_browser_state_deferred
CapturedStep-IsSaved {d} (stores p origin headers cookies local session now outcome) s =
    store_captured-IsSaved d p origin headers cookies local session now outcome s
CapturedStep-IsSaved {d} (defers p origin headers params cookies local session now) s =
    store_captured_inner-IsSaved d p origin
      (record {
        headers = headers;
        auth_query_params = params;
        cookies = cookies;
        local_storage = local;
        session_storage = session;
      })
      now s
CapturedStep-IsSaved {d} (snapshots p origin cookies local session now) s =
    elim (Option-cases (captured_feature p)) [
      | inr (x, e) ↦ rw (e, store_captured_browser_state_deferred) s
      | inl e ↦
          rw (e, store_captured_browser_state_deferred)
            (put_captured-IsSaved d p origin
              (browser_state (existing_capture (lookup origin p.captured)) cookies local session)
              now)
    ]
CapturedStep-IsSaved (flushes p outcome) s = flush_captured-IsSaved p outcome s
CapturedStep-IsSaved (marks value p lease outcome) s = mark_lease-IsSaved value p lease outcome s
CapturedStep-IsSaved (freshens p origin generation outcome) s =
    mark_fresh-IsSaved p origin generation outcome s
CapturedStep-IsSaved (clears p origin outcome) s = clear_captured-IsSaved p origin outcome s
CapturedStep-IsSaved (clears_all p outcome) s = clear_all_captured-IsSaved p outcome s

pub data CapturedSteps (detect_jwt_expiry : Text → Option ℤ) (p : CapturedPartition)
    : CapturedPartition → Type 0 where
  idle : CapturedSteps detect_jwt_expiry p p
  then_step :
      {q r : CapturedPartition}
      → CapturedSteps detect_jwt_expiry p q
      → CapturedStep detect_jwt_expiry q r
      → CapturedSteps detect_jwt_expiry p r

CapturedSteps-IsSaved :
    {d : Text → Option ℤ} {p q : CapturedPartition} → IsSaved p → CapturedSteps d p q → IsSaved q
CapturedSteps-IsSaved s idle = s
CapturedSteps-IsSaved s (then_step t u) = CapturedStep-IsSaved u (CapturedSteps-IsSaved s t)

-- From a partition whose file holds its captures or whose dirty flag is set: whatever operations
-- follow, and whichever of their publications fail, a flush that is published, where the partition
-- is enabled and no other flush is under way, leaves in the file the captures that are in memory.
pub CapturedSteps-flush :
    (d : Text → Option ℤ) (p q : CapturedPartition)
    → IsSaved p
    → CapturedSteps d p q
    → captured_feature q ≡ none
    → q.flush_in_flight ≡ false
    → (flush_captured q DiskWrite.replaced).0.captured_file ≡ q.captured
unfolding flush_captured persist_captured captured_feature
CapturedSteps-flush d p q s steps available idle_gate =
    let saved = CapturedSteps-IsSaved s steps in ground arith
