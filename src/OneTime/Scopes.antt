-- ===== src/OneTime/Scopes.antt =====
-- magicvault-core/src/one_time.rs: `sweep`, `retire_scope`, `scope_holds_live` and
-- `live_values`.
use mathlib.Core.List.{Memᴰ}
use mathlib.Core.List.Memᴰ
use magic_vault.Base.{
  ap, ℕ, Text, text_eq, ◌==◌, Bool, true, Option, ltb, ◌&&◌, none, some, List, [], ◌∷◌, ◌≡◌, ◌≢◌,
  refl, sym, ◌⊎◌, ◌↔◌, inl, inr, arith,
}
use magic_vault.Base.Map.{Map, lookup, retain, NodupKeys, lookup-retain, contains_key}
use magic_vault.Base.Time.{ℤ, ltb_ℤ}
use magic_vault.OneTime.Entry.{OneTimeEntry, is_live, expire_if_due}
use magic_vault.OneTime.Table.{OneTimeTable}
use magic_vault.OneTime.Scope.{
  cons_value, sweep, sweep_entries, retire_scope, outside, count_live, any_live, scope_holds_live,
  live_values, held_values,
}
use magic_vault.OneTime.Invariant.{IsValid}

expire_if_due_idem :
    (e : OneTimeEntry) (now : ℤ)
    → expire_if_due (expire_if_due e now).0 now ≡ ((expire_if_due e now).0, none)
unfolding expire_if_due
expire_if_due_idem e now = ground arith

sweep_entries_idem :
    (m : Map OneTimeEntry) (now : ℤ)
    → sweep_entries (sweep_entries m now).0 now ≡ ((sweep_entries m now).0, [])
unfolding sweep_entries
sweep_entries_idem [] now = refl
sweep_entries_idem ((k, e) ∷ m) now =
    ground (arith, expire_if_due_idem e now, sweep_entries_idem m now)

-- A second sweep at the same time changes nothing and journals nothing.
pub sweep_idem : (t : OneTimeTable) (now : ℤ) → sweep (sweep t now).0 now ≡ ((sweep t now).0, [])
unfolding sweep
sweep_idem t now = ground (arith, sweep_entries_idem t.entries now)

-- The entry holds a code of the scope that is live now.
abbrev pub is_held : Text → ℤ → OneTimeEntry → Bool
is_held scope_id now e = e.scope_id == scope_id && is_live e.state && ltb_ℤ now e.deadline_ms

expire_if_due-live :
    (e : OneTimeEntry) (s : Text) (now : ℤ)
    → ((expire_if_due e now).0.scope_id == s && is_live (expire_if_due e now).0.state)
      ≡ is_held s now e
unfolding expire_if_due
expire_if_due-live e s now = ground arith

any_live-count_live :
    (s : Text) (now : ℤ) (m : Map OneTimeEntry)
    → any_live s now m ≡ ltb 0 (count_live s (sweep_entries m now).0)
unfolding any_live count_live sweep_entries
any_live-count_live s now [] = refl
any_live-count_live s now ((k, e) ∷ m) =
    ground (arith, expire_if_due-live e s now, any_live-count_live s now m)

-- The read without a write agrees with the sweep: a scope holds a live code exactly when some live
-- entry of it is left after the deadlines are applied.
pub scope_holds_live-sweep :
    (t : OneTimeTable) (scope_id : Text) (now : ℤ)
    → scope_holds_live t scope_id now ≡ ltb 0 (count_live scope_id (sweep t now).0.entries)
unfolding scope_holds_live sweep
scope_holds_live-sweep t s now = any_live-count_live s now t.entries

retained_iff :
    (s k : Text) (e : OneTimeEntry) (m : Map OneTimeEntry)
    → NodupKeys m
    → (lookup k (retain (outside s) m) ≡ some e) ↔ ((lookup k m ≡ some e) × (e.scope_id ≢ s))
retained_iff s k e m u = (
  λ h. ground (arith, lookup-retain (outside s) k m u),
  λ (h, d). ground (arith, lookup-retain (outside s) k m u),
)

indexed_iff :
    (id k : Text) (g : ℕ) (entries : Map OneTimeEntry) (index : Map (Text × ℕ))
    → NodupKeys index
    → (lookup id (retain (λ _ target. contains_key target.0 entries) index) ≡ some (k, g))
      ↔ ((lookup id index ≡ some (k, g)) × (contains_key k entries ≡ true))
indexed_iff id k g entries index u =
    let at = lookup-retain (λ _ target. contains_key target.0 entries) id index u in
    (λ h. ground (arith, at), λ (h, c). ground (arith, at))

count_live-retain : (s : Text) (m : Map OneTimeEntry) → count_live s (retain (outside s) m) ≡ 0
unfolding count_live retain
count_live-retain s [] = refl
count_live-retain s ((k, e) ∷ m) = ground (arith, count_live-retain s m)

-- Retiring a scope of a valid table drops exactly its entries, whatever their state, and exactly
-- the reservations whose entry is gone; no live entry of the scope is left to count.
pub retire_scope_iff :
    (t : OneTimeTable) (scope_id k id : Text) (e : OneTimeEntry) (g : ℕ)
    → IsValid t
    → let u = (retire_scope t scope_id).0 in
      ((lookup k u.entries ≡ some e) ↔ ((lookup k t.entries ≡ some e) × (e.scope_id ≢ scope_id)))
      × ((lookup id u.reservations ≡ some (k, g))
          ↔ ((lookup id t.reservations ≡ some (k, g)) × (contains_key k u.entries ≡ true)))
      × ((retire_scope u scope_id).1 ≡ 0)
unfolding retire_scope
retire_scope_iff t s k id e g v = (
  retained_iff s k e t.entries v.nodup,
  indexed_iff id k g (retain (outside s) t.entries) t.reservations v.nodup_index,
  count_live-retain s t.entries,
)

cons_value-mem :
    (x : Text) (o : Option Text) (rest : List Text)
    → Memᴰ x (cons_value o rest) ↔ (o ≡ some x ⊎ Memᴰ x rest)
cons_value-mem x none rest = (λ h. inr h, λ h. elim h [ inl q ↦ cc | inr q ↦ q ])
cons_value-mem x (some v) rest = (
  λ h. elim (Memᴰ.cases_cons h) [ inl q ↦ inl (ap some (sym q)) | inr q ↦ inr q ],
  λ h. elim h [ inl q ↦ Memᴰ.head (ground arith) | inr q ↦ Memᴰ.tail q ],
)

held_values-mem :
    (k : Text) (e : OneTimeEntry) (x : Text) (m : Map OneTimeEntry)
    → lookup k m ≡ some e
    → e.value ≡ some x
    → Memᴰ x (held_values m)
unfolding lookup
held_values-mem k e x [] h q = cc
held_values-mem k e x ((j, o) ∷ m) h q =
    (cons_value-mem x o.value (held_values m)).1 (elim (text_eq.dec k j) [
      | yes p ↦ inl (ground arith)
      | no p ↦ inr (held_values-mem k e x m (ground arith) q)
    ])

held_values-of_mem :
    (x : Text) (m : Map OneTimeEntry)
    → NodupKeys m
    → Memᴰ x (held_values m)
    → (k : Text) × (e : OneTimeEntry) × (lookup k m ≡ some e) × (e.value ≡ some x)
unfolding lookup
held_values-of_mem x [] u h = absurd (Memᴰ.not-nil h)
held_values-of_mem x ((j, o) ∷ m) (fresh, u) h =
    let later = held_values-of_mem x m u in
    elim ((cons_value-mem x o.value (held_values m)).0 h) [
      | inl q ↦ (j, o, ground arith, q)
      | inr r ↦ let (k, e, found, q) = later r in (k, e, ground arith, q)
    ]

-- The values to redact of a valid table are exactly the codes that the live entries hold: an
-- available or reserved entry has its code listed, and every listed code belongs to such an
-- entry.
pub live_values_iff :
    (t : OneTimeTable) (x : Text)
    → IsValid t
    → Memᴰ x (live_values t) ↔ (
        (k : Text) × (e : OneTimeEntry) × (lookup k t.entries ≡ some e)
        × (is_live e.state ≡ true)
        × (e.value ≡ some x))
unfolding live_values
live_values_iff t x v = (
  λ h.
      let (k, e, found, q) = held_values-of_mem x t.entries v.nodup h in
      (k, e, found, ground (arith, (v.stored k e found).value_live), q),
  λ (k, e, found, _, q). held_values-mem k e x t.entries found q,
)
