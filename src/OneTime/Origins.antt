-- ===== src/OneTime/Origins.antt =====
-- magicvault-core/src/one_time.rs: where an entry of the table comes from.
use mathlib.Core.Path.{subst}
use magic_vault.Base.{
  Result-cases, if◌then◌else◌, ap, ◌∙◌, ℕ, ◌<◌, Text, text_eq, ◌==◌, Option, none, some, ◌≡◌, refl,
  sym, ◌⊎◌, inl, inr, arith, Option-cases,
}
use magic_vault.Base.Map.{lookup, insert, remove, lookup-insert, lookup-remove, lookup-retain}
use magic_vault.Base.Time.{ℤ, leb_ℤ}
use magic_vault.OneTime.Entry.{OneTimeBinding, OneTimeClaim, OneTimeEntry, expire_if_due}
use magic_vault.OneTime.Registering.{next_u64-below}
use magic_vault.OneTime.Table.{
  u64_max, next_u64, OneTimeTable, key, register, reserve, reserve_entry, new_entry,
}
use magic_vault.OneTime.Settle.{
  consume_entry, release_entry, cancel_entry, consume, release, cancel, reserved_entry,
}
use magic_vault.OneTime.Scope.{state, sweep, retire_scope, outside}
use magic_vault.OneTime.Invariant.{IsValid}
use magic_vault.OneTime.Preserve.{reserved_entry-ok}
use magic_vault.OneTime.Sweeping.{swept, lookup-sweep_entries}
use magic_vault.OneTime.Lifecycle.{
  stay, Follows, expire-Follows, reserve_entry-Follows, consume_entry-Follows,
  release_entry-Follows, cancel_entry-Follows,
}
use magic_vault.OneTime.Steps.{
  Step, registers, reserves, consumes, releases, cancels, reads, sweeps, retires,
}

-- Where the entry `e'` under `k` comes from: it is a new registration, or a stage of an old one.
abbrev pub Origin : OneTimeTable → Text → OneTimeEntry → Type 0
Origin t k e' =
    (t.next_generation < e'.generation)
    ⊎ ((e : OneTimeEntry) × (lookup k t.entries ≡ some e) × Follows e e')

same-Follows : (e : OneTimeEntry) → Follows e e
same-Follows e = grind (arith, stay)

unchanged-Origin :
    (t : OneTimeTable) (k : Text) (e : OneTimeEntry) → lookup k t.entries ≡ some e → Origin t k e
unchanged-Origin t k e h = inr (e, h, same-Follows e)

-- An entry was written back over `e`.
written-Origin :
    (t : OneTimeTable) (k : Text) (e e₁ : OneTimeEntry)
    → lookup k t.entries ≡ some e
    → Follows e e₁
    → (j : Text) (e' : OneTimeEntry) → lookup j (insert k e₁ t.entries) ≡ some e'
    → Origin t j e'
written-Origin t k e e₁ found f j e' h = elim (text_eq.dec j k) [
  | yes p ↦
      let same : e₁ ≡ e' = ground (arith, lookup-insert j k e₁ t.entries) in
      inr (e, subst (λ i. lookup i t.entries ≡ some e) (sym p) found, subst (Follows e) same f)
  | no q ↦ unchanged-Origin t j e' (ground (arith, lookup-insert j k e₁ t.entries))
]

-- What a registration leaves under each key.
pub lookup-register :
    (t : OneTimeTable) (scope_id input_id x : Text) (d : ℤ) (b : OneTimeBinding) (now : ℤ)
    (k : Text)
    → lookup k (register t scope_id input_id x d b now).0.entries ≡ (
        if k == key scope_id input_id
        then (if leb_ℤ d now
            then none
            else some (new_entry scope_id input_id x d b now (next_u64 t.next_generation)))
        else lookup k t.entries)
unfolding register
lookup-register t scope_id input_id x d b now k =
    let j = key scope_id input_id in
    let e = new_entry scope_id input_id x d b now (next_u64 t.next_generation) in
    ground (arith, lookup-insert k j e (remove j t.entries), lookup-remove k j t.entries)

pub new_entry-generation :
    (s i x : Text) (d : ℤ) (b : OneTimeBinding) (now : ℤ) (g : ℕ)
    → (new_entry s i x d b now g).generation ≡ g
unfolding new_entry
new_entry-generation s i x d b now g = refl

register-Origin :
    (t : OneTimeTable) (s i x : Text) (d : ℤ) (b : OneTimeBinding) (now : ℤ) (k : Text)
    (e' : OneTimeEntry)
    → t.next_generation < u64_max
    → lookup k (register t s i x d b now).0.entries ≡ some e'
    → Origin t k e'
register-Origin t s i x d b now k e' more h =
    let stays : (lookup k t.entries ≡ some e') → Origin t k e' = unchanged-Origin t k e' in
    let at = lookup-register t s i x d b now k in
    elim (text_eq.dec k (key s i)) [
      | yes p ↦ inl (
          ground (
            arith,
            at,
            new_entry-generation s i x d b now (next_u64 t.next_generation),
            next_u64-below t.next_generation more,
          ))
      | no q ↦ stays (ground (arith, at))
    ]

retire_scope-Origin :
    (t : OneTimeTable) (s k : Text) (e' : OneTimeEntry)
    → IsValid t
    → lookup k (retire_scope t s).0.entries ≡ some e'
    → Origin t k e'
unfolding retire_scope
retire_scope-Origin t s k e' v h =
    unchanged-Origin t k e' (ground (arith, lookup-retain (outside s) k t.entries v.nodup))

swept-Follows :
    (now : ℤ) (o : Option OneTimeEntry) (e' : OneTimeEntry)
    → swept now o ≡ some e'
    → (e : OneTimeEntry) × (o ≡ some e) × Follows e e'
swept-Follows now none e' h = cc
swept-Follows now (some e) e' h = (e, refl, subst (Follows e) (ground arith) (expire-Follows e now))

sweep-Origin :
    (t : OneTimeTable) (now : ℤ) (k : Text) (e' : OneTimeEntry)
    → lookup k (sweep t now).0.entries ≡ some e'
    → Origin t k e'
unfolding sweep
sweep-Origin t now k e' h =
    inr (swept-Follows now (lookup k t.entries) e' (rw (← lookup-sweep_entries) h))

-- An entry that a call wrote back over the one that it found.
found-Origin :
    (t : OneTimeTable) (s i : Text) (step : OneTimeEntry → OneTimeEntry)
    → ((e : OneTimeEntry) → lookup (key s i) t.entries ≡ some e → Follows e (step e))
    → (u : OneTimeTable) → (lookup (key s i) t.entries ≡ none → u.entries ≡ t.entries)
    → ((e : OneTimeEntry)
        → lookup (key s i) t.entries ≡ some e
        → u.entries ≡ insert (key s i) (step e) t.entries)
    → (k : Text) (e' : OneTimeEntry) → lookup k u.entries ≡ some e'
    → Origin t k e'
found-Origin t s i step f u absent present k e' h =
    elim (Option-cases (lookup (key s i) t.entries)) [
      | inl q ↦ unchanged-Origin t k e' (ap (lookup k) (sym (absent q)) ∙ h)
      | inr (e, q) ↦
          written-Origin t (key s i) e (step e) q (f e q) k e'
            (ap (lookup k) (sym (present e q)) ∙ h)
    ]

reserve-Origin :
    (t : OneTimeTable) (s i : Text) (c : OneTimeClaim) (fresh : Text) (now : ℤ) (k : Text)
    (e' : OneTimeEntry)
    → lookup k (reserve t s i c fresh now).0.entries ≡ some e'
    → Origin t k e'
unfolding reserve
reserve-Origin t s i c fresh now =
    found-Origin t s i (λ e. (reserve_entry e c fresh now).0)
      (λ e _. reserve_entry-Follows e now c fresh) (reserve t s i c fresh now).0
      (λ q. rw (q, reserve)) (λ e q. rw (q, reserve))

cancel-Origin :
    (t : OneTimeTable) (s i : Text) (now : ℤ) (k : Text) (e' : OneTimeEntry)
    → lookup k (cancel t s i now).0.entries ≡ some e'
    → Origin t k e'
unfolding cancel
cancel-Origin t s i now =
    found-Origin t s i (λ e. (cancel_entry e now).0) (λ e _. cancel_entry-Follows e now)
      (cancel t s i now).0 (λ q. rw (q, cancel)) (λ e q. rw (q, cancel))

state-Origin :
    (t : OneTimeTable) (s i : Text) (now : ℤ) (k : Text) (e' : OneTimeEntry)
    → lookup k (state t s i now).0.entries ≡ some e'
    → Origin t k e'
unfolding state
state-Origin t s i now =
    found-Origin t s i (λ e. (expire_if_due e now).0) (λ e _. expire-Follows e now)
      (state t s i now).0 (λ q. rw (q, state)) (λ e q. rw (q, state))

consume-Origin :
    (t : OneTimeTable) (id : Text) (now : ℤ) (k : Text) (e' : OneTimeEntry)
    → IsValid t
    → lookup k (consume t id now).0.entries ≡ some e'
    → Origin t k e'
unfolding consume
consume-Origin t id now k e' v h = elim (Result-cases (reserved_entry t id)) [
  | inl ((j, e), q) ↦
      let found = (reserved_entry-ok t id q).1 in
      written-Origin t j e (consume_entry e id now).0 found
        (consume_entry-Follows e now id (v.stored j e found).held_reserved) k e'
        (rw (q, consume) at h)
  | inr (x, q) ↦ unchanged-Origin t k e' (rw (q, consume) at h)
]

release-Origin :
    (t : OneTimeTable) (id : Text) (now : ℤ) (k : Text) (e' : OneTimeEntry)
    → IsValid t
    → lookup k (release t id now).0.entries ≡ some e'
    → Origin t k e'
unfolding release
release-Origin t id now k e' v h = elim (Result-cases (reserved_entry t id)) [
  | inl ((j, e), q) ↦
      let found = (reserved_entry-ok t id q).1 in
      written-Origin t j e (release_entry e id now).0 found
        (release_entry-Follows e now id (v.stored j e found).held_reserved) k e'
        (rw (q, release) at h)
  | inr (x, q) ↦ unchanged-Origin t k e' (rw (q, release) at h)
]

-- One operation on a valid table, with the count of registrations below the largest `u64` where
-- it registers, leaves under each key a new registration, of a higher generation than any before,
-- or a later stage of the entry that was there: with the same scope, input, binding, deadline and
-- generation, its code the same or gone, and its state the same or one edge of the lifecycle
-- diagram further.
pub Step-Origin :
    {P : Text → Type 0} {t u : OneTimeTable}
    → IsValid t
    → Step P t u
    → (k : Text) (e' : OneTimeEntry) → lookup k u.entries ≡ some e'
    → Origin t k e'
Step-Origin v (registers t s i x d b now more) k e' h = register-Origin t s i x d b now k e' more h
Step-Origin v (reserves t s i c fresh now _ _) k e' h = reserve-Origin t s i c fresh now k e' h
Step-Origin v (consumes t id now) k e' h = consume-Origin t id now k e' v h
Step-Origin v (releases t id now) k e' h = release-Origin t id now k e' v h
Step-Origin v (cancels t s i now) k e' h = cancel-Origin t s i now k e' h
Step-Origin v (reads t s i now) k e' h = state-Origin t s i now k e' h
Step-Origin v (sweeps t now) k e' h = sweep-Origin t now k e' h
Step-Origin v (retires t s) k e' h = retire_scope-Origin t s k e' v h
