-- ===== src/OneTime/Once.antt =====
-- magicvault-core/src/one_time.rs: reservation ids after `consume` and `release`.
use magic_vault.Base.{
  Result-cases, Result, is_ok, ap, ◌∙◌, ℕ, Text, text_eq, true, false, none, some, ok, err, ◌≡◌,
  refl, sym, inl, inr, arith, nat_eq, option_text_eq,
}
use magic_vault.Base.Map.{
  Map, contains_key, retain, lookup, lookup-insert, lookup-remove, lookup-retain,
}
use magic_vault.Base.Time.{ℤ}
use magic_vault.OneTime.Entry.{
  OneTimeClaim, OneTimeReceipt, OneTimeError, OneTimeEntry, OneTimeState, is_live,
}
use magic_vault.OneTime.Table.{OneTimeTable, register, reserve, index_reservation}
use magic_vault.OneTime.Settle.{
  consume, release, cancel, reserved_entry, consume_entry, release_entry, drop_reservation,
}
use magic_vault.OneTime.Scope.{outside, state, sweep, retire_scope}
use magic_vault.OneTime.Invariant.{IsValid}
use magic_vault.OneTime.Preserve.{
  reserved_entry-ok, lookup-drop_reservation, consume-IsValid, release-IsValid,
}
use magic_vault.OneTime.Steps.{
  Step, registers, reserves, consumes, releases, cancels, reads, sweeps, retires, Reach, here, next,
  Reach-IsValid,
}
use magic_vault.OneTime.Origins.{Step-Origin}
use magic_vault.OneTime.Spent.{Edge-terminal}

-- The reservation `id` no longer stands for an entry that holds a value.
abbrev IsSpent : Text → OneTimeTable → Type 0
IsSpent id u =
    (k : Text) (g : ℕ)
    → lookup id u.reservations ≡ some (k, g)
    → (e : OneTimeEntry) → lookup k u.entries ≡ some e
    → e.generation ≡ g
    → is_live e.state ≡ false

-- The ids that are drawn from here on differ from `id`.
abbrev pub Other : Text → Text → Type 0
Other id fresh = ¬ (fresh ≡ id)

index_reservation-other :
    (t : OneTimeTable) (s i id : Text) (c : OneTimeClaim) (fresh : Text) (now : ℤ)
    {target : Text × ℕ}
    → ¬ (fresh ≡ id)
    → lookup id (reserve t s i c fresh now).0.reservations ≡ some target
    → lookup id t.reservations ≡ some target
unfolding reserve index_reservation
index_reservation-other t s i id c fresh now d h = grind (arith, lookup-insert)

release-other :
    (t : OneTimeTable) (j id : Text) (now : ℤ) {target : Text × ℕ}
    → lookup id (release t j now).0.reservations ≡ some target
    → lookup id t.reservations ≡ some target
unfolding release
release-other t j id now h = elim (Result-cases (reserved_entry t j)) [
  | inl ((k, e), q) ↦
      lookup-drop_reservation 0 t.reservations j (release_entry e j now).1.outcome id
        (rw (q, release) at h)
  | inr (x, q) ↦ rw (q, release) at h
]

retire_scope-other :
    (t : OneTimeTable) (s id : Text) {target : Text × ℕ}
    → IsValid t
    → lookup id (retire_scope t s).0.reservations ≡ some target
    → lookup id t.reservations ≡ some target
unfolding retire_scope
retire_scope-other t s id v h = ground (
  arith,
  lookup-retain (λ _ x. contains_key x.0 (retain (outside s) t.entries)) id t.reservations
      v.nodup_index,
)

-- No step but a draw of `id` itself gives `id` a meaning.
Step-index :
    {t u : OneTimeTable} (id : Text) {target : Text × ℕ}
    → IsValid t
    → Step (Other id) t u
    → lookup id u.reservations ≡ some target
    → lookup id t.reservations ≡ some target
unfolding register consume cancel state sweep
Step-index id v (registers t s i x d b now _) h = ground arith
Step-index id v (reserves t s i c fresh now d _) h =
    index_reservation-other t s i id c fresh now d h
Step-index id v (consumes t j now) h = ground arith
Step-index id v (releases t j now) h = release-other t j id now h
Step-index id v (cancels t s i now) h = ground arith
Step-index id v (reads t s i now) h = ground arith
Step-index id v (sweeps t now) h = ground arith
Step-index id v (retires t s) h = retire_scope-other t s id v h

Step-IsSpent :
    {t u : OneTimeTable} (id : Text) → IsValid t → Step (Other id) t u → IsSpent id t → IsSpent id u
Step-IsSpent id v st h k g index e' found same =
    let before = Step-index id v st index in
    elim (Step-Origin v st k e' found) [
      | inl new ↦ absurd (omega (arith, v.bounded id k g before))
      | inr (e, was, f) ↦
          let ended = h k g before e was (sym f.same_generation ∙ same) in
          ap is_live (Edge-terminal f.edge ended) ∙ ended
    ]

Reach-IsSpent :
    (id : Text) {t u : OneTimeTable}
    → IsValid t
    → Reach (Other id) t u
    → IsSpent id t
    → IsSpent id u
Reach-IsSpent id v here h = h
Reach-IsSpent id v (next r st) h = Step-IsSpent id (Reach-IsValid v r) st (Reach-IsSpent id v r h)

-- Neither call accepts the id.
abbrev pub IsRefused : Text → OneTimeTable → Type 0
IsRefused id u =
    (now : ℤ)
    → (is_ok (consume u id now).1.outcome ≡ false) × (is_ok (release u id now).1.outcome ≡ false)

ended_consume :
    (e : OneTimeEntry) (id : Text) (now : ℤ)
    → is_live e.state ≡ false
    → is_ok (consume_entry e id now).1.outcome ≡ false
unfolding consume_entry
ended_consume e id now h = ground arith

ended_release :
    (e : OneTimeEntry) (id : Text) (now : ℤ)
    → is_live e.state ≡ false
    → is_ok (release_entry e id now).1.outcome ≡ false
unfolding release_entry
ended_release e id now h = ground arith

IsSpent-IsRefused : (u : OneTimeTable) (id : Text) → IsSpent id u → IsRefused id u
unfolding consume release
IsSpent-IsRefused u id h now = elim (Result-cases (reserved_entry u id)) [
  | inl ((k, e), q) ↦
      let (index, found) = reserved_entry-ok u id q in
      let ended = h k e.generation index e found refl in
      (
        rw (q, consume) (ended_consume e id now ended),
        rw (q, release) (ended_release e id now ended),
      )
  | inr (x, q) ↦ (rw (q, consume), rw (q, release))
]

-- The entry that a successful `consume` leaves.
consume_entry-ok :
    (e : OneTimeEntry) (id : Text) (now : ℤ)
    → is_ok (consume_entry e id now).1.outcome ≡ true
    → (consume_entry e id now).0.state ≡ OneTimeState.consumed
unfolding consume_entry
consume_entry-ok e id now h = ground arith

consume-IsSpent :
    (t : OneTimeTable) (id : Text) (now : ℤ)
    → is_ok (consume t id now).1.outcome ≡ true
    → IsSpent id (consume t id now).0
unfolding consume
consume-IsSpent t id now h k g index e' found same = elim (Result-cases (reserved_entry t id)) [
  | inl ((j, e), q) ↦ ground (
    arith,
    reserved_entry-ok t id q,
    consume_entry-ok e id now,
    lookup-insert k j (consume_entry e id now).0 t.entries,
  )
  | inr (x, q) ↦ ground arith
]

release_index :
    (m : Map (Text × ℕ)) (id : Text) (r : Result OneTimeReceipt OneTimeError)
    → is_ok r ≡ true
    → lookup id (drop_reservation r id m) ≡ none
unfolding drop_reservation
release_index m id (ok _) h = ground (arith, lookup-remove id id m)
release_index m id (err _) h = cc

release-IsSpent :
    (t : OneTimeTable) (id : Text) (now : ℤ)
    → is_ok (release t id now).1.outcome ≡ true
    → IsSpent id (release t id now).0
unfolding release
release-IsSpent t id now h k g index e' found same = elim (Result-cases (reserved_entry t id)) [
  | inl ((j, e), q) ↦ ground (
    arith,
    reserved_entry-ok t id q,
    release_index t.reservations id (release_entry e id now).1.outcome,
  )
  | inr (x, q) ↦ ground arith
]

-- A reservation that `consume` accepted in a valid table is spent for good: whatever is called
-- afterwards, with reservation ids drawn other than its own and the count of registrations below
-- the largest `u64`, neither `consume` nor `release` accepts it.
pub consumed-IsRefused :
    (t : OneTimeTable) (id : Text) (now : ℤ) {u : OneTimeTable}
    → IsValid t
    → is_ok (consume t id now).1.outcome ≡ true
    → Reach (Other id) (consume t id now).0 u
    → IsRefused id u
consumed-IsRefused t id now {u} v h r =
    IsSpent-IsRefused u id
      (Reach-IsSpent id (consume-IsValid t id now v) r (consume-IsSpent t id now h))

-- A reservation that `release` accepted in a valid table is given back for good: whatever is
-- called afterwards, with reservation ids drawn other than its own and the count of registrations
-- below the largest `u64`, neither `consume` nor `release` accepts it.
pub released-IsRefused :
    (t : OneTimeTable) (id : Text) (now : ℤ) {u : OneTimeTable}
    → IsValid t
    → is_ok (release t id now).1.outcome ≡ true
    → Reach (Other id) (release t id now).0 u
    → IsRefused id u
released-IsRefused t id now {u} v h r =
    IsSpent-IsRefused u id
      (Reach-IsSpent id (release-IsValid t id now v) r (release-IsSpent t id now h))
