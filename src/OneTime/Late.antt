-- ===== src/OneTime/Late.antt =====
-- magicvault-core/src/one_time.rs: the calls on an entry at or after its deadline.
use magic_vault.Base.{
  ap, refl, ◌∙◌, ◌≢◌, ◌⊎◌, inl, inr, ℕ, Option, Text, text_eq, true, none, some, ok, err, ◌≡◌,
  arith, nat_eq, option_text_eq,
}
use magic_vault.Base.Map.{lookup, insert, lookup-insert_self}
use magic_vault.Base.Time.{ℤ, ltb_ℤ, ◌≤ℤ◌}
use magic_vault.OneTime.Entry.{OneTimeClaim, OneTimeError, OneTimeEntry, OneTimeState, is_live}
use magic_vault.OneTime.Table.{Transitioned, OneTimeTable, key, reserve, reserve_entry}
use magic_vault.OneTime.Settle.{
  consume, release, cancel, reserved_entry, consume_entry, release_entry, cancel_entry,
}

-- The states that an entry goes through at a call at or after its deadline.
abbrev IsDue : OneTimeEntry → ℤ → Type 0
IsDue e now = (is_live e.state ≡ true) × (e.deadline_ms ≤ℤ now)

module _ (e : OneTimeEntry) (now : ℤ) where
  -- A late call expires the entry, and drops the value, whatever it wanted.
  reserve_entry_late :
      (claim : OneTimeClaim) (fresh : Text)
      → IsDue e now
      → let (e', result) = reserve_entry e claim fresh now in
        (result.outcome ≡ err OneTimeError.expired)
        × (e'.state ≡ OneTimeState.expired)
        × (e'.value ≡ none)
  unfolding reserve_entry ltb_ℤ
  reserve_entry_late claim fresh due = ground arith

  consume_entry_late :
      (id : Text)
      → IsDue e now
      → let (e', result) = consume_entry e id now in
        (result.outcome ≡ err OneTimeError.expired)
        × (e'.state ≡ OneTimeState.expired)
        × (e'.value ≡ none)
  unfolding consume_entry ltb_ℤ
  consume_entry_late id due = ground arith

  release_entry_late :
      (id : Text)
      → IsDue e now
      → let (e', result) = release_entry e id now in
        (result.outcome ≡ err OneTimeError.expired)
        × (e'.state ≡ OneTimeState.expired)
        × (e'.value ≡ none)
  unfolding release_entry ltb_ℤ
  release_entry_late id due = ground arith

  cancel_entry_late :
      IsDue e now
      → let (e', result) = cancel_entry e now in
        (result.outcome ≡ err OneTimeError.expired)
        × (e'.state ≡ OneTimeState.expired)
        × (e'.value ≡ none)
  unfolding cancel_entry ltb_ℤ
  cancel_entry_late due = ground arith

-- The call was refused as expired, and the entry under `k` is left expired and without its value.
abbrev pub IsLate : {A : Type 0} → Text → OneTimeTable × Transitioned A → Type 0
IsLate k (u, result) =
    (result.outcome ≡ err OneTimeError.expired)
    × ((e' : OneTimeEntry) × (lookup k u.entries ≡ some e')
        × (e'.state ≡ OneTimeState.expired)
        × (e'.value ≡ none))

written-IsLate :
    {A : Type 0} (t : OneTimeTable) (k : Text) (call : OneTimeTable × Transitioned A)
    (step : OneTimeEntry × Transitioned A)
    → call.0.entries ≡ insert k step.0 t.entries
    → call.1 ≡ step.1
    → (step.1.outcome ≡ err OneTimeError.expired)
      × (step.0.state ≡ OneTimeState.expired)
      × (step.0.value ≡ none)
    → IsLate k call
written-IsLate t k call step w r (o, s, x) = (
  ap (λ y. y.outcome) r ∙ o,
  (step.0, ap (lookup k) w ∙ lookup-insert_self k step.0 t.entries, s, x),
)

-- The index resolves the reservation to the generation that the entry has.
resolved :
    (t : OneTimeTable) (id k : Text) (e : OneTimeEntry)
    → lookup k t.entries ≡ some e
    → lookup id t.reservations ≡ some (k, e.generation)
    → reserved_entry t id ≡ ok (k, e)
unfolding reserved_entry
resolved t id k e found index = rw (index, found, reserved_entry) (ground arith)

-- Whether an id has an index entry for `k` and a generation.
indexed :
    (o : Option (Text × ℕ)) (k : Text) (generation : ℕ)
    → (o ≢ some (k, generation)) ⊎ (o ≡ some (k, generation))
indexed none k generation = inl (λ h. cc)
indexed (some (j, g)) k generation = elim (text_eq.dec j k) [
  | no d ↦ inl (λ h. d (ground arith))
  | yes p ↦ elim (nat_eq.dec g generation) [
    | no d ↦ inl (λ h. d (ground arith))
    | yes q ↦ inr (rw (p, q) refl)
  ]
]

-- At or after the deadline of a live entry, available or reserved, a call that reserves or cancels
-- it is refused as expired and its code is gone. So is a call that consumes or releases it, by any
-- id, unless the index does not resolve the id to the entry.
pub calls-IsLate :
    (t : OneTimeTable) (scope_id input_id : Text) (claim : OneTimeClaim) (fresh id : Text) (now : ℤ)
    (e : OneTimeEntry)
    → lookup (key scope_id input_id) t.entries ≡ some e
    → is_live e.state ≡ true
    → e.deadline_ms ≤ℤ now
    → IsLate (key scope_id input_id) (reserve t scope_id input_id claim fresh now)
      × (IsLate (key scope_id input_id) (cancel t scope_id input_id now)
          × ((lookup id t.reservations ≢ some (key scope_id input_id, e.generation))
              ⊎ (IsLate (key scope_id input_id) (consume t id now)
                  × IsLate (key scope_id input_id) (release t id now))))
unfolding reserve cancel consume release
calls-IsLate t s i claim fresh id now e found live due =
    let k = key s i in
    (
      written-IsLate t k (reserve t s i claim fresh now) (reserve_entry e claim fresh now)
          (rw (found, reserve)) (rw (found, reserve))
          (reserve_entry_late e now claim fresh (live, due)),
      (
        written-IsLate t k (cancel t s i now) (cancel_entry e now) (rw (found, cancel))
            (rw (found, cancel)) (cancel_entry_late e now (live, due)),
        elim (indexed (lookup id t.reservations) k e.generation) [
          | inl n ↦ inl n
          | inr index ↦
              let held = resolved t id k e found index in
              inr (
                written-IsLate t k (consume t id now) (consume_entry e id now) (rw (held, consume))
                    (rw (held, consume)) (consume_entry_late e now id (live, due)),
                written-IsLate t k (release t id now) (release_entry e id now) (rw (held, release))
                    (rw (held, release)) (release_entry_late e now id (live, due)),
              )
        ],
      ),
    )
