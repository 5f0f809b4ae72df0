-- ===== src/OneTime/Settle.antt =====
-- magicvault-core/src/one_time.rs: the operations of `OneTimeTable` that end a reservation or an
-- entry: `reserved_entry`, `consume`, `release` and `cancel`.
use magic_vault.Base.{
  ℕ, Text, text_eq, ◌==◌, none, some, [], ◌∷◌, ◌++◌, if◌then◌else◌, Result, ok, err, option_text_eq,
  nat_eq,
}
use magic_vault.Base.Map.{Map, lookup, insert, remove}
use magic_vault.Base.Time.{ℤ}
use magic_vault.OneTime.Entry.{
  OneTimeState, OneTimeTransition, OneTimeError, OneTimeReceipt, OneTimeEntry, line, transitioned,
  terminal_error, closed_as, expire_if_due,
}
use magic_vault.OneTime.Table.{OneTimeTable, Transitioned, key, journal_of, refused}

-- The key and the entry that a reservation id stands for.
unfoldable pub reserved_entry : OneTimeTable → Text → Result (Text × OneTimeEntry) OneTimeError
reserved_entry t id = elim (lookup id t.reservations) [
  | none ↦ err OneTimeError.not_reserved
  | some (k, generation) ↦ elim (lookup k t.entries) [
    | none ↦ err OneTimeError.not_found
    | some e ↦ if e.generation == generation then ok (k, e) else err OneTimeError.superseded
  ]
]

-- `consume`, `release` and `cancel` on the entry that they found.
unfoldable pub consume_entry : OneTimeEntry → Text → ℤ → OneTimeEntry × Transitioned OneTimeReceipt
unfolding transitioned terminal_error expire_if_due
consume_entry entry id now =
    let (e, due) = expire_if_due entry now in
    let journal = journal_of due in
    let (e', r) = transitioned (closed_as OneTimeState.consumed e) OneTimeTransition.consumed now in
    elim (terminal_error e) [
      | some error ↦ (e, refused error journal)
      | none ↦
          if e.reservation_id == some id
          then (e', record { outcome = ok r; journal = journal ++ (line r e.claim ∷ []) })
          else (e, refused OneTimeError.not_reserved journal)
    ]

unfoldable pub release_entry : OneTimeEntry → Text → ℤ → OneTimeEntry × Transitioned OneTimeReceipt
unfolding transitioned terminal_error expire_if_due
release_entry entry id now =
    let (e, due) = expire_if_due entry now in
    let journal = journal_of due in
    let (e', r) =
      transitioned
        (record e { state = OneTimeState.available; reservation_id = none; claim = none })
        OneTimeTransition.released now in
    elim (terminal_error e) [
      | some error ↦ (e, refused error journal)
      | none ↦
          if e.reservation_id == some id
          then (e', record { outcome = ok r; journal = journal ++ (line r e.claim ∷ []) })
          else (e, refused OneTimeError.not_reserved journal)
    ]

unfoldable pub cancel_entry : OneTimeEntry → ℤ → OneTimeEntry × Transitioned OneTimeReceipt
unfolding transitioned terminal_error expire_if_due
cancel_entry entry now =
    let (e, due) = expire_if_due entry now in
    let journal = journal_of due in
    let (e', r) =
      transitioned (closed_as OneTimeState.cancelled e) OneTimeTransition.cancelled now in
    elim (terminal_error e) [
      | some error ↦ (e, refused error journal)
      | none ↦ (e', record { outcome = ok r; journal = journal ++ (line r e.claim ∷ []) })
    ]

unfoldable pub consume : OneTimeTable → Text → ℤ → OneTimeTable × Transitioned OneTimeReceipt
consume t id now = elim (reserved_entry t id) [
  | err error ↦ (t, refused error [])
  | ok (k, entry) ↦
      let (e, result) = consume_entry entry id now in
      (record t { entries = insert k e t.entries }, result)
]

-- A released reservation leaves the index.
unfoldable pub drop_reservation :
    Result OneTimeReceipt OneTimeError → Text → Map (Text × ℕ) → Map (Text × ℕ)
drop_reservation (ok _) id m = remove id m
drop_reservation (err _) id m = m

unfoldable pub release : OneTimeTable → Text → ℤ → OneTimeTable × Transitioned OneTimeReceipt
unfolding drop_reservation
release t id now = elim (reserved_entry t id) [
  | err error ↦ (t, refused error [])
  | ok (k, entry) ↦
      let (e, result) = release_entry entry id now in
      (
        record t {
          entries = insert k e t.entries;
          reservations = drop_reservation result.outcome id t.reservations;
        },
        result,
      )
]

unfoldable pub cancel : OneTimeTable → Text → Text → ℤ → OneTimeTable × Transitioned OneTimeReceipt
cancel t scope_id input_id now =
    let k = key scope_id input_id in
    elim (lookup k t.entries) [
      | none ↦ (t, refused OneTimeError.not_found [])
      | some entry ↦
          let (e, result) = cancel_entry entry now in
          (record t { entries = insert k e t.entries }, result)
    ]
