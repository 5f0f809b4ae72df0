-- ===== src/OneTime/Scope.antt =====
-- magicvault-core/src/one_time.rs: the operations of `OneTimeTable` that read a state, sweep the
-- deadlines, retire a scope or look through all entries.
use magic_vault.Base.{
  ℕ, suc, Text, text_eq, ◌==◌, Bool, true, false, ◌&&◌, not, Option, none, some, List, [], ◌∷◌,
  ◌++◌, if◌then◌else◌, option_text_eq, nat_eq,
}
use magic_vault.Base.Map.{Map, lookup, insert, retain, contains_key}
use magic_vault.Base.Time.{ℤ, ltb_ℤ}
use magic_vault.OneTime.Entry.{
  OneTimeReceipt, OneTimeEntry, JournalLine, receipt, expire_if_due, is_live,
}
use magic_vault.OneTime.Table.{OneTimeTable, key, journal_of}

-- `state`: the receipt of the last transition, without the reservation id.
unfoldable pub state :
    OneTimeTable → Text → Text → ℤ → OneTimeTable × Option OneTimeReceipt × List JournalLine
unfolding receipt expire_if_due
state t scope_id input_id now =
    let k = key scope_id input_id in
    elim (lookup k t.entries) [
      | none ↦ (t, none, [])
      | some entry ↦
          let (e, due) = expire_if_due entry now in
          (
            record t { entries = insert k e t.entries },
            some (record (receipt e e.last now) { reservation_id = none }),
            journal_of due,
          )
    ]

unfoldable pub sweep_entries : Map OneTimeEntry → ℤ → Map OneTimeEntry × List JournalLine
unfolding expire_if_due
sweep_entries [] now = ([], [])
sweep_entries ((k, entry) ∷ m) now =
    let (rest, lines) = sweep_entries m now in
    let (e, due) = expire_if_due entry now in ((k, e) ∷ rest, journal_of due ++ lines)

unfoldable pub sweep : OneTimeTable → ℤ → OneTimeTable × List JournalLine
unfolding sweep_entries
sweep t now =
    let (entries, lines) = sweep_entries t.entries now in (record t { entries = entries }, lines)

abbrev pub outside : Text → Text → OneTimeEntry → Bool
outside scope_id _ e = not (e.scope_id == scope_id)

-- The live entries of a scope.
unfoldable pub count_live : Text → Map OneTimeEntry → ℕ
count_live scope_id [] = 0
count_live scope_id ((_, e) ∷ m) =
    let rest = count_live scope_id m in
    if e.scope_id == scope_id && is_live e.state then suc rest else rest

unfoldable pub retire_scope : OneTimeTable → Text → OneTimeTable × ℕ
unfolding count_live
retire_scope t scope_id =
    let entries = retain (outside scope_id) t.entries in
    (
      record t {
        entries = entries;
        reservations = retain (λ _ target. contains_key target.0 entries) t.reservations;
      },
      count_live scope_id t.entries,
    )

unfoldable pub any_live : Text → ℤ → Map OneTimeEntry → Bool
any_live scope_id now [] = false
any_live scope_id now ((_, e) ∷ m) =
    let rest = any_live scope_id now m in
    if e.scope_id == scope_id && is_live e.state && ltb_ℤ now e.deadline_ms then true else rest

unfoldable pub scope_holds_live : OneTimeTable → Text → ℤ → Bool
unfolding any_live
scope_holds_live t scope_id now = any_live scope_id now t.entries

abbrev pub cons_value : Option Text → List Text → List Text
cons_value none rest = rest
cons_value (some v) rest = v ∷ rest

abbrev pub held_values : Map OneTimeEntry → List Text
held_values [] = []
held_values ((_, e) ∷ m) = cons_value e.value (held_values m)

unfoldable pub live_values : OneTimeTable → List Text
live_values t = held_values t.entries
