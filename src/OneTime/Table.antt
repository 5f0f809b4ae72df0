-- ===== src/OneTime/Table.antt =====
-- magicvault-core/src/one_time.rs: `OneTimeTable`. An operation takes the table and returns the new
-- one. The `get_mut` of the source is a lookup and an insertion of the changed entry under its key;
-- the id that `Uuid::new_v4` draws is the argument `fresh` of `reserve`.
use magic_vault.Base.{
  ltb, ℕ, suc, Text, text_eq, not, Option, none, some, List, [], ◌∷◌, ◌++◌, if◌then◌else◌, ascii,
  Result, ok, err, option_text_eq, nat_eq,
}
use magic_vault.Base.Map.{Map, lookup, insert, remove}
use magic_vault.Base.Time.{ℤ, pos, leb_ℤ, add_i64, min_ℤ}
use magic_vault.OneTime.Entry.{
  OneTimeBinding, OneTimeClaim, OneTimeState, OneTimeTransition, OneTimeError, OneTimeReceipt,
  OneTimeReservation, OneTimeEntry, JournalLine, line, receipt, transitioned, terminal_error,
  closed_as, expire_if_due, is_live, is_reserved, admits, one_time_max_retention_ms,
}

pub record OneTimeTable : Type 0 where
  pub entries : Map OneTimeEntry
  pub reservations : Map (Text × ℕ)
  pub next_generation : ℕ

pub record Transitioned (A : Type 0) : Type 0 where
  pub outcome : Result A OneTimeError
  pub journal : List JournalLine

abbrev pub u64_max : ℕ
u64_max = 18446744073709551615

-- `+= 1` on a `u64`, with the wrap-around of a release build.
unfoldable pub next_u64 : ℕ → ℕ
next_u64 n = if ltb n u64_max then suc n else 0

abbrev pub empty_table : OneTimeTable
empty_table = record { entries = []; reservations = []; next_generation = 0 }

unfoldable pub key : Text → Text → Text
key scope_id input_id = scope_id ++ (ascii "::" ++ input_id)

abbrev pub journal_of : Option JournalLine → List JournalLine
journal_of none = []
journal_of (some l) = l ∷ []

abbrev pub refused : {A : Type 0} → OneTimeError → List JournalLine → Transitioned A
refused e journal = record { outcome = err e; journal = journal }

-- What `register` does with the entry that it removed: the line of a live one.
unfoldable pub supersede : Option OneTimeEntry → ℤ → List JournalLine
unfolding transitioned
supersede none now = []
supersede (some previous) now =
    if is_live previous.state
    then line
        (transitioned (closed_as OneTimeState.cancelled previous) OneTimeTransition.superseded
          now).1
        previous.claim
      ∷ []
    else []

-- The entry that `register` inserts.
unfoldable pub new_entry : Text → Text → Text → ℤ → OneTimeBinding → ℤ → ℕ → OneTimeEntry
new_entry scope_id input_id value deadline_ms binding now generation = record {
  scope_id = scope_id;
  input_id = input_id;
  binding = binding;
  deadline_ms = min_ℤ deadline_ms (add_i64 now (pos one_time_max_retention_ms));
  generation = generation;
  state = OneTimeState.available;
  last = OneTimeTransition.registered;
  value = some value;
  reservation_id = none;
  claim = none;
}

unfoldable pub register :
    OneTimeTable
    → Text
    → Text
    → Text
    → ℤ
    → OneTimeBinding
    → ℤ
    → OneTimeTable × Transitioned OneTimeReceipt
unfolding supersede new_entry receipt next_u64
register t scope_id input_id value deadline_ms binding now =
    let k = key scope_id input_id in
    let journal = supersede (lookup k t.entries) now in
    let without = record t { entries = remove k t.entries } in
    let generation = next_u64 t.next_generation in
    let e = new_entry scope_id input_id value deadline_ms binding now generation in
    let r = receipt e OneTimeTransition.registered now in
    if leb_ℤ deadline_ms now then (without, refused OneTimeError.expired journal) else (
      record t { entries = insert k e (remove k t.entries); next_generation = generation },
      record { outcome = ok r; journal = journal ++ (line r none ∷ []) },
    )

-- `reserve` on the entry that it found.
unfoldable pub reserve_entry :
    OneTimeEntry → OneTimeClaim → Text → ℤ → OneTimeEntry × Transitioned OneTimeReservation
unfolding transitioned terminal_error expire_if_due
reserve_entry entry claim fresh now =
    let (e, due) = expire_if_due entry now in
    let journal = journal_of due in
    let (e', r) =
      transitioned
        (record e {
          state = OneTimeState.reserved;
          reservation_id = some fresh;
          claim = some claim;
        })
        OneTimeTransition.reserved now in
    elim (terminal_error e) [
      | some error ↦ (e, refused error journal)
      | none ↦
          if is_reserved e.state
          then (e, refused OneTimeError.already_reserved journal)
          else if not (admits e.binding claim)
          then (e, refused OneTimeError.binding_mismatch journal)
          else elim e.value [
            | none ↦ (e, refused OneTimeError.not_found journal)
            | some v ↦ (
              e',
              record {
                outcome = ok (record { receipt = r; value = v });
                journal = journal ++ (line r (some claim) ∷ []);
              },
            )
          ]
    ]

-- The index entry of a reservation that was made.
unfoldable pub index_reservation :
    Result OneTimeReservation OneTimeError → Text → Text × ℕ → Map (Text × ℕ) → Map (Text × ℕ)
index_reservation (ok _) id target m = insert id target m
index_reservation (err _) id target m = m

unfoldable pub reserve :
    OneTimeTable
    → Text
    → Text
    → OneTimeClaim
    → Text
    → ℤ
    → OneTimeTable × Transitioned OneTimeReservation
unfolding index_reservation
reserve t scope_id input_id claim fresh now =
    let k = key scope_id input_id in
    elim (lookup k t.entries) [
      | none ↦ (t, refused OneTimeError.not_found [])
      | some entry ↦
          let (e, result) = reserve_entry entry claim fresh now in
          (
            record t {
              entries = insert k e t.entries;
              reservations =
                  index_reservation result.outcome fresh (k, e.generation) t.reservations;
            },
            result,
          )
    ]
