-- ===== src/Tests/Codes.antt =====
-- Runs of the one-time table (magicvault-core/src/one_time.rs) at one login: a code is registered for
-- ten minutes at most, reserved by the login it is bound to, and submitted.
use magic_vault.Base.{
  Text, text_eq, nat_eq, option_text_eq, ◌≢◌, ◌⊎◌, true, none, some, [], ascii, ◌↔◌, ◌≡◌, refl,
  arith, ok, is_ok,
}
use native.Mathlib.Decide.{ℕ_discrete}
use magic_vault.Base.Map.{lookup, insert, remove}
use magic_vault.Base.Time.{pos, leb_ℤ, ltb_ℤ, add_i64, min_ℤ, ◌≤ℤ◌, ◌+ℤ◌, i64_max}
use magic_vault.OneTime.Entry.{
  OneTimeBinding, OneTimeClaim, OneTimeEntry, OneTimeState, OneTimeTransition, OneTimeError, admits,
  receipt, transitioned, terminal_error, state_error, expire_if_due, destination_ok, challenge_ok,
  OneTimeReceipt, OneTimeReservation, one_time_max_retention_ms,
}
use magic_vault.OneTime.Table.{
  next_u64, OneTimeTable, empty_table, key, register, reserve, new_entry, supersede, reserve_entry,
  index_reservation, refused,
}
use magic_vault.OneTime.Settle.{
  consume, consume_entry, release, release_entry, drop_reservation, reserved_entry, cancel,
}
use magic_vault.OneTime.Invariant.{IsValid}
use magic_vault.OneTime.Steps.{
  Reach, registers, reserves, consumes, sweeps, here, next, Reach-IsValid,
}
use magic_vault.OneTime.Once.{consumed-IsRefused, released-IsRefused, IsRefused, Other}
use magic_vault.OneTime.Origins.{Step-Origin, Origin}
use magic_vault.OneTime.Spent.{Reach-terminal}
use magic_vault.OneTime.Attempts.{reserve_iff, IsClaimable}
use magic_vault.OneTime.Late.{calls-IsLate, IsLate}
use magic_vault.OneTime.Registrations.{register_supersedes}
use magic_vault.OneTime.Scope.{sweep, sweep_entries}

abbrev login : OneTimeBinding
login = record { challenge_id = some (ascii "c1"); destination = some (ascii "bank.example") }

abbrev pub submit : OneTimeClaim
submit = record {
  operation = ascii "http:post";
  destination = some (ascii "bank.example");
  challenge_id = none;
}

abbrev pub scope : Text
scope = ascii "run"

abbrev pub code : Text
code = ascii "code"

abbrev pub first : Text
first = ascii "r1"

abbrev pub registered : OneTimeTable
registered = (register empty_table scope code (ascii "123456") (pos 5000) login (pos 1000)).0

abbrev pub reserved : OneTimeTable
reserved = (reserve registered scope code submit first (pos 2000)).0

abbrev consumed : OneTimeTable
consumed = (consume reserved first (pos 3000)).0

abbrev released : OneTimeTable
released = (release reserved first (pos 3000)).0

abbrev Fresh : Text → Type 0
Fresh _ = Unit

empty_table-IsValid : IsValid empty_table
unfolding lookup
empty_table-IsValid = record {
  nodup = tt;
  nodup_index = tt;
  stored = λ k e h. cc;
  bounded = λ id k g h. cc;
}

to_registered : Reach Fresh empty_table registered
to_registered =
    next here
      (registers empty_table scope code (ascii "123456") (pos 5000) login (pos 1000) (omega arith))

to_reserved : Reach Fresh empty_table reserved
unfolding register lookup leb_ℤ
to_reserved = next to_registered (reserves registered scope code submit first (pos 2000) tt refl)

to_consumed : Reach Fresh reserved consumed
to_consumed = next here (consumes reserved first (pos 3000))

pub registered-IsValid : IsValid registered
registered-IsValid = Reach-IsValid empty_table-IsValid to_registered

pub reserved-IsValid : IsValid reserved
reserved-IsValid = Reach-IsValid empty_table-IsValid to_reserved

Reach-IsValid_example : IsValid consumed
Reach-IsValid_example = Reach-IsValid reserved-IsValid to_consumed

abbrev the_entry : OneTimeEntry
the_entry = new_entry scope code (ascii "123456") (pos 5000) login (pos 1000) 1

test_found : lookup (key scope code) registered.entries ≡ some the_entry
unfolding register lookup insert remove supersede key text_eq ℕ_discrete leb_ℤ new_entry
test_found = refl

test_consumed : is_ok (consume reserved first (pos 3000)).1.outcome ≡ true
unfolding next_u64 register reserve lookup insert remove supersede key text_eq ℕ_discrete leb_ℤ
    new_entry reserve_entry index_reservation ltb_ℤ admits destination_ok challenge_ok expire_if_due
    terminal_error state_error nat_eq option_text_eq consume consume_entry reserved_entry
    transitioned receipt min_ℤ add_i64 release release_entry drop_reservation
test_consumed = refl

test_released : is_ok (release reserved first (pos 3000)).1.outcome ≡ true
unfolding next_u64 register reserve lookup insert remove supersede key text_eq ℕ_discrete leb_ℤ
    new_entry reserve_entry index_reservation ltb_ℤ admits destination_ok challenge_ok expire_if_due
    terminal_error state_error nat_eq option_text_eq consume consume_entry reserved_entry
    transitioned receipt min_ℤ add_i64 release release_entry drop_reservation
test_released = refl

abbrev pub reserved_code : OneTimeEntry
reserved_code = record the_entry {
  state = OneTimeState.reserved;
  last = OneTimeTransition.reserved;
  reservation_id = some first;
  claim = some submit;
}

abbrev spent_code : OneTimeEntry
spent_code = record the_entry {
  state = OneTimeState.consumed;
  last = OneTimeTransition.consumed;
  value = none;
}

test_reserved : lookup (key scope code) reserved.entries ≡ some reserved_code
unfolding next_u64 register reserve lookup insert remove supersede key text_eq ℕ_discrete leb_ℤ
    new_entry reserve_entry index_reservation ltb_ℤ admits destination_ok challenge_ok expire_if_due
    terminal_error state_error nat_eq option_text_eq consume consume_entry reserved_entry
    transitioned receipt min_ℤ add_i64 release release_entry drop_reservation
test_reserved = refl

test_spent : lookup (key scope code) consumed.entries ≡ some spent_code
unfolding next_u64 register reserve lookup insert remove supersede key text_eq ℕ_discrete leb_ℤ
    new_entry reserve_entry index_reservation ltb_ℤ admits destination_ok challenge_ok expire_if_due
    terminal_error state_error nat_eq option_text_eq consume consume_entry reserved_entry
    transitioned receipt min_ℤ add_i64 release release_entry drop_reservation
test_spent = refl

test_held : reserved_entry reserved first ≡ ok (key scope code, reserved_code)
unfolding next_u64 register reserve lookup insert remove supersede key text_eq ℕ_discrete leb_ℤ
    new_entry reserve_entry index_reservation ltb_ℤ admits destination_ok challenge_ok expire_if_due
    terminal_error state_error nat_eq option_text_eq consume consume_entry reserved_entry
    transitioned receipt min_ℤ add_i64 release release_entry drop_reservation
test_held = refl

abbrev refilled : OneTimeTable
refilled = (register consumed scope code (ascii "654321") (pos 6000) login (pos 4000)).0

test_counter : consumed.next_generation ≡ 1
unfolding next_u64 register reserve lookup insert remove supersede key text_eq ℕ_discrete leb_ℤ
    new_entry reserve_entry index_reservation ltb_ℤ admits destination_ok challenge_ok expire_if_due
    terminal_error state_error nat_eq option_text_eq consume consume_entry reserved_entry
    transitioned receipt min_ℤ add_i64 release release_entry drop_reservation
test_counter = refl

test_reserved_counter : reserved.next_generation ≡ 1
unfolding next_u64 register reserve lookup insert remove supersede key text_eq ℕ_discrete leb_ℤ
    new_entry reserve_entry index_reservation ltb_ℤ admits destination_ok challenge_ok expire_if_due
    terminal_error state_error nat_eq option_text_eq consume consume_entry reserved_entry
    transitioned receipt min_ℤ add_i64 release release_entry drop_reservation
test_reserved_counter = refl

to_refilled : Reach (Other first) consumed refilled
to_refilled = next here (
    registers consumed scope code (ascii "654321") (pos 6000) login (pos 4000)
      (omega (arith, test_counter)))

consumed-IsRefused_example : IsRefused first refilled
consumed-IsRefused_example =
    consumed-IsRefused reserved first (pos 3000) {u = refilled} reserved-IsValid test_consumed
      to_refilled

abbrev held_again : OneTimeTable
held_again = (reserve released scope code submit (ascii "r2") (pos 4000)).0

another : Other first (ascii "r2")
another = λ h. ground arith

test_unused : lookup (ascii "r2") released.reservations ≡ none
unfolding next_u64 register reserve lookup insert remove supersede key text_eq ℕ_discrete leb_ℤ
    new_entry reserve_entry index_reservation ltb_ℤ admits destination_ok challenge_ok expire_if_due
    terminal_error state_error nat_eq option_text_eq consume consume_entry reserved_entry
    transitioned receipt min_ℤ add_i64 release release_entry drop_reservation
test_unused = refl

to_held_again : Reach (Other first) released held_again
to_held_again =
    next here (reserves released scope code submit (ascii "r2") (pos 4000) another test_unused)

released-IsRefused_example : IsRefused first held_again
released-IsRefused_example =
    released-IsRefused reserved first (pos 3000) {u = held_again} reserved-IsValid test_released
      to_held_again

abbrev swept_later : OneTimeTable
swept_later = (sweep consumed (pos 9000)).0

test_stays : lookup (key scope code) swept_later.entries ≡ some spent_code
unfolding next_u64 register reserve lookup insert remove supersede key text_eq ℕ_discrete leb_ℤ
    new_entry reserve_entry index_reservation ltb_ℤ admits destination_ok challenge_ok expire_if_due
    terminal_error state_error nat_eq option_text_eq consume consume_entry reserved_entry
    transitioned receipt min_ℤ add_i64 release release_entry drop_reservation sweep sweep_entries
test_stays = refl

consumed-IsValid : IsValid consumed
consumed-IsValid = Reach-IsValid reserved-IsValid to_consumed

to_swept : Reach Fresh consumed swept_later
to_swept = next here (sweeps consumed (pos 9000))

Reach-terminal_example : (spent_code.state ≡ spent_code.state) × (spent_code.value ≡ none)
Reach-terminal_example =
    Reach-terminal (key scope code) spent_code spent_code consumed-IsValid to_swept test_spent refl
      test_stays refl

Step-Origin_example : Origin reserved (key scope code) spent_code
Step-Origin_example =
    Step-Origin {P = Fresh} reserved-IsValid (consumes reserved first (pos 3000)) (key scope code)
      spent_code test_spent

reserve_iff_example :
    (is_ok (reserve registered scope code submit first (pos 2000)).1.outcome ≡ true) ↔ (
      (e : OneTimeEntry) × (lookup (key scope code) registered.entries ≡ some e)
      × IsClaimable e submit (pos 2000))
reserve_iff_example = reserve_iff registered scope code submit first (pos 2000) registered-IsValid

abbrev handed_out : OneTimeReservation
handed_out = record {
  receipt = receipt reserved_code OneTimeTransition.reserved (pos 2000);
  value = ascii "123456";
}

test_handed_out : (reserve registered scope code submit first (pos 2000)).1.outcome ≡ ok handed_out
unfolding next_u64 register reserve lookup insert remove supersede key text_eq ℕ_discrete leb_ℤ
    new_entry reserve_entry index_reservation ltb_ℤ admits destination_ok challenge_ok expire_if_due
    terminal_error state_error nat_eq option_text_eq consume consume_entry reserved_entry
    transitioned receipt min_ℤ add_i64 release release_entry drop_reservation
test_handed_out = refl

calls-IsLate_example :
    IsLate (key scope code) (reserve reserved scope code submit (ascii "r2") (pos 5000))
    × (IsLate (key scope code) (cancel reserved scope code (pos 5000))
        × ((lookup first reserved.reservations ≢ some (key scope code, reserved_code.generation))
            ⊎ (IsLate (key scope code) (consume reserved first (pos 5000))
                × IsLate (key scope code) (release reserved first (pos 5000)))))
unfolding new_entry min_ℤ leb_ℤ add_i64
calls-IsLate_example =
    calls-IsLate reserved scope code submit (ascii "r2") first (pos 5000) reserved_code
      test_reserved refl (omega arith)

test_indexed : lookup first reserved.reservations ≡ some (key scope code, 1)
unfolding next_u64 register reserve lookup insert remove supersede key text_eq ℕ_discrete leb_ℤ
    new_entry reserve_entry index_reservation ltb_ℤ admits destination_ok challenge_ok expire_if_due
    terminal_error state_error nat_eq option_text_eq consume consume_entry reserved_entry
    transitioned receipt min_ℤ add_i64 release release_entry drop_reservation
test_indexed = refl

abbrev again : OneTimeTable
again = (register reserved scope code (ascii "654321") (pos 6000) login (pos 2500)).0

register_supersedes_example :
    (consume again first (pos 3000) ≡ (again, refused OneTimeError.superseded []))
    × (release again first (pos 3000) ≡ (again, refused OneTimeError.superseded []))
register_supersedes_example =
    register_supersedes reserved scope code (ascii "654321") (pos 6000) login (pos 2500) (pos 3000)
      first 1 reserved-IsValid test_indexed (omega arith) (omega (arith, test_reserved_counter))

abbrev the_receipt : OneTimeReceipt
the_receipt = receipt the_entry OneTimeTransition.registered (pos 1000)

test_receipt :
    (register empty_table scope code (ascii "123456") (pos 5000) login (pos 1000)).1.outcome
    ≡ ok the_receipt
unfolding next_u64 register reserve lookup insert remove supersede key text_eq ℕ_discrete leb_ℤ
    new_entry reserve_entry index_reservation ltb_ℤ admits destination_ok challenge_ok expire_if_due
    terminal_error state_error nat_eq option_text_eq consume consume_entry reserved_entry
    transitioned receipt min_ℤ add_i64 release release_entry drop_reservation
test_receipt = refl

in_range : pos 1000 +ℤ pos one_time_max_retention_ms ≤ℤ pos i64_max
unfolding ◌+ℤ◌
in_range = omega arith
