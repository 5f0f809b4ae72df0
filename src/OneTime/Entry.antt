-- ===== src/OneTime/Entry.antt =====
-- magicvault-core/src/one_time.rs: the types of the lifecycle and the operations on one entry.
-- A value in `Zeroizing` is its text; wiping memory has no counterpart here.
use magic_vault.Base.{
  ℕ, Text, text_eq, ◌==◌, Bool, true, false, ◌&&◌, not, ◌||◌, Option, none, some, if◌then◌else◌,
  ascii,
}
use magic_vault.Base.Time.{ℤ, ltb_ℤ}

abbrev pub one_time_max_retention_ms : ℕ
one_time_max_retention_ms = 600000

pub record OneTimeBinding : Type 0 where
  pub challenge_id : Option Text
  pub destination : Option Text

pub record OneTimeClaim : Type 0 where
  pub operation : Text
  pub destination : Option Text
  pub challenge_id : Option Text

unfoldable pub destination_ok : Option Text → Option Text → Bool
destination_ok none _ = true
destination_ok (some bound) (some claimed) = bound == claimed
destination_ok (some _) none = false

unfoldable pub challenge_ok : Option Text → Option Text → Bool
challenge_ok (some bound) (some claimed) = bound == claimed
challenge_ok (some _) none = true
challenge_ok none _ = true

unfoldable pub admits : OneTimeBinding → OneTimeClaim → Bool
unfolding destination_ok challenge_ok
admits b c =
    destination_ok b.destination c.destination && challenge_ok b.challenge_id c.challenge_id

pub data OneTimeState : Type 0 where
  available reserved consumed expired cancelled : OneTimeState

abbrev pub is_live : OneTimeState → Bool
is_live OneTimeState.available = true
is_live OneTimeState.reserved = true
is_live _ = false

abbrev pub is_reserved : OneTimeState → Bool
is_reserved OneTimeState.reserved = true
is_reserved _ = false

pub data OneTimeTransition : Type 0 where
  registered reserved consumed released expired cancelled superseded : OneTimeTransition

unfoldable pub audit_event : OneTimeTransition → Text
audit_event OneTimeTransition.registered = ascii "one_time_registered"
audit_event OneTimeTransition.reserved = ascii "one_time_reserved"
audit_event OneTimeTransition.consumed = ascii "one_time_consumed"
audit_event OneTimeTransition.released = ascii "one_time_released"
audit_event OneTimeTransition.expired = ascii "one_time_expired"
audit_event OneTimeTransition.cancelled = ascii "one_time_cancelled"
audit_event OneTimeTransition.superseded = ascii "one_time_superseded"

pub record OneTimeReceipt : Type 0 where
  pub scope_id : Text
  pub input_id : Text
  pub challenge_id : Option Text
  pub destination : Option Text
  pub transition : OneTimeTransition
  pub state : OneTimeState
  pub reservation_id : Option Text
  pub deadline_ms : ℤ
  pub at_ms : ℤ

pub record OneTimeReservation : Type 0 where
  pub receipt : OneTimeReceipt
  pub value : Text

pub data OneTimeError : Type 0 where
  not_found expired already_reserved consumed cancelled superseded : OneTimeError
  binding_mismatch not_reserved : OneTimeError
  feature_unavailable : Text → OneTimeError

pub record OneTimeEntry : Type 0 where
  pub scope_id : Text
  pub input_id : Text
  pub binding : OneTimeBinding
  pub deadline_ms : ℤ
  pub generation : ℕ
  pub state : OneTimeState
  pub last : OneTimeTransition
  pub value : Option Text
  pub reservation_id : Option Text
  pub claim : Option OneTimeClaim

pub record JournalLine : Type 0 where
  pub receipt : OneTimeReceipt
  pub claim : Option OneTimeClaim

abbrev pub line : OneTimeReceipt → Option OneTimeClaim → JournalLine
line r c = record { receipt = r; claim = c }

unfoldable pub receipt : OneTimeEntry → OneTimeTransition → ℤ → OneTimeReceipt
receipt e t at = record {
  scope_id = e.scope_id;
  input_id = e.input_id;
  challenge_id = e.binding.challenge_id;
  destination = e.binding.destination;
  transition = t;
  state = e.state;
  reservation_id = e.reservation_id;
  deadline_ms = e.deadline_ms;
  at_ms = at;
}

-- `transitioned` sets `last` and returns the receipt: the new entry and the receipt.
unfoldable pub transitioned : OneTimeEntry → OneTimeTransition → ℤ → OneTimeEntry × OneTimeReceipt
unfolding receipt
transitioned e t at = (record e { last = t }, receipt (record e { last = t }) t at)

unfoldable pub state_error : OneTimeState → Option OneTimeError
state_error OneTimeState.available = none
state_error OneTimeState.reserved = none
state_error OneTimeState.consumed = some OneTimeError.consumed
state_error OneTimeState.expired = some OneTimeError.expired
state_error OneTimeState.cancelled = some OneTimeError.cancelled

unfoldable pub terminal_error : OneTimeEntry → Option OneTimeError
unfolding state_error
terminal_error e = state_error e.state

-- The entry in the state `s`, with its value, its reservation and its claim gone.
abbrev pub closed_as : OneTimeState → OneTimeEntry → OneTimeEntry
closed_as s e = record e { state = s; value = none; reservation_id = none; claim = none }

unfoldable pub expire_if_due : OneTimeEntry → ℤ → OneTimeEntry × Option JournalLine
unfolding transitioned
expire_if_due e now =
    if not (is_live e.state) || ltb_ℤ now e.deadline_ms
    then (e, none)
    else let (e', r) =
        transitioned (closed_as OneTimeState.expired e) OneTimeTransition.expired now in
      (e', some (line r e.claim))
