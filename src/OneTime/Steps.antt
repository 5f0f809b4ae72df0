-- ===== src/OneTime/Steps.antt =====
-- The table of magicvault-core/src/one_time.rs under any calls in any order: a step is one operation
-- with the arguments and the clock reading that its caller chose.
use magic_vault.Base.{◌<◌, Text, none, ◌≡◌}
use magic_vault.Base.Map.{lookup}
use magic_vault.Base.Time.{ℤ}
use magic_vault.OneTime.Entry.{OneTimeBinding, OneTimeClaim}
use magic_vault.OneTime.Table.{u64_max, OneTimeTable, register, reserve}
use magic_vault.OneTime.Settle.{consume, release, cancel}
use magic_vault.OneTime.Scope.{state, sweep, retire_scope}
use magic_vault.OneTime.Invariant.{IsValid}
use magic_vault.OneTime.Preserve.{
  reserve-IsValid, consume-IsValid, release-IsValid, cancel-IsValid, state-IsValid,
}
use magic_vault.OneTime.Sweeping.{sweep-IsValid, retire_scope-IsValid}
use magic_vault.OneTime.Registering.{register-IsValid}

-- An operation on the table. `P` says which ids `Uuid::new_v4` may draw; no id is drawn that the
-- index still knows, and the count of registrations has not reached the largest `u64`.
pub data Step (P : Text → Type 0) : OneTimeTable → OneTimeTable → Type 0 where
  registers :
      (t : OneTimeTable) (scope_id input_id value : Text) (deadline_ms : ℤ) (b : OneTimeBinding)
      (now : ℤ)
      → t.next_generation < u64_max
      → Step P t (register t scope_id input_id value deadline_ms b now).0
  reserves :
      (t : OneTimeTable) (scope_id input_id : Text) (claim : OneTimeClaim) (fresh : Text) (now : ℤ)
      → P fresh
      → lookup fresh t.reservations ≡ none
      → Step P t (reserve t scope_id input_id claim fresh now).0
  consumes : (t : OneTimeTable) (id : Text) (now : ℤ) → Step P t (consume t id now).0
  releases : (t : OneTimeTable) (id : Text) (now : ℤ) → Step P t (release t id now).0
  cancels :
      (t : OneTimeTable) (scope_id input_id : Text) (now : ℤ)
      → Step P t (cancel t scope_id input_id now).0
  reads :
      (t : OneTimeTable) (scope_id input_id : Text) (now : ℤ)
      → Step P t (state t scope_id input_id now).0
  sweeps : (t : OneTimeTable) (now : ℤ) → Step P t (sweep t now).0
  retires : (t : OneTimeTable) (scope_id : Text) → Step P t (retire_scope t scope_id).0

pub data Reach (P : Text → Type 0) (t : OneTimeTable) : OneTimeTable → Type 0 where
  here : Reach P t t
  next : {u w : OneTimeTable} → Reach P t u → Step P u w → Reach P t w

pub Step-IsValid : {P : Text → Type 0} {t u : OneTimeTable} → Step P t u → IsValid t → IsValid u
Step-IsValid (registers t s i x d b now more) v = register-IsValid t s i x d b now v more
Step-IsValid (reserves t s i c fresh now _ h) v = reserve-IsValid t s i c fresh now v h
Step-IsValid (consumes t id now) v = consume-IsValid t id now v
Step-IsValid (releases t id now) v = release-IsValid t id now v
Step-IsValid (cancels t s i now) v = cancel-IsValid t s i now v
Step-IsValid (reads t s i now) v = state-IsValid t s i now v
Step-IsValid (sweeps t now) v = sweep-IsValid t now v
Step-IsValid (retires t s) v = retire_scope-IsValid t s v

-- From a valid table, any sequence of the eight operations, with any arguments and clock
-- readings, with reservation ids drawn that the index does not know and with the count of
-- registrations below the largest `u64` at each registration, leads to a valid table: each entry
-- has its code exactly while it is available or reserved, its reservation and claim exactly while
-- it is reserved, and an index entry for that reservation.
pub Reach-IsValid : {P : Text → Type 0} {t u : OneTimeTable} → IsValid t → Reach P t u → IsValid u
Reach-IsValid v here = v
Reach-IsValid v (next r s) = Step-IsValid s (Reach-IsValid v r)
