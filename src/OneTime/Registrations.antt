-- ===== src/OneTime/Registrations.antt =====
-- magicvault-core/src/one_time.rs: what a registration keeps, and what it does to an older one.
use magic_vault.Base.{
  ◌<◌, ℕ, Text, text_eq, false, some, [], ok, err, ◌≡◌, ◌≢◌, arith, nat_eq, option_text_eq,
}
use magic_vault.Base.Map.{lookup}
use magic_vault.Base.Time.{
  ℤ, pos, leb_ℤ, ◌≤ℤ◌, ◌<ℤ◌, ◌+ℤ◌, IsI64, i64_max, add_i64, add_i64_exact, min_ℤ_le_left,
  min_ℤ_le_right,
}
use magic_vault.OneTime.Entry.{
  OneTimeBinding, OneTimeReceipt, OneTimeError, OneTimeEntry, one_time_max_retention_ms,
}
use magic_vault.OneTime.Registering.{next_u64-below}
use magic_vault.OneTime.Table.{u64_max, next_u64, refused, OneTimeTable, key, register, new_entry}
use magic_vault.OneTime.Settle.{consume, release, reserved_entry}
use magic_vault.OneTime.Invariant.{IsValid}
use magic_vault.OneTime.Origins.{lookup-register, new_entry-generation}

register-reservations :
    (t : OneTimeTable) (s i x : Text) (d : ℤ) (b : OneTimeBinding) (now : ℤ)
    → (register t s i x d b now).0.reservations ≡ t.reservations
unfolding register
register-reservations t s i x d b now = ground arith

superseded_entry :
    (u : OneTimeTable) (id k : Text) (e : OneTimeEntry) (g : ℕ)
    → lookup id u.reservations ≡ some (k, g)
    → lookup k u.entries ≡ some e
    → e.generation ≢ g
    → reserved_entry u id ≡ err OneTimeError.superseded
unfolding reserved_entry
superseded_entry u id k e g index found newer = ground arith

-- After a newer registration of the input in a valid table, before its deadline and with the
-- count of registrations below the largest `u64`, an older reservation of it is superseded:
-- neither call accepts it, and neither changes the table.
pub register_supersedes :
    (t : OneTimeTable) (scope_id input_id value : Text) (deadline_ms : ℤ) (b : OneTimeBinding)
    (at now : ℤ) (id : Text) (g : ℕ)
    → IsValid t
    → lookup id t.reservations ≡ some (key scope_id input_id, g)
    → at <ℤ deadline_ms
    → t.next_generation < u64_max
    → let u = (register t scope_id input_id value deadline_ms b at).0 in
      (consume u id now ≡ (u, refused OneTimeError.superseded []))
      × (release u id now ≡ (u, refused OneTimeError.superseded []))
register_supersedes t s i x d b at now id g v index later more =
    let k = key s i in
    let u = (register t s i x d b at).0 in
    let e = new_entry s i x d b at (next_u64 t.next_generation) in
    let fresh : leb_ℤ d at ≡ false = unfold leb_ℤ in ground arith in
    let found : lookup k u.entries ≡ some e = ground (arith, lookup-register t s i x d b at k) in
    let same : u.reservations ≡ t.reservations = register-reservations t s i x d b at in
    let gone : reserved_entry u id ≡ err OneTimeError.superseded =
      superseded_entry u id k e g (rw same index) found (λ q. absurd (
        omega (
          arith,
          v.bounded id k g index,
          new_entry-generation s i x d b at (next_u64 t.next_generation),
          next_u64-below t.next_generation more,
          q,
        ))) in
    (unfold consume in rw (gone, consume), unfold release in rw (gone, release))

-- The deadline that a registration keeps is never later than the one asked for, and lies within the
-- retention bound of the clock reading, if that sum is an `i64`.
pub register_deadline :
    (t : OneTimeTable) (scope_id input_id value : Text) (deadline_ms : ℤ) (b : OneTimeBinding)
    (now : ℤ) {r : OneTimeReceipt}
    → (register t scope_id input_id value deadline_ms b now).1.outcome ≡ ok r
    → IsI64 now
    → now +ℤ pos one_time_max_retention_ms ≤ℤ pos i64_max
    → (r.deadline_ms ≤ℤ deadline_ms)
      × (r.deadline_ms ≤ℤ now +ℤ pos one_time_max_retention_ms)
      × (now <ℤ deadline_ms)
unfolding register leb_ℤ
register_deadline t s i x d b now h range fits =
    let cap = add_i64 now (pos one_time_max_retention_ms) in
    ground (
      arith,
      min_ℤ_le_left d cap,
      min_ℤ_le_right d cap,
      add_i64_exact now one_time_max_retention_ms range fits,
    )
