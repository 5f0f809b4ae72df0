-- ===== src/OneTime/Attempts.antt =====
-- magicvault-core/src/one_time.rs: `reserve`, on every branch.
use mathlib.Core.Path.{subst}
use magic_vault.Base.{
  is_some, is_ok, Text, text_eq, true, some, ok, ◌≡◌, ◌↔◌, inl, inr, arith, Option-cases, nat_eq,
  option_text_eq,
}
use magic_vault.Base.Map.{lookup, lookup-insert_self}
use magic_vault.Base.Time.{ℤ, ltb_ℤ, ◌<ℤ◌}
use magic_vault.OneTime.Entry.{
  OneTimeClaim, OneTimeReservation, OneTimeEntry, OneTimeState, OneTimeTransition, is_live, admits,
}
use magic_vault.OneTime.Table.{OneTimeTable, key, reserve, reserve_entry, index_reservation}
use magic_vault.OneTime.Settle.{reserved_entry}
use magic_vault.OneTime.Invariant.{IsValid}

-- The entry may be handed to the claim.
pub record IsClaimable (e : OneTimeEntry) (claim : OneTimeClaim) (now : ℤ) : Type 0 where
  pub unclaimed : e.state ≡ OneTimeState.available
  pub in_time : now <ℤ e.deadline_ms
  pub admitted : admits e.binding claim ≡ true

module _ (e : OneTimeEntry) (claim : OneTimeClaim) (fresh : Text) (now : ℤ) where
  reserve_entry_iff :
      is_some e.value ≡ is_live e.state
      → (is_ok (reserve_entry e claim fresh now).1.outcome ≡ true) ↔ IsClaimable e claim now
  unfolding reserve_entry ltb_ℤ
  reserve_entry_iff h = (λ q. ground arith, λ c. ground arith)

  -- What a handed-out code is, and what the entry is then.
  reserve_entry-ok :
      {r : OneTimeReservation}
      → (reserve_entry e claim fresh now).1.outcome ≡ ok r
      → (e.value ≡ some r.value)
        × (r.receipt.reservation_id ≡ some fresh)
        × ((reserve_entry e claim fresh now).0 ≡ record e {
          state = OneTimeState.reserved;
          last = OneTimeTransition.reserved;
          reservation_id = some fresh;
          claim = some claim;
        })
  unfolding reserve_entry
  reserve_entry-ok h = ground arith

-- A valid table hands a code out exactly when the input has an entry that is available, before
-- its deadline, and whose binding admits the claim.
pub reserve_iff :
    (t : OneTimeTable) (scope_id input_id : Text) (claim : OneTimeClaim) (fresh : Text) (now : ℤ)
    → IsValid t
    → (is_ok (reserve t scope_id input_id claim fresh now).1.outcome ≡ true) ↔ (
        (e : OneTimeEntry) × (lookup (key scope_id input_id) t.entries ≡ some e)
        × IsClaimable e claim now)
unfolding reserve
reserve_iff t s i claim fresh now v = elim (Option-cases (lookup (key s i) t.entries)) [
  | inl h ↦ (λ q. ground arith, λ (e, found, c). ground arith)
  | inr (e, h) ↦
      let both = reserve_entry_iff e claim fresh now (v.stored (key s i) e h).value_live in
      (
        λ q. (e, h, both.0 (rw (h, reserve) at q)),
        λ (e', found, c).
            let same : e' ≡ e = ground arith in
            rw (h, reserve) (both.1 (subst (λ o. IsClaimable o claim now) same c)),
      )
]

-- A reservation that was made carries the code of the entry under its key and the id that was
-- drawn, and is then the one that the entry is held by and that the index resolves.
pub reserve-ok :
    (t : OneTimeTable) (scope_id input_id : Text) (claim : OneTimeClaim) (fresh : Text) (now : ℤ)
    {r : OneTimeReservation} {e : OneTimeEntry}
    → lookup (key scope_id input_id) t.entries ≡ some e
    → (reserve t scope_id input_id claim fresh now).1.outcome ≡ ok r
    → (e.value ≡ some r.value)
      × (r.receipt.reservation_id ≡ some fresh)
      × (reserved_entry (reserve t scope_id input_id claim fresh now).0 fresh
          ≡ ok (
            key scope_id input_id,
            record e {
              state = OneTimeState.reserved;
              last = OneTimeTransition.reserved;
              reservation_id = some fresh;
              claim = some claim;
            },
          ))
unfolding reserve index_reservation reserved_entry
reserve-ok t s i claim fresh now {r} {e} was h =
    let k = key s i in
    let e₁ = (reserve_entry e claim fresh now).0 in
    let done : (reserve_entry e claim fresh now).1.outcome ≡ ok r = rw (was, reserve) at h in
    ground (
      arith,
      reserve_entry-ok e claim fresh now done,
      lookup-insert_self k e₁ t.entries,
      lookup-insert_self fresh (k, e₁.generation) t.reservations,
    )
