-- ===== src/Store/Swept.antt =====
-- magicvault-core/src/store.rs: the sweep of `reserve_one_time`.
use magic_vault.Base.{
  ap, sym, ◌∙◌, is_some, Text, text_eq, true, Option, none, some, ◌≡◌, inl, inr, arith,
  Option-cases,
}
use magic_vault.Base.Map.{lookup, lookup-insert}
use magic_vault.Base.Time.{ℤ, ltb_ℤ}
use magic_vault.OneTime.Entry.{OneTimeClaim, OneTimeEntry, is_live, expire_if_due}
use magic_vault.OneTime.Table.{OneTimeTable, key, reserve, reserve_entry}
use magic_vault.OneTime.Scope.{sweep}
use magic_vault.OneTime.Invariant.{IsValid}
use magic_vault.OneTime.Preserve.{reserve-IsValid}
use magic_vault.OneTime.Sweeping.{sweep-IsValid, swept, lookup-sweep_entries}
use magic_vault.Store.Vault.{SecretStore}
use magic_vault.Store.Custody.{one_time_feature, reserve_one_time}

expired-live :
    (e : OneTimeEntry) (now : ℤ)
    → is_live (expire_if_due e now).0.state ≡ true
    → ltb_ℤ now (expire_if_due e now).0.deadline_ms ≡ true
unfolding expire_if_due
expired-live e now h = ground arith

reserve_entry-live :
    (e : OneTimeEntry) (claim : OneTimeClaim) (fresh : Text) (now : ℤ)
    → is_live (reserve_entry e claim fresh now).0.state ≡ true
    → ltb_ℤ now (reserve_entry e claim fresh now).0.deadline_ms ≡ true
unfolding reserve_entry expire_if_due
reserve_entry-live e claim fresh now h = ground arith

swept-live :
    (o : Option OneTimeEntry) (e : OneTimeEntry) (now : ℤ)
    → swept now o ≡ some e
    → is_live e.state ≡ true
    → ltb_ℤ now e.deadline_ms ≡ true
swept-live none e now h live = cc
swept-live (some o) e now h live = ground (arith, expired-live o now)

reserve-live :
    (t : OneTimeTable) (scope_id input_id k fresh : Text) (claim : OneTimeClaim) (now : ℤ)
    (e : OneTimeEntry)
    → ((j : Text) (o : OneTimeEntry)
        → lookup j t.entries ≡ some o
        → is_live o.state ≡ true
        → ltb_ℤ now o.deadline_ms ≡ true)
    → lookup k (reserve t scope_id input_id claim fresh now).0.entries ≡ some e
    → is_live e.state ≡ true
    → ltb_ℤ now e.deadline_ms ≡ true
unfolding reserve
reserve-live t s i k fresh claim now e before h live =
    elim (Option-cases (lookup (key s i) t.entries)) [
      | inl q ↦ before k e (ground arith) live
      | inr (o, q) ↦ elim (text_eq.dec k (key s i)) [
        | yes p ↦
            let at = lookup-insert k (key s i) (reserve_entry o claim fresh now).0 t.entries in
            let same : (reserve_entry o claim fresh now).0 ≡ e = ground (arith, at) in
            ground (arith, same, reserve_entry-live o claim fresh now)
        | no d ↦
            let at = lookup-insert k (key s i) (reserve_entry o claim fresh now).0 t.entries in
            before k e (ground (arith, at)) live
      ]
    ]

swept_store-live :
    (t : OneTimeTable) (now : ℤ) (j : Text) (o : OneTimeEntry)
    → lookup j (sweep t now).0.entries ≡ some o
    → is_live o.state ≡ true
    → ltb_ℤ now o.deadline_ms ≡ true
unfolding sweep
swept_store-live t now j o h live =
    swept-live (lookup j t.entries) o now (rw (← lookup-sweep_entries) h) live

sweep-unused :
    (t : OneTimeTable) (fresh : Text) (now : ℤ)
    → lookup fresh t.reservations ≡ none
    → lookup fresh (sweep t now).0.reservations ≡ none
unfolding sweep
sweep-unused t fresh now h = h

reserve_one_time-table :
    (s : SecretStore) (scope_id input_id fresh : Text) (claim : OneTimeClaim) (now : ℤ)
    → one_time_feature s ≡ none
    → (reserve_one_time s scope_id input_id claim fresh now).store.one_time
      ≡ (reserve (sweep s.one_time now).0 scope_id input_id claim fresh now).0
unfolding reserve_one_time
reserve_one_time-table s scope_id input_id fresh claim now on = ground arith

-- In a valid store where one-time custody is enabled and no reservation has the id that is drawn:
-- after a call of `reserve_one_time`, whatever it returns, a code that the store still holds under
-- any key is one whose deadline is after the time of the call.
pub reserve_one_time-in_time :
    (s : SecretStore) (scope_id input_id k fresh : Text) (claim : OneTimeClaim) (now : ℤ)
    (e : OneTimeEntry) (x : Text)
    → IsValid s.one_time
    → lookup fresh s.one_time.reservations ≡ none
    → one_time_feature s ≡ none
    → lookup k (reserve_one_time s scope_id input_id claim fresh now).store.one_time.entries
      ≡ some e
    → e.value ≡ some x
    → ltb_ℤ now e.deadline_ms ≡ true
reserve_one_time-in_time s scope_id input_id k fresh claim now e x v unused on h q =
    let t = (sweep s.one_time now).0 in
    let same = reserve_one_time-table s scope_id input_id fresh claim now on in
    let valid =
      reserve-IsValid t scope_id input_id claim fresh now (sweep-IsValid s.one_time now v)
        (sweep-unused s.one_time fresh now unused) in
    let there : lookup k (reserve t scope_id input_id claim fresh now).0.entries ≡ some e =
      ap (λ (u : OneTimeTable). lookup k u.entries) (sym same) ∙ h in
    let live : is_live e.state ≡ true = sym (valid.stored k e there).value_live ∙ ap is_some q in
    reserve-live t scope_id input_id k fresh claim now e (swept_store-live s.one_time now) there
      live
