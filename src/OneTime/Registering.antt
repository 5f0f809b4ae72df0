-- ===== src/OneTime/Registering.antt =====
-- magicvault-core/src/one_time.rs: the invariant and `register`.
use magic_vault.Base.{ℕ, suc, ◌<◌, ◌≡◌, Text, text_eq, inl, inr, arith, Bool-cases}
use magic_vault.Base.Map.{Map, remove, lookup-remove, remove-NodupKeys}
use magic_vault.Base.Time.{ℤ, leb_ℤ}
use magic_vault.OneTime.Entry.{OneTimeBinding, OneTimeEntry}
use magic_vault.OneTime.Table.{u64_max, next_u64, OneTimeTable, key, register, new_entry}
use magic_vault.OneTime.Invariant.{IsStored, IsValid, write-IsValid}

remove-IsValid :
    (t : OneTimeTable) (k : Text) → IsValid t → IsValid (record t { entries = remove k t.entries })
remove-IsValid t k v = record {
  nodup = remove-NodupKeys k t.entries v.nodup;
  nodup_index = v.nodup_index;
  stored = λ j e h. v.stored j e (ground (arith, lookup-remove j k t.entries));
  bounded = v.bounded;
}

pub next_u64-below : (n : ℕ) → n < u64_max → next_u64 n ≡ suc n
unfolding next_u64
next_u64-below n h = ground arith

IsStored-suc :
    (n : ℕ) (index : Map (Text × ℕ)) (k : Text) (e : OneTimeEntry)
    → IsStored n index k e
    → IsStored (suc n) index k e
IsStored-suc n index k e s = grind arith

new_entry-IsStored :
    (t : OneTimeTable) (scope_id input_id value : Text) (deadline_ms : ℤ) (b : OneTimeBinding)
    (now : ℤ)
    → IsStored
        (suc t.next_generation)
        t.reservations
        (key scope_id input_id)
        (new_entry scope_id input_id value deadline_ms b now (suc t.next_generation))
unfolding new_entry
new_entry-IsStored t scope_id input_id value deadline_ms b now = grind arith

pub register-IsValid :
    (t : OneTimeTable) (scope_id input_id value : Text) (deadline_ms : ℤ) (b : OneTimeBinding)
    (now : ℤ)
    → IsValid t
    → t.next_generation < u64_max
    → IsValid (register t scope_id input_id value deadline_ms b now).0
unfolding register
register-IsValid t scope_id input_id value deadline_ms b now v more =
    let next = next_u64-below t.next_generation more in
    let k = key scope_id input_id in
    let m = remove k t.entries in
    let n = suc t.next_generation in
    elim (Bool-cases (leb_ℤ deadline_ms now)) [
      | inl past ↦ rw (past, register) (remove-IsValid t k v)
      | inr later ↦
          rw (later, register, next)
            (write-IsValid m t.reservations n k _ (remove-NodupKeys k t.entries v.nodup)
              v.nodup_index (λ id j g h. omega (arith, v.bounded id j g h))
              (λ j e _ h.
                IsStored-suc _ _ j e (v.stored j e (ground (arith, lookup-remove j k t.entries))))
              (new_entry-IsStored t scope_id input_id value deadline_ms b now))
    ]
