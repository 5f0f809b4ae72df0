-- ===== src/OneTime/Invariant.antt =====
-- magicvault-core/src/one_time.rs: the invariant of `OneTimeTable`, and the lemmas on one entry.
use mathlib.Core.Path.{subst}
use magic_vault.Base.{ℕ, ◌≤◌, Text, text_eq, none, some, ◌≡◌, sym, arith, is_some}
use magic_vault.Base.Map.{Map, lookup, insert, NodupKeys, lookup-insert, insert-NodupKeys}
use magic_vault.Base.Time.{ℤ}
use magic_vault.OneTime.Entry.{OneTimeEntry, OneTimeClaim, expire_if_due, is_live, is_reserved}
use magic_vault.OneTime.Table.{OneTimeTable, key, reserve_entry, index_reservation}
use magic_vault.OneTime.Settle.{consume_entry, release_entry, cancel_entry}

-- What holds of the entry `e` under the key `k`: the comment on `OneTimeEntry.value`, the same of
-- the reservation and the claim, and that the index knows the reservation.
pub record IsStored (n : ℕ) (index : Map (Text × ℕ)) (k : Text) (e : OneTimeEntry) : Type 0 where
  pub value_live : is_some e.value ≡ is_live e.state
  pub held_reserved : is_some e.reservation_id ≡ is_reserved e.state
  pub claim_reserved : is_some e.claim ≡ is_reserved e.state
  pub keyed : k ≡ key e.scope_id e.input_id
  pub numbered : e.generation ≤ n
  pub indexed : (id : Text) → e.reservation_id ≡ some id → lookup id index ≡ some (k, e.generation)

pub record IsValid (t : OneTimeTable) : Type 0 where
  pub nodup : NodupKeys t.entries
  pub nodup_index : NodupKeys t.reservations
  pub stored :
      (k : Text) (e : OneTimeEntry)
      → lookup k t.entries ≡ some e
      → IsStored t.next_generation t.reservations k e
  pub bounded :
      (id k : Text) (g : ℕ) → lookup id t.reservations ≡ some (k, g) → g ≤ t.next_generation

module _ (entries : Map OneTimeEntry) (index : Map (Text × ℕ)) (n : ℕ) (k : Text)
    (e : OneTimeEntry) where
  -- A changed entry that is written under its key, with an index that covers it and the others.
  pub write-IsValid :
      NodupKeys entries
      → NodupKeys index
      → ((id j : Text) (g : ℕ) → lookup id index ≡ some (j, g) → g ≤ n)
      → ((j : Text) (e' : OneTimeEntry)
          → ¬ (j ≡ k)
          → lookup j entries ≡ some e'
          → IsStored n index j e')
      → IsStored n index k e
      → IsValid (record { entries = insert k e entries; reservations = index; next_generation = n })
  write-IsValid u ui b others s = record {
    nodup = insert-NodupKeys k e entries u;
    nodup_index = ui;
    stored = λ j e' h. elim (text_eq.dec j k) [
      | yes p ↦
          let same : e ≡ e' = ground (arith, lookup-insert j k e entries) in
          subst (IsStored n index j) same (subst (λ i. IsStored n index i e) (sym p) s)
      | no q ↦ others j e' q (ground (arith, lookup-insert j k e entries))
    ];
    bounded = b;
  }

module _ (n : ℕ) (index : Map (Text × ℕ)) (k : Text) (e : OneTimeEntry) (now : ℤ) where
  pub expire-IsStored : IsStored n index k e → IsStored n index k (expire_if_due e now).0
  unfolding expire_if_due
  expire-IsStored s = grind arith

  pub consume_entry-IsStored :
      (id : Text) → IsStored n index k e → IsStored n index k (consume_entry e id now).0
  unfolding consume_entry
  consume_entry-IsStored id s = grind arith

  pub release_entry-IsStored :
      (id : Text) → IsStored n index k e → IsStored n index k (release_entry e id now).0
  unfolding release_entry
  release_entry-IsStored id s = grind arith

  pub cancel_entry-IsStored : IsStored n index k e → IsStored n index k (cancel_entry e now).0
  unfolding cancel_entry
  cancel_entry-IsStored s = grind arith

  pub reserve_entry-IsStored :
      (claim : OneTimeClaim) (fresh : Text)
      → IsStored n index k e
      → lookup fresh index ≡ none
      → let (e', result) = reserve_entry e claim fresh now in
        IsStored n (index_reservation result.outcome fresh (k, e'.generation) index) k e'
  unfolding reserve_entry index_reservation
  reserve_entry-IsStored claim fresh s h = grind (arith, lookup-insert)

-- The same with the index left as it is.
pub insert-IsValid :
    (t : OneTimeTable) (k : Text) (e : OneTimeEntry)
    → IsValid t
    → IsStored t.next_generation t.reservations k e
    → IsValid (record t { entries = insert k e t.entries })
insert-IsValid t k e v s =
    write-IsValid t.entries t.reservations t.next_generation k e v.nodup v.nodup_index v.bounded
      (λ j e' _ h. v.stored j e' h) s
