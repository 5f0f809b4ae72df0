-- ===== src/OneTime/Preserve.antt =====
-- magicvault-core/src/one_time.rs: the invariant and the operations on one entry.
use magic_vault.Base.{
  Result-cases, ℕ, ◌≤◌, Text, text_eq, none, some, ok, err, ◌≡◌, inl, inr, arith, Result,
  Option-cases,
}
use magic_vault.Base.Map.{
  Map, lookup, insert, remove, NodupKeys, lookup-insert, lookup-remove, insert-NodupKeys,
  remove-NodupKeys,
}
use magic_vault.Base.Time.{ℤ}
use magic_vault.OneTime.Entry.{
  OneTimeEntry, OneTimeClaim, OneTimeError, OneTimeReservation, OneTimeReceipt,
}
use magic_vault.OneTime.Table.{
  OneTimeTable, key, reserve, reserve_entry, index_reservation, empty_table,
}
use magic_vault.OneTime.Settle.{
  reserved_entry, consume, release, release_entry, cancel, drop_reservation,
}
use magic_vault.OneTime.Scope.{state}
use magic_vault.OneTime.Invariant.{
  IsStored, IsValid, write-IsValid, insert-IsValid, expire-IsStored, consume_entry-IsStored,
  cancel_entry-IsStored, reserve_entry-IsStored,
}

empty_table-IsValid : IsValid empty_table
unfolding lookup
empty_table-IsValid = record {
  nodup = tt;
  nodup_index = tt;
  stored = λ k e h. cc;
  bounded = λ id k g h. cc;
}

pub cancel-IsValid :
    (t : OneTimeTable) (scope_id input_id : Text) (now : ℤ)
    → IsValid t
    → IsValid (cancel t scope_id input_id now).0
unfolding cancel
cancel-IsValid t scope_id input_id now v =
    elim (Option-cases (lookup (key scope_id input_id) t.entries)) [
      | inl h ↦ rw (h, cancel) v
      | inr (e, h) ↦
          rw (h, cancel)
            (insert-IsValid t _ _ v (cancel_entry-IsStored _ _ _ e now (v.stored _ e h)))
    ]

pub state-IsValid :
    (t : OneTimeTable) (scope_id input_id : Text) (now : ℤ)
    → IsValid t
    → IsValid (state t scope_id input_id now).0
unfolding state
state-IsValid t scope_id input_id now v =
    elim (Option-cases (lookup (key scope_id input_id) t.entries)) [
      | inl h ↦ rw (h, state) v
      | inr (e, h) ↦
          rw (h, state) (insert-IsValid t _ _ v (expire-IsStored _ _ _ e now (v.stored _ e h)))
    ]

-- A new index entry under an unused id hides nothing of the others.
IsStored-insert :
    (n : ℕ) (index : Map (Text × ℕ)) (j : Text) (e : OneTimeEntry) (fresh : Text)
    (target : Text × ℕ)
    → lookup fresh index ≡ none
    → IsStored n index j e
    → IsStored n (insert fresh target index) j e
IsStored-insert n index j e fresh target h s = grind (arith, lookup-insert)

-- Without the id of another key's entry the index still covers an entry.
IsStored-remove :
    (n : ℕ) (index : Map (Text × ℕ)) (j k : Text) (g : ℕ) (e : OneTimeEntry) (id : Text)
    → lookup id index ≡ some (k, g)
    → ¬ (j ≡ k)
    → IsStored n index j e
    → IsStored n (remove id index) j e
IsStored-remove n index j k g e id h d s = grind (arith, lookup-remove)

module _ (n : ℕ) (index : Map (Text × ℕ)) (fresh k : Text) (g : ℕ) where
  index_reservation-NodupKeys :
      (r : Result OneTimeReservation OneTimeError)
      → NodupKeys index
      → NodupKeys (index_reservation r fresh (k, g) index)
  unfolding index_reservation
  index_reservation-NodupKeys (ok _) u = insert-NodupKeys fresh (k, g) index u
  index_reservation-NodupKeys (err _) u = u

  index_reservation_bounded :
      (r : Result OneTimeReservation OneTimeError)
      → ((id j : Text) (i : ℕ) → lookup id index ≡ some (j, i) → i ≤ n)
      → g ≤ n
      → (id j : Text) (i : ℕ) → lookup id (index_reservation r fresh (k, g) index) ≡ some (j, i)
      → i ≤ n
  unfolding index_reservation
  index_reservation_bounded (ok _) b h id j i e =
      ground (arith, lookup-insert id fresh (k, g) index, b id j i)
  index_reservation_bounded (err _) b h id j i e = b id j i e

  IsStored-index_reservation :
      (r : Result OneTimeReservation OneTimeError) (j : Text) (e : OneTimeEntry)
      → lookup fresh index ≡ none
      → IsStored n index j e
      → IsStored n (index_reservation r fresh (k, g) index) j e
  unfolding index_reservation
  IsStored-index_reservation (ok _) j e h s = IsStored-insert n index j e fresh (k, g) h s
  IsStored-index_reservation (err _) j e h s = s

pub reserve-IsValid :
    (t : OneTimeTable) (scope_id input_id : Text) (claim : OneTimeClaim) (fresh : Text) (now : ℤ)
    → IsValid t
    → lookup fresh t.reservations ≡ none
    → IsValid (reserve t scope_id input_id claim fresh now).0
unfolding reserve
reserve-IsValid t scope_id input_id claim fresh now v unused =
    elim (Option-cases (lookup (key scope_id input_id) t.entries)) [
      | inl h ↦ rw (h, reserve) v
      | inr (e, h) ↦
          let s = v.stored _ e h in
          let s' = reserve_entry-IsStored _ t.reservations _ e now claim fresh s unused in
          let (e', result) = reserve_entry e claim fresh now in
          let r = result.outcome in
          let m = t.reservations in
          let n = t.next_generation in
          let k = key scope_id input_id in
          rw (h, reserve)
            (write-IsValid t.entries _ n k e' v.nodup
              (index_reservation-NodupKeys n m fresh k e'.generation r v.nodup_index)
              (index_reservation_bounded n m fresh k e'.generation r v.bounded s'.numbered)
              (λ j o _ found.
                IsStored-index_reservation n m fresh k e'.generation r j o unused
                  (v.stored j o found))
              s')
    ]

-- What a resolved reservation id stands for.
pub reserved_entry-ok :
    (t : OneTimeTable) (id : Text) {k : Text} {e : OneTimeEntry}
    → reserved_entry t id ≡ ok (k, e)
    → (lookup id t.reservations ≡ some (k, e.generation)) × (lookup k t.entries ≡ some e)
unfolding reserved_entry
reserved_entry-ok t id h = ground arith

pub consume-IsValid :
    (t : OneTimeTable) (id : Text) (now : ℤ) → IsValid t → IsValid (consume t id now).0
unfolding consume
consume-IsValid t id now v = elim (Result-cases (reserved_entry t id)) [
  | inl ((k, e), h) ↦
      let (_, found) = reserved_entry-ok t id h in
      rw (h, consume)
        (insert-IsValid t k _ v (consume_entry-IsStored _ _ k e now id (v.stored k e found)))
  | inr (x, h) ↦ rw (h, consume) v
]

module _ (n : ℕ) (index : Map (Text × ℕ)) (id : Text) where
  drop_reservation-NodupKeys :
      (r : Result OneTimeReceipt OneTimeError)
      → NodupKeys index
      → NodupKeys (drop_reservation r id index)
  unfolding drop_reservation
  drop_reservation-NodupKeys (ok _) u = remove-NodupKeys id index u
  drop_reservation-NodupKeys (err _) u = u

  pub lookup-drop_reservation :
      (r : Result OneTimeReceipt OneTimeError) (j : Text) {target : Text × ℕ}
      → lookup j (drop_reservation r id index) ≡ some target
      → lookup j index ≡ some target
  unfolding drop_reservation
  lookup-drop_reservation (ok _) j h = ground (arith, lookup-remove j id index)
  lookup-drop_reservation (err _) j h = h

  IsStored-drop_reservation :
      (r : Result OneTimeReceipt OneTimeError) (j k : Text) (g : ℕ) (e : OneTimeEntry)
      → lookup id index ≡ some (k, g)
      → ¬ (j ≡ k)
      → IsStored n index j e
      → IsStored n (drop_reservation r id index) j e
  unfolding drop_reservation
  IsStored-drop_reservation (ok _) j k g e h d s = IsStored-remove n index j k g e id h d s
  IsStored-drop_reservation (err _) j k g e h d s = s

  -- A release leaves the entry without a reservation, a refusal leaves the index as it was.
  release_entry-IsStored_drop :
      (k : Text) (e : OneTimeEntry) (now : ℤ)
      → IsStored n index k e
      → let (e', result) = release_entry e id now in
        IsStored n (drop_reservation result.outcome id index) k e'
  unfolding release_entry drop_reservation
  release_entry-IsStored_drop k e now s = grind arith

pub release-IsValid :
    (t : OneTimeTable) (id : Text) (now : ℤ) → IsValid t → IsValid (release t id now).0
unfolding release
release-IsValid t id now v = elim (Result-cases (reserved_entry t id)) [
  | inl ((k, e), h) ↦
      let (found_id, found) = reserved_entry-ok t id h in
      let s = v.stored k e found in
      let r = (release_entry e id now).1.outcome in
      let m = t.reservations in
      let n = t.next_generation in
      rw (h, release)
        (write-IsValid t.entries _ n k _ v.nodup (drop_reservation-NodupKeys n m id r v.nodup_index)
          (λ i j g q. v.bounded i j g (lookup-drop_reservation n m id r i q))
          (λ j o d q.
            IsStored-drop_reservation n m id r j k e.generation o found_id d (v.stored j o q))
          (release_entry-IsStored_drop n m id k e now s))
  | inr (x, h) ↦ rw (h, release) v
]
