-- ===== src/OneTime/Sweeping.antt =====
-- magicvault-core/src/one_time.rs: the invariant, `sweep` and `retire_scope`.
use mathlib.Core.Path.{subst}
use magic_vault.Base.{ℕ, Text, text_eq, Option, none, some, [], ◌∷◌, ◌≡◌, ◌∙◌, refl, arith}
use magic_vault.Base.Map.{
  Map, lookup, NodupKeys, retain, lookup-retain, retain-NodupKeys, contains_key,
}
use magic_vault.Base.Time.{ℤ}
use magic_vault.OneTime.Entry.{OneTimeEntry, expire_if_due}
use magic_vault.OneTime.Table.{OneTimeTable}
use magic_vault.OneTime.Scope.{sweep, sweep_entries, retire_scope, outside}
use magic_vault.OneTime.Invariant.{IsStored, IsValid, expire-IsStored}

abbrev pub swept : ℤ → Option OneTimeEntry → Option OneTimeEntry
swept now none = none
swept now (some e) = some (expire_if_due e now).0

pub lookup-sweep_entries :
    (k : Text) (m : Map OneTimeEntry) (now : ℤ)
    → lookup k (sweep_entries m now).0 ≡ swept now (lookup k m)
unfolding lookup sweep_entries
lookup-sweep_entries k [] now = refl
lookup-sweep_entries k ((j, e) ∷ m) now = ground (arith, lookup-sweep_entries k m now)

sweep_entries-NodupKeys :
    (m : Map OneTimeEntry) (now : ℤ) → NodupKeys m → NodupKeys (sweep_entries m now).0
unfolding sweep_entries
sweep_entries-NodupKeys [] now u = tt
sweep_entries-NodupKeys ((j, e) ∷ m) now (fresh, u) =
    ground (arith, sweep_entries-NodupKeys m now u, lookup-sweep_entries j m now)

-- An entry of the swept map comes from an entry of the map.
swept-IsStored :
    (n : ℕ) (index : Map (Text × ℕ)) (k : Text) (now : ℤ) (o : Option OneTimeEntry)
    → ((e : OneTimeEntry) → o ≡ some e → IsStored n index k e)
    → (e : OneTimeEntry) → swept now o ≡ some e
    → IsStored n index k e
swept-IsStored n index k now none f e h = cc
swept-IsStored n index k now (some o) f e h =
    subst (IsStored n index k) (ground arith) (expire-IsStored n index k o now (f o refl))

pub sweep-IsValid : (t : OneTimeTable) (now : ℤ) → IsValid t → IsValid (sweep t now).0
unfolding sweep
sweep-IsValid t now v = record {
  nodup = sweep_entries-NodupKeys t.entries now v.nodup;
  nodup_index = v.nodup_index;
  stored = λ k e h.
      swept-IsStored t.next_generation t.reservations k now (lookup k t.entries) (v.stored k) e
        (rw (← lookup-sweep_entries) h);
  bounded = v.bounded;
}

-- An entry that stays has its reservation in the index that stays.
kept-IsStored :
    (n : ℕ) (index : Map (Text × ℕ)) (entries : Map OneTimeEntry) (k : Text) (e : OneTimeEntry)
    → NodupKeys index
    → lookup k entries ≡ some e
    → IsStored n index k e
    → IsStored n (retain (λ _ target. contains_key target.0 entries) index) k e
kept-IsStored n index entries k e u h s = record {
  value_live = s.value_live;
  held_reserved = s.held_reserved;
  claim_reserved = s.claim_reserved;
  keyed = s.keyed;
  numbered = s.numbered;
  indexed = λ id p.
      lookup-retain (λ _ target. contains_key target.0 entries) id index u
      ∙ rw (s.indexed id p) (ground arith);
}

pub retire_scope-IsValid :
    (t : OneTimeTable) (scope_id : Text) → IsValid t → IsValid (retire_scope t scope_id).0
unfolding retire_scope
retire_scope-IsValid t scope_id v = record {
  nodup = retain-NodupKeys _ t.entries v.nodup;
  nodup_index = retain-NodupKeys _ t.reservations v.nodup_index;
  stored = λ k e h.
      kept-IsStored t.next_generation t.reservations (retain (outside scope_id) t.entries) k e
        v.nodup_index h
        (v.stored k e (ground (arith, lookup-retain (outside scope_id) k t.entries v.nodup)));
  bounded = λ id k g h. v.bounded id k g (
      ground (
        arith,
        lookup-retain (λ _ target. contains_key target.0 (retain (outside scope_id) t.entries)) id
            t.reservations v.nodup_index,
      ));
}
