-- ===== src/Captured/Eviction.antt =====
-- magicvault-core/src/store.rs: the eviction brings the captures within their limit.
use magic_vault.Base.{
  ℕ, zero, suc, ◌+◌, ◌≤◌, ◌<◌, Text, text_eq, true, Option, none, some, ◌≡◌, refl, [], ◌∷◌, length,
  arith, Bool-cases, ◌⊎◌, Option-cases, inl, inr,
}
use magic_vault.Base.Map.{
  Map, lookup, remove, contains_key, NodupKeys, lookup-remove, remove-NodupKeys,
}
use magic_vault.Base.Time.{ℤ, ltb_ℤ, ◌≤ℤ◌}
use magic_vault.Store.Vault.{SecretEntry}
use magic_vault.Captured.Storing.{Capture, put_captured}
use magic_vault.Captured.Partition.{
  CapturedPartition, older_of, oldest, evict, evict_captured_if_needed,
}

length-remove_le : {V : Type 0} (k : Text) (m : Map V) → length (remove k m) ≤ length m
unfolding remove
length-remove_le k [] = omega arith
length-remove_le k (_ ∷ m) = ground (arith, length-remove_le k m)

length-remove_lt :
    {V : Type 0} (k : Text) (m : Map V) → contains_key k m ≡ true → length (remove k m) < length m
unfolding remove lookup
length-remove_lt k [] h = cc
length-remove_lt k (_ ∷ m) h = ground (arith, length-remove_lt k m, length-remove_le k m)

contains_key-oldest :
    (m : Map SecretEntry) (origin : Text) (e : SecretEntry)
    → oldest m ≡ some (origin, e)
    → contains_key origin m ≡ true
unfolding oldest older_of lookup
contains_key-oldest [] origin e h = cc
contains_key-oldest (x ∷ m) origin e h = ground (arith, contains_key-oldest m origin e)

length-oldest-none : (m : Map SecretEntry) → oldest m ≡ none → length m ≡ 0
unfolding oldest
length-oldest-none [] h = refl
length-oldest-none (_ ∷ _) h = cc

length-evict :
    (max_origins rounds : ℕ) (m : Map SecretEntry)
    → length m ≤ rounds + max_origins
    → length (evict max_origins rounds m) ≤ max_origins
unfolding evict
length-evict n zero m h = omega (arith, h)
length-evict n (suc rounds) m h = elim (Option-cases (oldest m)) [
  | inl e ↦ ground (arith, length-oldest-none m e, e)
  | inr ((origin, x), e) ↦
      let fewer = length-remove_lt origin m (contains_key-oldest m origin x e) in
      ground (arith, length-evict n rounds (remove origin m), fewer, e)
]

length-evict_captured_if_needed :
    (max_origins : ℕ) (m : Map SecretEntry)
    → length (evict_captured_if_needed max_origins m) ≤ max_origins
unfolding evict_captured_if_needed
length-evict_captured_if_needed n m = length-evict n (length m) m (omega arith)

lookup-oldest-none : (m : Map SecretEntry) (k : Text) → oldest m ≡ none → lookup k m ≡ none
unfolding oldest lookup
lookup-oldest-none [] k h = refl
lookup-oldest-none (_ ∷ _) k h = cc

-- The older of two is one of them, and not newer than either.
older_of-cases :
    (y z : Text × SecretEntry)
    → (((older_of y (some z) ≡ y) × (y.1.created_at ≤ℤ z.1.created_at)))
      ⊎ ((older_of y (some z) ≡ z) × (z.1.created_at ≤ℤ y.1.created_at))
unfolding older_of ltb_ℤ
older_of-cases y z = elim (Bool-cases (ltb_ℤ z.1.created_at y.1.created_at)) [
  | inl h ↦ inr (rw (h, older_of) refl, ground (arith, h))
  | inr h ↦ inl (rw (h, older_of) refl, ground (arith, h))
]

oldest_le :
    (m : Map SecretEntry) (origin k : Text) (x e : SecretEntry)
    → oldest m ≡ some (origin, x)
    → lookup k m ≡ some e
    → x.created_at ≤ℤ e.created_at
unfolding oldest lookup
oldest_le [] origin k x e o l = cc
oldest_le (y ∷ m) origin k x e o l = elim (Option-cases (oldest m)) [
  | inl n ↦ ground (arith, o, l, n, lookup-oldest-none m k n, older_of)
  | inr ((j, z), n) ↦ elim (older_of-cases y (j, z)) [
    | inl (q, le) ↦ ground (arith, o, l, n, q, le, oldest_le m j k z e n)
    | inr (q, le) ↦ ground (arith, o, l, n, q, le, oldest_le m j k z e n)
  ]
]

lookup-oldest :
    (m : Map SecretEntry) (origin : Text) (x : SecretEntry)
    → NodupKeys m
    → oldest m ≡ some (origin, x)
    → lookup origin m ≡ some x
unfolding oldest older_of lookup
lookup-oldest [] origin x u o = cc
lookup-oldest (y ∷ m) origin x (fresh, u) o = elim (Option-cases (oldest m)) [
  | inl n ↦ ground (arith, o, n, older_of)
  | inr ((j, z), n) ↦ elim (older_of-cases y (j, z)) [
    | inl (q, le) ↦ ground (arith, o, q, n)
    | inr (q, le) ↦ ground (arith, o, q, n, fresh, lookup-oldest m j z u n)
  ]
]

lookup-evict :
    (max_origins rounds : ℕ) (m : Map SecretEntry) (k : Text) (e : SecretEntry)
    → lookup k (evict max_origins rounds m) ≡ some e
    → lookup k m ≡ some e
unfolding evict
lookup-evict n zero m k e h = h
lookup-evict n (suc rounds) m k e h = elim (Option-cases (oldest m)) [
  | inl o ↦ ground (arith, h, o)
  | inr ((origin, x), o) ↦
      ground (arith, h, o, lookup-evict n rounds (remove origin m) k e, lookup-remove k origin m)
]

evict-order :
    (max_origins rounds : ℕ) (m : Map SecretEntry) (j k : Text) (e f : SecretEntry)
    → NodupKeys m
    → lookup j m ≡ some e
    → lookup j (evict max_origins rounds m) ≡ none
    → lookup k (evict max_origins rounds m) ≡ some f
    → e.created_at ≤ℤ f.created_at
unfolding evict
evict-order n zero m j k e f u l gone kept = cc
evict-order n (suc rounds) m j k e f u l gone kept = elim (Option-cases (oldest m)) [
  | inl o ↦ ground (arith, l, lookup-oldest-none m j o)
  | inr ((origin, x), o) ↦
      let rest = remove origin m in
      let step = evict-order n rounds rest j k e f (remove-NodupKeys origin m u) in
      ground (
        arith,
        l,
        gone,
        kept,
        o,
        step,
        lookup-remove j origin m,
        lookup-remove k origin m,
        lookup-oldest m origin x u o,
        oldest_le m origin k x f o,
        lookup-evict n rounds rest k f,
      )
]

-- The eviction removes the oldest captures: where a key has one entry, an entry that it removes is
-- never newer than an entry that it keeps.
pub evict_captured_if_needed-order :
    (max_origins : ℕ) (m : Map SecretEntry) (j k : Text) (e f : SecretEntry)
    → NodupKeys m
    → lookup j m ≡ some e
    → lookup j (evict_captured_if_needed max_origins m) ≡ none
    → lookup k (evict_captured_if_needed max_origins m) ≡ some f
    → e.created_at ≤ℤ f.created_at
unfolding evict_captured_if_needed
evict_captured_if_needed-order n m j k e f u l gone kept =
    evict-order n (length m) m j k e f u l gone kept

-- After a capture is stored, whatever was stored before, the number of captures is within the
-- configured number of origins.
pub put_captured-IsWithin :
    (d : Text → Option ℤ) (p : CapturedPartition) (origin : Text) (c : Capture) (now : ℤ)
    → length (put_captured d p origin c now).captured ≤ p.captured_max_origins
unfolding put_captured
put_captured-IsWithin d p origin c now = length-evict_captured_if_needed p.captured_max_origins _
