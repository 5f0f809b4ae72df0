-- ===== src/Base/Map.antt =====
-- `HashMap<String, V>` as an association list. An insertion replaces the entry of its key, so a
-- key has at most one entry in every map that the operations build (`NodupKeys`); the order of the
-- entries stands for the iteration order, which the source leaves open.
use magic_vault.Base.Tests.{if◌then◌else◌, is_some}
use magic_vault.Base.Equality.{Text, text_eq, ◌==◌}
use mathlib.Core.Path.{◌≡◌, refl}
use mathlib.Core.Bool.{Bool}
use mathlib.Core.Option.{Option, none, some}
use mathlib.Core.List.{List, [], ◌∷◌}
use native.Mathlib.Omega.{arith}

abbrev pub Map {ℓ} : Type ℓ → Type ℓ
Map V = List (Text × V)

module _ {ℓ} {V : Type ℓ} where
  unfoldable pub lookup : Text → Map V → Option V
  lookup k [] = none
  lookup k ((j, v) ∷ m) = if k == j then some v else lookup k m

  unfoldable pub insert : Text → V → Map V → Map V
  insert k v [] = (k, v) ∷ []
  insert k v ((j, w) ∷ m) = if k == j then (k, v) ∷ m else (j, w) ∷ insert k v m

  unfoldable pub remove : Text → Map V → Map V
  remove k [] = []
  remove k ((j, w) ∷ m) = let rest = remove k m in if k == j then rest else (j, w) ∷ rest

  -- `HashMap::retain`.
  unfoldable pub retain : (Text → V → Bool) → Map V → Map V
  retain keep [] = []
  retain keep ((j, w) ∷ m) = let rest = retain keep m in if keep j w then (j, w) ∷ rest else rest

  abbrev pub contains_key : Text → Map V → Bool
  contains_key k m = is_some (lookup k m)

  unfoldable pub values : Map V → List V
  values [] = []
  values ((_, v) ∷ m) = v ∷ values m

  abbrev pub NodupKeys : Map V → Type ℓ
  NodupKeys [] = Unit
  NodupKeys ((k, _) ∷ m) = (lookup k m ≡ none) × NodupKeys m

module _ {ℓ} {V : Type ℓ} where
  pub lookup-insert :
      (j k : Text) (v : V) (m : Map V)
      → lookup j (insert k v m) ≡ (if j == k then some v else lookup j m)
  unfolding insert lookup
  lookup-insert j k v [] = ground arith
  lookup-insert j k v (_ ∷ m) = ground (arith, lookup-insert j k v m)

  pub lookup-remove :
      (j k : Text) (m : Map V) → lookup j (remove k m) ≡ (if j == k then none else lookup j m)
  unfolding remove lookup
  lookup-remove j k [] = ground arith
  lookup-remove j k (_ ∷ m) = ground (arith, lookup-remove j k m)

  pub lookup-retain-none :
      (keep : Text → V → Bool) (j : Text) (m : Map V)
      → lookup j m ≡ none
      → lookup j (retain keep m) ≡ none
  unfolding retain lookup
  lookup-retain-none keep j [] h = refl
  lookup-retain-none keep j (_ ∷ m) h = ground (arith, lookup-retain-none keep j m)

  abbrev pub kept : (Text → V → Bool) → Text → Option V → Option V
  kept keep j none = none
  kept keep j (some v) = if keep j v then some v else none

  pub lookup-retain :
      (keep : Text → V → Bool) (j : Text) (m : Map V)
      → NodupKeys m
      → lookup j (retain keep m) ≡ kept keep j (lookup j m)
  unfolding retain lookup
  lookup-retain keep j [] u = refl
  lookup-retain keep j ((i, v) ∷ m) (fresh, u) =
      ground (arith, lookup-retain keep j m u, lookup-retain-none keep j m)

  pub insert-NodupKeys : (k : Text) (v : V) (m : Map V) → NodupKeys m → NodupKeys (insert k v m)
  unfolding insert lookup
  insert-NodupKeys k v [] _ = (refl, tt)
  insert-NodupKeys k v ((j, _) ∷ m) (fresh, u) =
      ground (arith, insert-NodupKeys k v m u, lookup-insert j k v m)

  pub remove-NodupKeys : (k : Text) (m : Map V) → NodupKeys m → NodupKeys (remove k m)
  unfolding remove
  remove-NodupKeys k [] _ = tt
  remove-NodupKeys k ((j, _) ∷ m) (fresh, u) =
      ground (arith, remove-NodupKeys k m u, lookup-remove j k m)

  pub retain-NodupKeys :
      (keep : Text → V → Bool) (m : Map V) → NodupKeys m → NodupKeys (retain keep m)
  unfolding retain
  retain-NodupKeys keep [] _ = tt
  retain-NodupKeys keep ((j, _) ∷ m) (fresh, u) =
      ground (arith, retain-NodupKeys keep m u, lookup-retain-none keep j m fresh)

  -- What an insertion of a changed value does to the values: `get_mut` and a write through it.
  pub lookup-insert_self : (k : Text) (v : V) (m : Map V) → lookup k (insert k v m) ≡ some v
  lookup-insert_self k v m = ground (arith, lookup-insert k k v m)
