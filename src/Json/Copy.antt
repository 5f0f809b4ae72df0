-- ===== src/Json/Copy.antt =====
-- `clone_json_iteratively`, `canonicalize_json`, `canonicalize_json_owned` and `clone_json_bounded`
-- of json_traversal.rs. The loops that rebuild a value differ in the order in which the members of
-- an object are walked, `order` here. What is produced is attached to the innermost frame.
pub mod Rebuilt
use Prim.Native.Nat.{Ordering}
use mathlib.Core.Option.{map}
use magic_vault.Base.{ℕ, suc, Text, ◌||◌, ltb, if◌then◌else◌, List, [], ◌∷◌, Option, none, some}
use magic_vault.Base.Bytes.{compare_text}
use magic_vault.Json.{Value, Values, Members, Serde, array, object, nil, cons, end, member}
use magic_vault.Json.Loop.{Round, next, return, loop_for}
use magic_vault.Json.Sorted.{sort_members}
use magic_vault.Json.Inspect.{JsonMetrics, inspect_json_bounded}
use magic_vault.Json.Measure.{exact_json_encoded_len}

-- What a container still has to visit, and what was built of it; for an object also the key of the
-- child that is being built.
pub data BuildFrame (N : Type 0) : Type 0 where
  array_build : Values N → Values N → BuildFrame N
  object_build : Members N → Members N → Text → BuildFrame N

-- `current` while `produced` is empty, or the value that `produced` holds.
pub data Building (N : Type 0) : Type 0 where
  visit : Value N → List (BuildFrame N) → Building N
  produced : Value N → List (BuildFrame N) → Building N

unfoldable pub push : {N : Type 0} → Values N → Value N → Values N
push nil v = cons v nil
push (cons x xs) v = cons x (push xs v)

-- `Map::insert` of a `BTreeMap`: the keys stay in order, and an entry with the key is replaced.
unfoldable pub insert_member : {N : Type 0} → Text → Value N → Members N → Members N
insert_member k v end = member k v end
insert_member k v (member j u ms) =
    let rest = insert_member k v ms in
    elim (compare_text k j) [
      | Ordering.lt ↦ member k v (member j u ms)
      | Ordering.eq ↦ member k v ms
      | Ordering.gt ↦ member j u rest
    ]

unfoldable pub attach : {N : Type 0} → Value N → List (BuildFrame N) → Round (Building N) (Value N)
unfolding push insert_member
attach v [] = return v
attach v (array_build nil out ∷ fs) = next (produced (array (push out v)) fs)
attach v (array_build (cons x xs) out ∷ fs) = next (visit x (array_build xs (push out v) ∷ fs))
attach v (object_build end out key ∷ fs) = next (produced (object (insert_member key v out)) fs)
attach v (object_build (member k x ms) out key ∷ fs) =
    next (visit x (object_build ms (insert_member key v out) k ∷ fs))

module _ {N : Type 0} (order : Members N → Members N) where
  abbrev pub open_object : Members N → List (BuildFrame N) → Round (Building N) (Value N)
  open_object end fs = attach (object end) fs
  open_object (member k x ms) fs = next (visit x (object_build ms end k ∷ fs))

  unfoldable pub build_value : Value N → List (BuildFrame N) → Round (Building N) (Value N)
  unfolding attach
  build_value (array nil) fs = attach (array nil) fs
  build_value (array (cons x xs)) fs = next (visit x (array_build xs nil ∷ fs))
  build_value (object ms) fs = open_object (order ms) fs
  build_value v fs = attach v fs

  unfoldable pub build_round : Building N → Round (Building N) (Value N)
  unfolding build_value attach
  build_round (visit v fs) = build_value v fs
  build_round (produced v fs) = attach v fs

-- Rounds that are enough for a rebuilding that has `n` rounds left: one for a value, and one more
-- to attach a container.
unfoldable mutual
  pub builds : {N : Type 0} → Value N → ℕ → ℕ
  builds (array xs) n = suc (builds_values xs n)
  builds (object ms) n = suc (builds_members ms n)
  builds _ n = suc n

  pub builds_values : {N : Type 0} → Values N → ℕ → ℕ
  builds_values nil n = suc n
  builds_values (cons v xs) n = builds v (builds_values xs n)

  pub builds_members : {N : Type 0} → Members N → ℕ → ℕ
  builds_members end n = suc n
  builds_members (member k v ms) n = builds v (builds_members ms n)

unfoldable pub build : {N : Type 0} → (Members N → Members N) → Value N → Option (Value N)
unfolding build_round loop_for builds
build order root = loop_for (builds root 0) (build_round order) (visit root [])

unfoldable pub clone_json_iteratively : {N : Type 0} → Value N → Option (Value N)
unfolding build
clone_json_iteratively = build (λ ms. ms)

unfoldable pub canonicalize_json : {N : Type 0} → Value N → Option (Value N)
unfolding build sort_members
canonicalize_json = build sort_members

unfoldable pub canonicalize_json_owned : {N : Type 0} → Value N → Option (Value N)
unfolding build sort_members
canonicalize_json_owned = build sort_members

-- The outer option is `none` if the rounds of a loop were not enough.
module _ {N : Type 0} (serde : Serde N) where
  abbrev pub clone_admitted :
      Value N → ℕ → ℕ → Option JsonMetrics → Option ℕ → Option (Value N) → Option (Option (Value N))
  clone_admitted root max_bytes max_depth none len copy = some none
  clone_admitted root max_bytes max_depth (some metrics) none copy = none
  clone_admitted root max_bytes max_depth (some metrics) (some len) copy =
      if ltb max_depth metrics.max_depth || ltb max_bytes len then some none else map some copy

  unfoldable pub clone_json_bounded : Value N → ℕ → ℕ → ℕ → Option (Option (Value N))
  unfolding inspect_json_bounded exact_json_encoded_len clone_json_iteratively
  clone_json_bounded root max_nodes max_bytes max_depth =
      elim (inspect_json_bounded serde root max_nodes) [
        | none ↦ none
        | some metrics ↦
            clone_admitted root max_bytes max_depth metrics (exact_json_encoded_len serde root)
              (clone_json_iteratively root)
      ]
