-- ===== src/Json/Inspect/Measures.antt =====
-- The depth, the array entries and the widest scalar of a tree.
use magic_vault.Base.{ℕ, suc, ◌+◌, ◌≤◌, ◌<◌, arith, if◌then◌else◌, length}
use Prim.Native.Nat.{max}
use magic_vault.Json.{
  Value, Values, Members, Serde, null, bool, number, string, array, object, nil, cons, end, member,
}
use magic_vault.Json.Shape.{nodes, nodes_values, nodes_members}
use magic_vault.Json.Inspect.{count_values}

-- The nesting of containers.
unfoldable mutual
  pub depth : {N : Type 0} → Value N → ℕ
  depth (array xs) = suc (depth_values xs)
  depth (object ms) = suc (depth_members ms)
  depth _ = 0

  pub depth_values : {N : Type 0} → Values N → ℕ
  depth_values nil = 0
  depth_values (cons v xs) = max (depth v) (depth_values xs)

  pub depth_members : {N : Type 0} → Members N → ℕ
  depth_members end = 0
  depth_members (member k v ms) = max (depth v) (depth_members ms)

mutual
  unfolding nodes depth

  pub depth-le-nodes : {N : Type 0} (v : Value N) → depth v ≤ nodes v
  depth-le-nodes null = omega arith
  depth-le-nodes (bool _) = omega arith
  depth-le-nodes (number _) = omega arith
  depth-le-nodes (string _) = omega arith
  depth-le-nodes (array xs) = omega (arith, depth_values-le xs)
  depth-le-nodes (object ms) = omega (arith, depth_members-le ms)

  depth_values-le : {N : Type 0} (xs : Values N) → depth_values xs ≤ nodes_values xs
  depth_values-le nil = omega arith
  depth_values-le (cons v xs) = omega (arith, depth-le-nodes v, depth_values-le xs)

  depth_members-le : {N : Type 0} (ms : Members N) → depth_members ms ≤ nodes_members ms
  depth_members-le end = omega arith
  depth_members-le (member _ v ms) = omega (arith, depth-le-nodes v, depth_members-le ms)

-- The elements of all arrays.
unfoldable mutual
  pub entries : {N : Type 0} → Value N → ℕ
  entries (array xs) = count_values xs + entries_values xs
  entries (object ms) = entries_members ms
  entries _ = 0

  pub entries_values : {N : Type 0} → Values N → ℕ
  entries_values nil = 0
  entries_values (cons v xs) = entries v + entries_values xs

  pub entries_members : {N : Type 0} → Members N → ℕ
  entries_members end = 0
  entries_members (member k v ms) = entries v + entries_members ms

mutual
  unfolding nodes entries count_values

  pub entries-lt-nodes : {N : Type 0} (v : Value N) → entries v < nodes v
  entries-lt-nodes null = omega arith
  entries-lt-nodes (bool _) = omega arith
  entries-lt-nodes (number _) = omega arith
  entries-lt-nodes (string _) = omega arith
  entries-lt-nodes (array xs) = omega (arith, entries_values-le xs)
  entries-lt-nodes (object ms) = omega (arith, entries_members-le ms)

  entries_values-le :
      {N : Type 0} (xs : Values N) → count_values xs + entries_values xs ≤ nodes_values xs
  entries_values-le nil = omega arith
  entries_values-le (cons v xs) = omega (arith, entries-lt-nodes v, entries_values-le xs)

  entries_members-le : {N : Type 0} (ms : Members N) → entries_members ms ≤ nodes_members ms
  entries_members-le end = omega arith
  entries_members-le (member _ v ms) = omega (arith, entries-lt-nodes v, entries_members-le ms)

-- The longest scalar, a string without its quotes.
module _ {N : Type 0} (serde : Serde N) where
  unfoldable mutual
    pub widest : Value N → ℕ
    widest null = 0
    widest (bool b) = if b then 4 else 5
    widest (number n) = length (serde.number_text n)
    widest (string s) = length s
    widest (array xs) = widest_values xs
    widest (object ms) = widest_members ms

    pub widest_values : Values N → ℕ
    widest_values nil = 0
    widest_values (cons v xs) = max (widest v) (widest_values xs)

    pub widest_members : Members N → ℕ
    widest_members end = 0
    widest_members (member k v ms) = max (widest v) (widest_members ms)
