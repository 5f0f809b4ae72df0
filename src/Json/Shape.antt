-- ===== src/Json/Shape.antt =====
-- The values of a tree and the rounds that a loop takes to walk it.
use magic_vault.Base.{ℕ, suc, ◌+◌, ◌*◌, ◌≤◌, ◌<◌, ◌≡◌, arith}
use magic_vault.Json.{
  Value, Values, Members, null, bool, number, string, array, object, nil, cons, end, member,
}

unfoldable mutual
  pub nodes : {N : Type 0} → Value N → ℕ
  nodes (array xs) = suc (nodes_values xs)
  nodes (object ms) = suc (nodes_members ms)
  nodes _ = 1

  pub nodes_values : {N : Type 0} → Values N → ℕ
  nodes_values nil = 0
  nodes_values (cons v xs) = nodes v + nodes_values xs

  pub nodes_members : {N : Type 0} → Members N → ℕ
  nodes_members end = 0
  nodes_members (member k v ms) = nodes v + nodes_members ms

-- The rounds of a walk that visits the value and then has `n` rounds left: one for the value, and
-- for a container one for each step of its frame to a child and one to close the frame.
unfoldable mutual
  pub rounds : {N : Type 0} → Value N → ℕ → ℕ
  rounds (array xs) n = suc (rounds_values xs n)
  rounds (object ms) n = suc (rounds_members ms n)
  rounds _ n = suc n

  pub rounds_values : {N : Type 0} → Values N → ℕ → ℕ
  rounds_values nil n = suc n
  rounds_values (cons v xs) n = suc (rounds v (rounds_values xs n))

  pub rounds_members : {N : Type 0} → Members N → ℕ → ℕ
  rounds_members end n = suc n
  rounds_members (member k v ms) n = suc (rounds v (rounds_members ms n))

mutual
  unfolding nodes rounds

  rounds-lt : {N : Type 0} (v : Value N) (n : ℕ) → rounds v n < 3 * nodes v + n
  rounds-lt null n = omega arith
  rounds-lt (bool _) n = omega arith
  rounds-lt (number _) n = omega arith
  rounds-lt (string _) n = omega arith
  rounds-lt (array xs) n = omega (arith, rounds_values-le xs n)
  rounds-lt (object ms) n = omega (arith, rounds_members-le ms n)

  rounds_values-le :
      {N : Type 0} (xs : Values N) (n : ℕ) → rounds_values xs n ≤ 3 * nodes_values xs + 1 + n
  rounds_values-le nil n = omega arith
  rounds_values-le (cons v xs) n =
      omega (arith, rounds-lt v (rounds_values xs n), rounds_values-le xs n)

  rounds_members-le :
      {N : Type 0} (ms : Members N) (n : ℕ) → rounds_members ms n ≤ 3 * nodes_members ms + 1 + n
  rounds_members-le end n = omega arith
  rounds_members-le (member _ v ms) n =
      omega (arith, rounds-lt v (rounds_members ms n), rounds_members-le ms n)

pub rounds-le-nodes : {N : Type 0} (v : Value N) → rounds v 1 ≤ 3 * nodes v
rounds-le-nodes v = omega (arith, rounds-lt v 1)

-- The order in which a loop walks the members of an object: none is lost, and the walk is as long.
module _ {N : Type 0} where
  abbrev pub AllMembers {κ} : (Value N → Type κ) → Members N → Type κ
  AllMembers P end = Unit
  AllMembers P (member k v ms) = P v × AllMembers P ms

-- The rounds left at the end are counted once.
mutual
  unfolding rounds

  pub rounds-add : {N : Type 0} (v : Value N) (n : ℕ) → rounds v n ≡ rounds v 0 + n
  rounds-add null n = omega arith
  rounds-add (bool _) n = omega arith
  rounds-add (number _) n = omega arith
  rounds-add (string _) n = omega arith
  rounds-add (array xs) n = omega (arith, rounds_values-add xs n)
  rounds-add (object ms) n = omega (arith, rounds_members-add ms n)

  rounds_values-add :
      {N : Type 0} (xs : Values N) (n : ℕ) → rounds_values xs n ≡ rounds_values xs 0 + n
  rounds_values-add nil n = omega arith
  rounds_values-add (cons v xs) n = omega (
    arith,
    rounds-add v (rounds_values xs n),
    rounds-add v (rounds_values xs 0),
    rounds_values-add xs n,
  )

  pub rounds_members-add :
      {N : Type 0} (ms : Members N) (n : ℕ) → rounds_members ms n ≡ rounds_members ms 0 + n
  rounds_members-add end n = omega arith
  rounds_members-add (member _ v ms) n = omega (
    arith,
    rounds-add v (rounds_members ms n),
    rounds-add v (rounds_members ms 0),
    rounds_members-add ms n,
  )
