-- ===== src/Json/Sorted.antt =====
-- The order of an object's members: `entries.sort_by(|left, right| left.0.cmp(right.0))`, and the
-- value with the members of every object in that order.
use Prim.Native.Nat.{Ordering}
use magic_vault.Base.{ℕ, suc, Text, ◌≡◌, refl, ap, ◌∙◌, arith}
use magic_vault.Base.Bytes.{compare_text}
use magic_vault.Json.{
  Value, Values, Members, null, bool, number, string, array, object, nil, cons, end, member,
}
use magic_vault.Json.Shape.{AllMembers, rounds, rounds_members, rounds-add}

module _ {N : Type 0} where
  -- A stable sort keeps an entry before the entries with its key that follow it.
  unfoldable pub insert_sorted : Text → Value N → Members N → Members N
  insert_sorted k v end = member k v end
  insert_sorted k v (member j u ms) = elim (compare_text k j) [
    | Ordering.gt ↦ member j u (insert_sorted k v ms)
    | _ ↦ member k v (member j u ms)
  ]

  unfoldable pub sort_members : Members N → Members N
  unfolding insert_sorted
  sort_members end = end
  sort_members (member k v ms) = insert_sorted k v (sort_members ms)

-- The members of every object in the order `order`.
module _ {N : Type 0} (order : Members N → Members N) where
  unfoldable mutual
    pub arranged : Value N → Value N
    arranged null = null
    arranged (bool b) = bool b
    arranged (number n) = number n
    arranged (string s) = string s
    arranged (array xs) = array (arranged_values xs)
    arranged (object ms) = object (order (arranged_members ms))

    pub arranged_values : Values N → Values N
    arranged_values nil = nil
    arranged_values (cons v xs) = cons (arranged v) (arranged_values xs)

    pub arranged_members : Members N → Members N
    arranged_members end = end
    arranged_members (member k v ms) = member k (arranged v) (arranged_members ms)

-- The same members in another order.
pub data Reordered {N : Type 0} : Members N → Members N → Type 0 where
  same : {ms : Members N} → Reordered ms ms
  below :
      (k : Text) (v : Value N) {ms ns : Members N}
      → Reordered ms ns
      → Reordered (member k v ms) (member k v ns)
  swap :
      (j k : Text) (u v : Value N) (ms : Members N)
      → Reordered (member j u (member k v ms)) (member k v (member j u ms))
  then : {ms ns os : Members N} → Reordered ms ns → Reordered ns os → Reordered ms os

unfoldable pub map_members : {N : Type 0} → (Value N → Value N) → Members N → Members N
map_members f end = end
map_members f (member k v ms) = member k (f v) (map_members f ms)

-- What the walks need of an order: it keeps the members, and it looks at keys alone.
pub record IsOrder {N : Type 0} (order : Members N → Members N) : Type 0 where
  pub reorders : (ms : Members N) → Reordered ms (order ms)
  pub by_keys :
      (f : Value N → Value N) (ms : Members N) → map_members f (order ms) ≡ order (map_members f ms)

module _ {N : Type 0} where
  pub AllMembers-Reordered :
      (P : Value N → Type 0) {ms ns : Members N}
      → Reordered ms ns
      → AllMembers P ms
      → AllMembers P ns
  AllMembers-Reordered P same ps = ps
  AllMembers-Reordered P (below k v r) (p, ps) = (p, AllMembers-Reordered P r ps)
  AllMembers-Reordered P (swap j k u v ms) (p, (q, ps)) = (q, (p, ps))
  AllMembers-Reordered P (then r t) ps = AllMembers-Reordered P t (AllMembers-Reordered P r ps)

  rounds_swap : (u v : Value N) (n : ℕ) → rounds u (suc (rounds v n)) ≡ rounds v (suc (rounds u n))
  rounds_swap u v n = omega (
    arith,
    rounds-add u (suc (rounds v n)),
    rounds-add v n,
    rounds-add v (suc (rounds u n)),
    rounds-add u n,
  )

  pub rounds_members-Reordered :
      {ms ns : Members N} → Reordered ms ns → (n : ℕ) → rounds_members ms n ≡ rounds_members ns n
  unfolding rounds
  rounds_members-Reordered same n = refl
  rounds_members-Reordered (below k v r) n =
      ap (λ m. suc (rounds v m)) (rounds_members-Reordered r n)
  rounds_members-Reordered (swap j k u v ms) n = ap suc (rounds_swap u v (rounds_members ms n))
  rounds_members-Reordered (then r t) n =
      rounds_members-Reordered r n ∙ rounds_members-Reordered t n

  insert_sorted-Reordered :
      (k : Text) (v : Value N) (ms : Members N) → Reordered (member k v ms) (insert_sorted k v ms)
  unfolding insert_sorted
  insert_sorted-Reordered k v end = same
  insert_sorted-Reordered k v (member j u ms) =
      let later : Reordered (member k v (member j u ms)) (member j u (insert_sorted k v ms)) =
        then (swap k j v u ms) (below j u (insert_sorted-Reordered k v ms)) in
      elim (compare_text k j)
        as (λ o. Reordered (member k v (member j u ms)) (elim o [
          | Ordering.gt ↦ member j u (insert_sorted k v ms)
          | _ ↦ member k v (member j u ms)
        ])) [ Ordering.gt ↦ later | Ordering.lt ↦ same | Ordering.eq ↦ same ]

  pub sort_members-Reordered : (ms : Members N) → Reordered ms (sort_members ms)
  unfolding sort_members
  sort_members-Reordered end = same
  sort_members-Reordered (member k v ms) =
      then (below k v (sort_members-Reordered ms)) (insert_sorted-Reordered k v (sort_members ms))

  map_members-insert_sorted :
      (f : Value N → Value N) (k : Text) (v : Value N) (ms : Members N)
      → map_members f (insert_sorted k v ms) ≡ insert_sorted k (f v) (map_members f ms)
  unfolding insert_sorted map_members
  map_members-insert_sorted f k v end = refl
  map_members-insert_sorted f k v (member j u ms) =
      ground (arith, map_members-insert_sorted f k v ms)

  map_members-sort :
      (f : Value N → Value N) (ms : Members N)
      → map_members f (sort_members ms) ≡ sort_members (map_members f ms)
  unfolding sort_members map_members
  map_members-sort f end = refl
  map_members-sort f (member k v ms) =
      map_members-insert_sorted f k v (sort_members ms)
      ∙ ap (insert_sorted k (f v)) (map_members-sort f ms)

  pub sort_members-IsOrder : IsOrder {N = N} sort_members
  sort_members-IsOrder = record { reorders = sort_members-Reordered; by_keys = map_members-sort }

  pub same-IsOrder : IsOrder {N = N} (λ ms. ms)
  same-IsOrder = record { reorders = λ ms. same; by_keys = λ f ms. refl }

  pub arranged_members-map :
      (order : Members N → Members N) (ms : Members N)
      → arranged_members order ms ≡ map_members (arranged order) ms
  unfolding arranged map_members
  arranged_members-map order end = refl
  arranged_members-map order (member k v ms) =
      ap (member k (arranged order v)) (arranged_members-map order ms)

mutual
  unfolding arranged

  pub arranged_same : {N : Type 0} (v : Value N) → arranged (λ ms. ms) v ≡ v
  arranged_same null = refl
  arranged_same (bool _) = refl
  arranged_same (number _) = refl
  arranged_same (string _) = refl
  arranged_same (array xs) = ap array (arranged_values_same xs)
  arranged_same (object ms) = ap object (arranged_members_same ms)

  arranged_values_same : {N : Type 0} (xs : Values N) → arranged_values (λ ms. ms) xs ≡ xs
  arranged_values_same nil = refl
  arranged_values_same (cons v xs) = rw (arranged_same v, arranged_values_same xs) refl

  arranged_members_same : {N : Type 0} (ms : Members N) → arranged_members (λ ms. ms) ms ≡ ms
  arranged_members_same end = refl
  arranged_members_same (member k v ms) = rw (arranged_same v, arranged_members_same ms) refl
