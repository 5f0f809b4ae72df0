-- ===== src/Json/Ordered/Canonical.antt =====
-- `canonicalize_json` and `clone_json_iteratively` on values with distinct keys, and on values
-- whose keys are in order.
use magic_vault.Base.{◌≡◌, refl, ap, ◌∙◌, arith, Text, some}
use magic_vault.Base.Order.{compare_text_refl}
use magic_vault.Json.{
  Value, Values, Members, null, bool, number, string, array, object, nil, cons, end, member,
}
use magic_vault.Json.Sorted.{
  sort_members, sort_members-Reordered, arranged, arranged_values, arranged_members,
}
use magic_vault.Json.Copy.{clone_json_iteratively, canonicalize_json}
use magic_vault.Json.Copy.Rebuilt.{
  insert_all, rebuilt, rebuilt_values, rebuilt_members, clone-rebuilt, canonicalize-rebuilt,
}
use magic_vault.Json.Ordered.{
  Above, Ascending, Absent, Distinct, EveryObject, EveryValues, EveryMembers, insert_all-Ascending,
  sort_members-Distinct, sort_members-Ascending, EveryMembers-Reordered,
}

module _ {N : Type 0} where
  arranged_members-Absent :
      (k : Text) (ms : Members N) → Absent k ms → Absent k (arranged_members sort_members ms)
  unfolding arranged
  arranged_members-Absent k end _ = tt
  arranged_members-Absent k (member j u ms) (d, ds) = (d, arranged_members-Absent k ms ds)

  pub arranged_members-Distinct :
      (ms : Members N) → Distinct ms → Distinct (arranged_members sort_members ms)
  unfolding arranged
  arranged_members-Distinct end _ = tt
  arranged_members-Distinct (member k v ms) (d, ds) =
      (arranged_members-Absent k ms d, arranged_members-Distinct ms ds)

mutual
  unfolding rebuilt arranged EveryObject

  rebuilt-Distinct :
      {N : Type 0} (v : Value N)
      → EveryObject Distinct v
      → rebuilt sort_members v ≡ arranged sort_members v
  rebuilt-Distinct null _ = refl
  rebuilt-Distinct (bool _) _ = refl
  rebuilt-Distinct (number _) _ = refl
  rebuilt-Distinct (string _) _ = refl
  rebuilt-Distinct (array xs) h = ap array (rebuilt_values-Distinct xs h)
  rebuilt-Distinct (object ms) (d, h) = ap object (
      ap (λ ns. insert_all end (sort_members ns)) (rebuilt_members-Distinct ms h)
      ∙ insert_all-Ascending (sort_members (arranged_members sort_members ms)) (
          sort_members-Distinct (arranged_members sort_members ms)
            (arranged_members-Distinct ms d)))

  rebuilt_values-Distinct :
      {N : Type 0} (xs : Values N)
      → EveryValues Distinct xs
      → rebuilt_values sort_members xs ≡ arranged_values sort_members xs
  rebuilt_values-Distinct nil _ = refl
  rebuilt_values-Distinct (cons v xs) (h, hs) =
      rw (rebuilt-Distinct v h, rebuilt_values-Distinct xs hs) refl

  rebuilt_members-Distinct :
      {N : Type 0} (ms : Members N)
      → EveryMembers Distinct ms
      → rebuilt_members sort_members ms ≡ arranged_members sort_members ms
  rebuilt_members-Distinct end _ = refl
  rebuilt_members-Distinct (member k v ms) (h, hs) =
      rw (rebuilt-Distinct v h, rebuilt_members-Distinct ms hs) refl

-- A value whose keys are in order is left as it is.
mutual
  unfolding rebuilt EveryObject

  rebuilt-Ascending :
      {N : Type 0} (v : Value N) → EveryObject Ascending v → rebuilt (λ ms. ms) v ≡ v
  rebuilt-Ascending null _ = refl
  rebuilt-Ascending (bool _) _ = refl
  rebuilt-Ascending (number _) _ = refl
  rebuilt-Ascending (string _) _ = refl
  rebuilt-Ascending (array xs) h = ap array (rebuilt_values-Ascending xs h)
  rebuilt-Ascending (object ms) (d, h) =
      ap object (ap (insert_all end) (rebuilt_members-Ascending ms h) ∙ insert_all-Ascending ms d)

  rebuilt_values-Ascending :
      {N : Type 0} (xs : Values N) → EveryValues Ascending xs → rebuilt_values (λ ms. ms) xs ≡ xs
  rebuilt_values-Ascending nil _ = refl
  rebuilt_values-Ascending (cons v xs) (h, hs) =
      rw (rebuilt-Ascending v h, rebuilt_values-Ascending xs hs) refl

  rebuilt_members-Ascending :
      {N : Type 0} (ms : Members N) → EveryMembers Ascending ms → rebuilt_members (λ ms. ms) ms ≡ ms
  rebuilt_members-Ascending end _ = refl
  rebuilt_members-Ascending (member k v ms) (h, hs) =
      rw (rebuilt-Ascending v h, rebuilt_members-Ascending ms hs) refl

pub clone_json_iteratively-same :
    {N : Type 0} (root : Value N)
    → EveryObject Ascending root
    → clone_json_iteratively root ≡ some root
clone_json_iteratively-same root h = clone-rebuilt root ∙ ap some (rebuilt-Ascending root h)

pub canonicalize_json-arranged :
    {N : Type 0} (root : Value N)
    → EveryObject Distinct root
    → canonicalize_json root ≡ some (arranged sort_members root)
canonicalize_json-arranged root h = canonicalize-rebuilt root ∙ ap some (rebuilt-Distinct root h)

-- The arrangement has its keys in order.
mutual
  unfolding arranged EveryObject

  pub arranged-Ascending :
      {N : Type 0} (v : Value N)
      → EveryObject Distinct v
      → EveryObject Ascending (arranged sort_members v)
  arranged-Ascending null _ = tt
  arranged-Ascending (bool _) _ = tt
  arranged-Ascending (number _) _ = tt
  arranged-Ascending (string _) _ = tt
  arranged-Ascending (array xs) h = arranged_values-Ascending xs h
  arranged-Ascending (object ms) (d, h) = (
    sort_members-Distinct (arranged_members sort_members ms) (arranged_members-Distinct ms d),
    EveryMembers-Reordered Ascending (sort_members-Reordered (arranged_members sort_members ms))
        (arranged_members-Ascending ms h),
  )

  arranged_values-Ascending :
      {N : Type 0} (xs : Values N)
      → EveryValues Distinct xs
      → EveryValues Ascending (arranged_values sort_members xs)
  arranged_values-Ascending nil _ = tt
  arranged_values-Ascending (cons v xs) (h, hs) =
      (arranged-Ascending v h, arranged_values-Ascending xs hs)

  arranged_members-Ascending :
      {N : Type 0} (ms : Members N)
      → EveryMembers Distinct ms
      → EveryMembers Ascending (arranged_members sort_members ms)
  arranged_members-Ascending end _ = tt
  arranged_members-Ascending (member k v ms) (h, hs) =
      (arranged-Ascending v h, arranged_members-Ascending ms hs)

-- Keys in order are distinct, and their arrangement is the value itself.
Above-Absent : {N : Type 0} (k : Text) (ms : Members N) → Above k ms → Absent k ms
Above-Absent k end _ = tt
Above-Absent k (member j u ms) (p, ps) =
    ((λ e. absurd (ground (arith, p, e, compare_text_refl k))), Above-Absent k ms ps)

Ascending-Distinct : {N : Type 0} (ms : Members N) → Ascending ms → Distinct ms
Ascending-Distinct end _ = tt
Ascending-Distinct (member k v ms) (p, ps) = (Above-Absent k ms p, Ascending-Distinct ms ps)

mutual
  unfolding EveryObject

  pub Every-Distinct : {N : Type 0} (v : Value N) → EveryObject Ascending v → EveryObject Distinct v
  Every-Distinct null _ = tt
  Every-Distinct (bool _) _ = tt
  Every-Distinct (number _) _ = tt
  Every-Distinct (string _) _ = tt
  Every-Distinct (array xs) h = EveryValues-Distinct xs h
  Every-Distinct (object ms) (d, h) = (Ascending-Distinct ms d, EveryMembers-Distinct ms h)

  EveryValues-Distinct :
      {N : Type 0} (xs : Values N) → EveryValues Ascending xs → EveryValues Distinct xs
  EveryValues-Distinct nil _ = tt
  EveryValues-Distinct (cons v xs) (h, hs) = (Every-Distinct v h, EveryValues-Distinct xs hs)

  EveryMembers-Distinct :
      {N : Type 0} (ms : Members N) → EveryMembers Ascending ms → EveryMembers Distinct ms
  EveryMembers-Distinct end _ = tt
  EveryMembers-Distinct (member k v ms) (h, hs) = (Every-Distinct v h, EveryMembers-Distinct ms hs)

mutual
  unfolding arranged EveryObject

  pub arranged_stays :
      {N : Type 0} (v : Value N) → EveryObject Ascending v → arranged sort_members v ≡ v
  arranged_stays null _ = refl
  arranged_stays (bool _) _ = refl
  arranged_stays (number _) _ = refl
  arranged_stays (string _) _ = refl
  arranged_stays (array xs) h = ap array (arranged_values_stay xs h)
  arranged_stays (object ms) (d, h) =
      ap object (ap sort_members (arranged_members_stay ms h) ∙ sort_members-Ascending ms d)

  arranged_values_stay :
      {N : Type 0} (xs : Values N) → EveryValues Ascending xs → arranged_values sort_members xs ≡ xs
  arranged_values_stay nil _ = refl
  arranged_values_stay (cons v xs) (h, hs) =
      rw (arranged_stays v h, arranged_values_stay xs hs) refl

  arranged_members_stay :
      {N : Type 0} (ms : Members N)
      → EveryMembers Ascending ms
      → arranged_members sort_members ms ≡ ms
  arranged_members_stay end _ = refl
  arranged_members_stay (member k v ms) (h, hs) =
      rw (arranged_stays v h, arranged_members_stay ms hs) refl
