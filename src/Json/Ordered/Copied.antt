-- ===== src/Json/Ordered/Copied.antt =====
-- What `canonicalize_json` returns: the value with the members of every object in the order of their
-- keys, and no member or element lost.
use mathlib.Core.Path.{subst}
use magic_vault.Base.{◌≡◌, sym, ap, ◌∙◌, some}
use magic_vault.Json.{
  Value, Values, Members, null, bool, number, string, array, object, nil, cons, end, member,
}
use magic_vault.Json.Shape.{AllMembers}
use magic_vault.Json.Sorted.{
  sort_members, sort_members-IsOrder, map_members, AllMembers-Reordered, arranged, arranged_values,
  arranged_members, arranged_members-map,
}
use magic_vault.Json.Copy.{canonicalize_json}
use magic_vault.Json.Ordered.{Ascending, Distinct, EveryObject}
use magic_vault.Json.Ordered.Canonical.{
  canonicalize_json-arranged, arranged-Ascending, arranged_stays, Every-Distinct,
}
use magic_vault.Json.Ordered.Alike.{
  Alike, itself, arrays, objects, AlikeValues, no_values, values_alike, AlikeMembers, no_members,
  members_alike,
}

module _ {N : Type 0} (f : Value N → Value N) where
  AlikeMembers-map :
      (ms : Members N) → AllMembers (λ v. Alike v (f v)) ms → AlikeMembers ms (map_members f ms)
  unfolding map_members
  AlikeMembers-map end _ = no_members
  AlikeMembers-map (member k v ms) (a, rest) = members_alike k a (AlikeMembers-map ms rest)

sort_members-arranged :
    {N : Type 0} (ms : Members N)
    → map_members (arranged sort_members) (sort_members ms)
      ≡ sort_members (arranged_members sort_members ms)
sort_members-arranged ms =
    sort_members-IsOrder.by_keys (arranged sort_members) ms
    ∙ ap sort_members (sym (arranged_members-map sort_members ms))

mutual
  unfolding arranged

  Alike-arranged : {N : Type 0} (v : Value N) → Alike v (arranged sort_members v)
  Alike-arranged null = itself null
  Alike-arranged (bool b) = itself (bool b)
  Alike-arranged (number n) = itself (number n)
  Alike-arranged (string s) = itself (string s)
  Alike-arranged (array xs) = arrays (AlikeValues-arranged xs)
  Alike-arranged (object ms) = objects (sort_members-IsOrder.reorders ms) (
      subst (AlikeMembers (sort_members ms)) (sort_members-arranged ms) (
        AlikeMembers-map (arranged sort_members) (sort_members ms) (
          AllMembers-Reordered (λ v. Alike v (arranged sort_members v))
            (sort_members-IsOrder.reorders ms) (AllMembers-arranged ms))))

  AlikeValues-arranged :
      {N : Type 0} (xs : Values N) → AlikeValues xs (arranged_values sort_members xs)
  AlikeValues-arranged nil = no_values
  AlikeValues-arranged (cons v xs) = values_alike (Alike-arranged v) (AlikeValues-arranged xs)

  AllMembers-arranged :
      {N : Type 0} (ms : Members N) → AllMembers (λ v. Alike v (arranged sort_members v)) ms
  AllMembers-arranged end = tt
  AllMembers-arranged (member k v ms) = (Alike-arranged v, AllMembers-arranged ms)

-- For a value with distinct keys in each object `canonicalize_json` returns a value whose keys are
-- in strictly increasing order in each object, which differs from the given one in the order of the
-- members of its objects alone, at any depth, and which it returns again when it is given that.
pub canonicalize_json-Alike :
    {N : Type 0} (root : Value N)
    → EveryObject Distinct root
    → (v : Value N) × ((canonicalize_json root ≡ some v)
        × (EveryObject Ascending v × (Alike root v × (canonicalize_json v ≡ some v))))
canonicalize_json-Alike root h =
    let v = arranged sort_members root in
    let ordered = arranged-Ascending root h in
    (
      v,
      (
        canonicalize_json-arranged root h,
        (
          ordered,
          (
            Alike-arranged root,
            canonicalize_json-arranged v (Every-Distinct v ordered)
                ∙ ap some (arranged_stays v ordered),
          ),
        ),
      ),
    )
