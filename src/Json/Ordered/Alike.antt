-- ===== src/Json/Ordered/Alike.antt =====
-- Values that differ only in the order of the members of their objects.
use Prim.Native.Nat.{Ordering}
use mathlib.Core.Path.{subst}
use magic_vault.Base.{◌≡◌, ◌≢◌, refl, sym, ap, ◌∙◌, arith, Text, inl, inr, some}
use magic_vault.Base.Bytes.{compare_text}
use magic_vault.Base.Order.{
  Ordering-cases, compare_text-above, compare_text_trans, eq_of_compare_text, compare_text-flip,
}
use magic_vault.Json.{Value, Values, Members, Serde, array, object, nil, cons, end, member}
use magic_vault.Json.Sorted.{
  Reordered, same, below, swap, then, sort_members, insert_sorted, arranged, arranged_values,
  arranged_members,
}
use magic_vault.Json.Compact.{pieces}
use magic_vault.Json.Buffers.{concat}
use magic_vault.Json.Measure.{canonical_json_bytes}
use magic_vault.Json.Measure.Exact.{canonical_json_bytes-canonical}
use magic_vault.Json.Ordered.{
  Absent, Distinct, EveryObject, EveryValues, EveryMembers, EveryMembers-Reordered,
}
use magic_vault.Json.Ordered.Canonical.{arranged_members-Distinct}

mutual
  pub data Alike {N : Type 0} : Value N → Value N → Type 0 where
    itself : (v : Value N) → Alike v v
    arrays : {xs ys : Values N} → AlikeValues xs ys → Alike (array xs) (array ys)
    objects :
        {ms ns os : Members N}
        → Reordered ms ns
        → AlikeMembers ns os
        → Alike (object ms) (object os)

  pub data AlikeValues {N : Type 0} : Values N → Values N → Type 0 where
    no_values : AlikeValues nil nil
    values_alike :
        {v w : Value N} {xs ys : Values N}
        → Alike v w
        → AlikeValues xs ys
        → AlikeValues (cons v xs) (cons w ys)

  pub data AlikeMembers {N : Type 0} : Members N → Members N → Type 0 where
    no_members : AlikeMembers end end
    members_alike :
        (k : Text) {v w : Value N} {ms ns : Members N}
        → Alike v w
        → AlikeMembers ms ns
        → AlikeMembers (member k v ms) (member k w ns)

module _ {N : Type 0} where
  insert_sorted_comm_lt :
      (j k : Text) (u v : Value N) (ms : Members N)
      → compare_text j k ≡ Ordering.lt
      → compare_text k j ≡ Ordering.gt
      → insert_sorted j u (insert_sorted k v ms) ≡ insert_sorted k v (insert_sorted j u ms)
  unfolding insert_sorted
  insert_sorted_comm_lt j k u v end p q = ground (arith, p, q)
  insert_sorted_comm_lt j k u v (member i w ms) p q = elim (Ordering-cases (compare_text k i)) [
    | inl lower ↦
        let e : compare_text j i ≡ Ordering.lt = compare_text_trans j k i p lower in
        ground (arith, p, q, lower, e)
    | inr (inl equal) ↦
        let e : compare_text j i ≡ Ordering.lt =
          subst (λ t. compare_text j t ≡ Ordering.lt) (eq_of_compare_text k i equal) p in
        ground (arith, p, q, equal, e)
    | inr (inr upper) ↦ ground (arith, p, q, upper, insert_sorted_comm_lt j k u v ms p q)
  ]

  insert_sorted_comm :
      (j k : Text) (u v : Value N) (ms : Members N)
      → j ≢ k
      → insert_sorted j u (insert_sorted k v ms) ≡ insert_sorted k v (insert_sorted j u ms)
  insert_sorted_comm j k u v ms d = elim (Ordering-cases (compare_text j k)) [
    | inl lower ↦ insert_sorted_comm_lt j k u v ms lower (compare_text-above j k lower)
    | inr (inl equal) ↦ absurd (d (eq_of_compare_text j k equal))
    | inr (inr upper) ↦ sym (insert_sorted_comm_lt k j v u ms (compare_text-flip j k upper) upper)
  ]

  Absent-Reordered : {ms ns : Members N} (k : Text) → Reordered ms ns → Absent k ms → Absent k ns
  Absent-Reordered k same a = a
  Absent-Reordered k (below j v r) (p, ps) = (p, Absent-Reordered k r ps)
  Absent-Reordered k (swap i j u v ms) (p, (q, ps)) = (q, (p, ps))
  Absent-Reordered k (then r t) a = Absent-Reordered k t (Absent-Reordered k r a)

  Distinct-Reordered : {ms ns : Members N} → Reordered ms ns → Distinct ms → Distinct ns
  Distinct-Reordered same d = d
  Distinct-Reordered (below k v r) (p, ps) = (Absent-Reordered k r p, Distinct-Reordered r ps)
  Distinct-Reordered (swap j k u v ms) ((p, ps), (q, qs)) = (((λ e. p (sym e)), q), (ps, qs))
  Distinct-Reordered (then r t) d = Distinct-Reordered t (Distinct-Reordered r d)

  sort_members-Reordered :
      {ms ns : Members N} → Reordered ms ns → Distinct ms → sort_members ms ≡ sort_members ns
  unfolding sort_members
  sort_members-Reordered same d = refl
  sort_members-Reordered (below k v r) (p, ps) =
      ap (insert_sorted k v) (sort_members-Reordered r ps)
  sort_members-Reordered (swap j k u v ms) ((p, _), _) =
      insert_sorted_comm j k u v (sort_members ms) p
  sort_members-Reordered (then r t) d =
      sort_members-Reordered r d ∙ sort_members-Reordered t (Distinct-Reordered r d)

  arranged_members-Reordered :
      {ms ns : Members N}
      → Reordered ms ns
      → Reordered (arranged_members sort_members ms) (arranged_members sort_members ns)
  unfolding arranged
  arranged_members-Reordered same = same
  arranged_members-Reordered (below k v r) =
      below k (arranged sort_members v) (arranged_members-Reordered r)
  arranged_members-Reordered (swap j k u v ms) =
      swap j k (arranged sort_members u) (arranged sort_members v)
        (arranged_members sort_members ms)
  arranged_members-Reordered (then r t) =
      then (arranged_members-Reordered r) (arranged_members-Reordered t)

mutual
  unfolding arranged EveryObject

  arranged-Alike :
      {N : Type 0} {v w : Value N}
      → Alike v w
      → EveryObject Distinct v
      → arranged sort_members v ≡ arranged sort_members w
  arranged-Alike (itself v) _ = refl
  arranged-Alike (arrays h) d = ap array (arranged_values-Alike h d)
  arranged-Alike (objects {ms} {ns} {os} r h) (d, ds) = ap object (
      sort_members-Reordered (arranged_members-Reordered r) (arranged_members-Distinct ms d)
      ∙ ap sort_members (arranged_members-Alike h (EveryMembers-Reordered Distinct r ds)))

  arranged_values-Alike :
      {N : Type 0} {xs ys : Values N}
      → AlikeValues xs ys
      → EveryValues Distinct xs
      → arranged_values sort_members xs ≡ arranged_values sort_members ys
  arranged_values-Alike no_values _ = refl
  arranged_values-Alike (values_alike h hs) (d, ds) =
      rw (arranged-Alike h d, arranged_values-Alike hs ds) refl

  arranged_members-Alike :
      {N : Type 0} {ms ns : Members N}
      → AlikeMembers ms ns
      → EveryMembers Distinct ms
      → arranged_members sort_members ms ≡ arranged_members sort_members ns
  arranged_members-Alike no_members _ = refl
  arranged_members-Alike (members_alike k h hs) (d, ds) =
      rw (arranged-Alike h d, arranged_members-Alike hs ds) refl

-- Two values that differ only in the order of the members of their objects, at any depth, the
-- first with distinct keys in each object, have the same canonical bytes.
pub canonical_json_bytes-Alike :
    {N : Type 0} (serde : Serde N) {v w : Value N}
    → Alike v w
    → EveryObject Distinct v
    → canonical_json_bytes serde v ≡ canonical_json_bytes serde w
canonical_json_bytes-Alike serde {v} {w} h d =
    canonical_json_bytes-canonical serde v
    ∙ ap (λ u. some (some (concat (pieces serde u)))) (arranged-Alike h d)
    ∙ sym (canonical_json_bytes-canonical serde w)
