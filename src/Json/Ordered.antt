-- ===== src/Json/Ordered.antt =====
-- Objects whose keys increase strictly, as a `BTreeMap` keeps them, and the loops of
-- json_traversal.rs on values made of such objects.
pub mod Canonical
pub mod Admitted
pub mod Alike
pub mod Copied
use Prim.Native.Nat.{Ordering}
use mathlib.Core.Path.{subst}
use magic_vault.Base.{◌≡◌, ◌≢◌, refl, sym, ap, ◌∙◌, arith, Text, inl, inr}
use magic_vault.Base.Bytes.{compare_text}
use magic_vault.Base.Order.{
  compare_text-above, compare_text_trans, eq_of_compare_text, compare_text-flip, Ordering-cases,
}
use magic_vault.Json.{Value, Values, Members, array, object, nil, cons, end, member}
use magic_vault.Json.Sorted.{Reordered, same, below, swap, then, sort_members, insert_sorted}
use magic_vault.Json.Copy.{insert_member}
use magic_vault.Json.Copy.Rebuilt.{insert_all}

-- Every key of the members is above `k`.
abbrev pub Above : {N : Type 0} → Text → Members N → Type 0
Above k end = Unit
Above k (member j u ms) = (compare_text k j ≡ Ordering.lt) × Above k ms

abbrev pub Ascending : {N : Type 0} → Members N → Type 0
Ascending end = Unit
Ascending (member k v ms) = Above k ms × Ascending ms

-- No key of the members is `k`.
abbrev pub Absent : {N : Type 0} → Text → Members N → Type 0
Absent k end = Unit
Absent k (member j u ms) = (k ≢ j) × Absent k ms

abbrev pub Distinct : {N : Type 0} → Members N → Type 0
Distinct end = Unit
Distinct (member k v ms) = Absent k ms × Distinct ms

-- The members of every object in the value satisfy `P`.
module _ {N : Type 0} (P : Members N → Type 0) where
  unfoldable mutual
    pub EveryObject : Value N → Type 0
    EveryObject (array xs) = EveryValues xs
    EveryObject (object ms) = P ms × EveryMembers ms
    EveryObject _ = Unit

    pub EveryValues : Values N → Type 0
    EveryValues nil = Unit
    EveryValues (cons v xs) = EveryObject v × EveryValues xs

    pub EveryMembers : Members N → Type 0
    EveryMembers end = Unit
    EveryMembers (member k v ms) = EveryObject v × EveryMembers ms

module _ {N : Type 0} where
  Above-trans :
      (j k : Text) (ms : Members N) → compare_text j k ≡ Ordering.lt → Above k ms → Above j ms
  Above-trans j k end h _ = tt
  Above-trans j k (member i u ms) h (p, ps) =
      (compare_text_trans j k i h p, Above-trans j k ms h ps)

  insert_sorted-Above_all :
      (k : Text) (v : Value N) (ms : Members N) → Above k ms → insert_sorted k v ms ≡ member k v ms
  unfolding insert_sorted
  insert_sorted-Above_all k v end _ = refl
  insert_sorted-Above_all k v (member j u ms) (p, _) = rw (p, insert_sorted) refl

  pub sort_members-Ascending : (ms : Members N) → Ascending ms → sort_members ms ≡ ms
  unfolding sort_members
  sort_members-Ascending end _ = refl
  sort_members-Ascending (member k v ms) (p, ps) =
      ap (insert_sorted k v) (sort_members-Ascending ms ps) ∙ insert_sorted-Above_all k v ms p

  -- A map that is filled in the order of its keys holds the members as they came.
  unfoldable append_members : Members N → Members N → Members N
  append_members end ns = ns
  append_members (member k v ms) ns = member k v (append_members ms ns)

  append_members-snoc :
      (ms : Members N) (k : Text) (v : Value N) (ns : Members N)
      → append_members (append_members ms (member k v end)) ns ≡ append_members ms (member k v ns)
  unfolding append_members
  append_members-snoc end k v ns = refl
  append_members-snoc (member j u ms) k v ns = ap (member j u) (append_members-snoc ms k v ns)

  append_members-end : (ms : Members N) → append_members ms end ≡ ms
  unfolding append_members
  append_members-end end = refl
  append_members-end (member j u ms) = ap (member j u) (append_members-end ms)

  Above-later :
      (j : Text) (ms : Members N) (k : Text) (v : Value N) (ns : Members N)
      → Above j (append_members ms (member k v ns))
      → compare_text j k ≡ Ordering.lt
  unfolding append_members
  Above-later j end k v ns (p, _) = p
  Above-later j (member i u ms) k v ns (_, ps) = Above-later j ms k v ns ps

  insert_member-last :
      (ms : Members N) (k : Text) (v : Value N) (ns : Members N)
      → Ascending (append_members ms (member k v ns))
      → insert_member k v ms ≡ append_members ms (member k v end)
  unfolding insert_member append_members
  insert_member-last end k v ns _ = refl
  insert_member-last (member j u ms) k v ns (p, ps) =
      rw (compare_text-above j k (Above-later j ms k v ns p), insert_member)
        (ap (member j u) (insert_member-last ms k v ns ps))

  insert_all-append :
      (ns ms : Members N)
      → Ascending (append_members ms ns)
      → insert_all ms ns ≡ append_members ms ns
  unfolding insert_all
  insert_all-append end ms _ = sym (append_members-end ms)
  insert_all-append (member k v ns) ms h =
      ap (λ os. insert_all os ns) (insert_member-last ms k v ns h)
      ∙ insert_all-append ns (append_members ms (member k v end))
          (subst Ascending (sym (append_members-snoc ms k v ns)) h)
      ∙ append_members-snoc ms k v ns

  pub insert_all-Ascending : (ms : Members N) → Ascending ms → insert_all end ms ≡ ms
  unfolding append_members
  insert_all-Ascending ms h = insert_all-append ms end h

  -- Distinct keys in order increase strictly.
  insert_sorted-keeps_Above :
      (i k : Text) (v : Value N) (ms : Members N)
      → compare_text i k ≡ Ordering.lt
      → Above i ms
      → Above i (insert_sorted k v ms)
  unfolding insert_sorted
  insert_sorted-keeps_Above i k v end p _ = (p, tt)
  insert_sorted-keeps_Above i k v (member j u ms) p (q, qs) =
      ground (arith, insert_sorted-keeps_Above i k v ms p qs)

  insert_sorted-Ascending :
      (k : Text) (v : Value N) (ms : Members N)
      → Absent k ms
      → Ascending ms
      → Ascending (insert_sorted k v ms)
  unfolding insert_sorted
  insert_sorted-Ascending k v end _ _ = (tt, tt)
  insert_sorted-Ascending k v (member j u ms) (d, ds) (p, ps) =
      elim (Ordering-cases (compare_text k j)) [
        | inl below_j ↦
            rw (below_j, insert_sorted) ((below_j, Above-trans k j ms below_j p), (p, ps))
        | inr (inl equal) ↦ absurd (d (eq_of_compare_text k j equal))
        | inr (inr above_j) ↦
            rw (above_j, insert_sorted)
              (
                insert_sorted-keeps_Above j k v ms (compare_text-flip k j above_j) p,
                insert_sorted-Ascending k v ms ds ps,
              )
      ]

  insert_sorted-Absent :
      (i k : Text) (v : Value N) (ms : Members N)
      → i ≢ k
      → Absent i ms
      → Absent i (insert_sorted k v ms)
  unfolding insert_sorted
  insert_sorted-Absent i k v end d _ = (d, tt)
  insert_sorted-Absent i k v (member j u ms) d (e, es) =
      ground (arith, insert_sorted-Absent i k v ms d es)

  sort_members-Absent : (i : Text) (ms : Members N) → Absent i ms → Absent i (sort_members ms)
  unfolding sort_members
  sort_members-Absent i end _ = tt
  sort_members-Absent i (member k v ms) (d, ds) =
      insert_sorted-Absent i k v (sort_members ms) d (sort_members-Absent i ms ds)

  pub sort_members-Distinct : (ms : Members N) → Distinct ms → Ascending (sort_members ms)
  unfolding sort_members
  sort_members-Distinct end _ = tt
  sort_members-Distinct (member k v ms) (d, ds) =
      insert_sorted-Ascending k v (sort_members ms) (sort_members-Absent k ms d)
        (sort_members-Distinct ms ds)

  pub EveryMembers-Reordered :
      (P : Members N → Type 0) {ms ns : Members N}
      → Reordered ms ns
      → EveryMembers P ms
      → EveryMembers P ns
  unfolding EveryObject
  EveryMembers-Reordered P same ps = ps
  EveryMembers-Reordered P (below k v r) (p, ps) = (p, EveryMembers-Reordered P r ps)
  EveryMembers-Reordered P (swap j k u v ms) (p, (q, ps)) = (q, (p, ps))
  EveryMembers-Reordered P (then r t) ps =
      EveryMembers-Reordered P t (EveryMembers-Reordered P r ps)
