-- ===== src/Json/Copy/Rebuilt.antt =====
-- What the rebuilding loops produce: the value with its members in order.
use mathlib.Core.Path.{subst}
use magic_vault.Base.{ℕ, zero, suc, ◌+◌, ◌≡◌, refl, sym, ap, ◌∙◌, arith, Text, List, [], ◌∷◌, some}
use magic_vault.Json.{
  Value, Values, Members, null, bool, number, string, array, object, nil, cons, end, member,
}
use magic_vault.Json.Loop.{Round, next, return, loop_for, loop_on}
use magic_vault.Json.Sorted.{
  IsOrder, Reordered, same, below, swap, then, map_members, sort_members, sort_members-IsOrder,
  same-IsOrder, AllMembers-Reordered,
}
use magic_vault.Json.Shape.{AllMembers}
use magic_vault.Json.Copy.{
  BuildFrame, array_build, object_build, visit, push, insert_member, attach, open_object,
  build_value, build_round, builds, builds_values, builds_members, build, clone_json_iteratively,
  canonicalize_json,
}

-- Rounds to spare do not change what a loop returns.
loop_on_more {ℓ κ} :
    {S : Type ℓ} {R : Type κ} (round : S → Round S R) (n : ℕ) (s : Round S R) (r : R)
    → loop_on n round s ≡ some r
    → loop_on (suc n) round s ≡ some r
unfolding loop_for
loop_on_more round zero (next s) r h = cc
loop_on_more round (suc n) (next s) r h = loop_on_more round n (round s) r h
loop_on_more round n (return x) r h = h

unfoldable append_values : {N : Type 0} → Values N → Values N → Values N
append_values nil ys = ys
append_values (cons x xs) ys = cons x (append_values xs ys)

unfoldable pub insert_all : {N : Type 0} → Members N → Members N → Members N
insert_all out end = out
insert_all out (member k v ms) = insert_all (insert_member k v out) ms

module _ {N : Type 0} where
  append_values-push :
      (xs : Values N) (v : Value N) (ys : Values N)
      → append_values (push xs v) ys ≡ append_values xs (cons v ys)
  unfolding append_values push
  append_values-push nil v ys = refl
  append_values-push (cons x xs) v ys = ap (cons x) (append_values-push xs v ys)

  append_values-nil : (xs : Values N) (v : Value N) → append_values xs (cons v nil) ≡ push xs v
  unfolding append_values push
  append_values-nil nil v = refl
  append_values-nil (cons x xs) v = ap (cons x) (append_values-nil xs v)

-- The value that the loop builds.
module _ {N : Type 0} (order : Members N → Members N) where
  unfoldable mutual
    pub rebuilt : Value N → Value N
    rebuilt null = null
    rebuilt (bool b) = bool b
    rebuilt (number n) = number n
    rebuilt (string s) = string s
    rebuilt (array xs) = array (rebuilt_values xs)
    rebuilt (object ms) = object (insert_all end (order (rebuilt_members ms)))

    pub rebuilt_values : Values N → Values N
    rebuilt_values nil = nil
    rebuilt_values (cons v xs) = cons (rebuilt v) (rebuilt_values xs)

    pub rebuilt_members : Members N → Members N
    rebuilt_members end = end
    rebuilt_members (member k v ms) = member k (rebuilt v) (rebuilt_members ms)

mutual
  unfolding builds

  builds-add : {N : Type 0} (v : Value N) (n : ℕ) → builds v n ≡ builds v 0 + n
  builds-add null n = omega arith
  builds-add (bool _) n = omega arith
  builds-add (number _) n = omega arith
  builds-add (string _) n = omega arith
  builds-add (array xs) n = omega (arith, builds_values-add xs n)
  builds-add (object ms) n = omega (arith, builds_members-add ms n)

  builds_values-add :
      {N : Type 0} (xs : Values N) (n : ℕ) → builds_values xs n ≡ builds_values xs 0 + n
  builds_values-add nil n = omega arith
  builds_values-add (cons v xs) n = omega (
    arith,
    builds-add v (builds_values xs n),
    builds-add v (builds_values xs 0),
    builds_values-add xs n,
  )

  builds_members-add :
      {N : Type 0} (ms : Members N) (n : ℕ) → builds_members ms n ≡ builds_members ms 0 + n
  builds_members-add end n = omega arith
  builds_members-add (member _ v ms) n = omega (
    arith,
    builds-add v (builds_members ms n),
    builds-add v (builds_members ms 0),
    builds_members-add ms n,
  )

module _ {N : Type 0} where
  builds_swap : (u v : Value N) (n : ℕ) → builds u (builds v n) ≡ builds v (builds u n)
  builds_swap u v n =
      omega (
        arith,
        builds-add u (builds v n),
        builds-add v n,
        builds-add v (builds u n),
        builds-add u n,
      )

  builds_members-Reordered :
      {ms ns : Members N} → Reordered ms ns → (n : ℕ) → builds_members ms n ≡ builds_members ns n
  unfolding builds
  builds_members-Reordered same n = refl
  builds_members-Reordered (below k v r) n = ap (builds v) (builds_members-Reordered r n)
  builds_members-Reordered (swap j k u v ms) n = builds_swap u v (builds_members ms n)
  builds_members-Reordered (then r t) n =
      builds_members-Reordered r n ∙ builds_members-Reordered t n

module _ {N : Type 0} (order : Members N → Members N) (is_order : IsOrder order) where
  -- Once the rest of the loop is known to return from the built value, so does the visit.
  abbrev Builds : Value N → Type 0
  Builds v =
      (fs : List (BuildFrame N)) (k : ℕ) (r : Value N)
      → loop_on k (build_round order) (attach (rebuilt order v) fs) ≡ some r
      → loop_for (builds v k) (build_round order) (visit v fs) ≡ some r

  members-Builds :
      (ms : Members N) (key : Text) (v : Value N) (out : Members N) (fs : List (BuildFrame N))
      (k : ℕ) (r : Value N)
      → AllMembers Builds ms
      → loop_on k (build_round order) (
          attach
            (object (insert_all (insert_member key v out) (map_members (rebuilt order) ms)))
            fs)
        ≡ some r
      → loop_on (builds_members ms k) (build_round order) (attach v (object_build ms out key ∷ fs))
        ≡ some r
  unfolding attach builds map_members insert_all build_round loop_for
  members-Builds end key v out fs k r _ h = h
  members-Builds (member j u ms) key v out fs k r (b, bs) h =
      b (object_build ms (insert_member key v out) j ∷ fs) (builds_members ms k) r
        (members-Builds ms j (rebuilt order u) (insert_member key v out) fs k r bs h)

  open-Builds :
      (os : Members N) (fs : List (BuildFrame N)) (k : ℕ) (r : Value N)
      → AllMembers Builds os
      → loop_on k
          (build_round order)
          (attach (object (insert_all end (map_members (rebuilt order) os))) fs)
        ≡ some r
      → loop_on (builds_members os k) (build_round order) (open_object order os fs) ≡ some r
  unfolding map_members insert_all builds build_round
  open-Builds end fs k r _ h = loop_on_more (build_round order) k _ r h
  open-Builds (member j u ms) fs k r (b, bs) h =
      b (object_build ms end j ∷ fs) (builds_members ms k) r
        (members-Builds ms j (rebuilt order u) end fs k r bs h)

  rebuilt_members-map : (ms : Members N) → rebuilt_members order ms ≡ map_members (rebuilt order) ms
  unfolding rebuilt map_members
  rebuilt_members-map end = refl
  rebuilt_members-map (member k v ms) = ap (member k (rebuilt order v)) (rebuilt_members-map ms)

  rebuilt_members-order :
      (ms : Members N) → order (rebuilt_members order ms) ≡ map_members (rebuilt order) (order ms)
  rebuilt_members-order ms =
      ap order (rebuilt_members-map ms) ∙ sym (is_order.by_keys (rebuilt order) ms)

  mutual
    unfolding attach builds map_members insert_all build_round build_value loop_for rebuilt
        append_values push

    value-Builds : (v : Value N) → Builds v
    value-Builds null fs k r h = h
    value-Builds (bool x) fs k r h = h
    value-Builds (number n) fs k r h = h
    value-Builds (string s) fs k r h = h
    value-Builds (array nil) fs k r h = loop_on_more (build_round order) k _ r h
    value-Builds (array (cons x xs)) fs k r h =
        value-Builds x (array_build xs nil ∷ fs) (builds_values xs k) r
          (values-Builds xs (rebuilt order x) nil fs k r h)
    value-Builds (object ms) fs k r h =
        subst (λ n. loop_on n (build_round order) (open_object order (order ms) fs) ≡ some r)
          (sym (builds_members-Reordered (is_order.reorders ms) k))
          (open-Builds (order ms) fs k r
            (AllMembers-Reordered Builds (is_order.reorders ms) (members-all ms))
            (subst
              (λ os.
                loop_on k (build_round order) (attach (object (insert_all end os)) fs) ≡ some r)
              (rebuilt_members-order ms) h))

    values-Builds :
        (xs : Values N) (v : Value N) (out : Values N) (fs : List (BuildFrame N)) (k : ℕ)
        (r : Value N)
        → loop_on k
            (build_round order)
            (attach (array (append_values out (cons v (rebuilt_values order xs)))) fs)
          ≡ some r
        → loop_on (builds_values xs k) (build_round order) (attach v (array_build xs out ∷ fs))
          ≡ some r
    values-Builds nil v out fs k r h =
        subst (λ t. loop_on k (build_round order) (attach (array t) fs) ≡ some r)
          (append_values-nil out v) h
    values-Builds (cons x xs) v out fs k r h =
        value-Builds x (array_build xs (push out v) ∷ fs) (builds_values xs k) r (
          values-Builds xs (rebuilt order x) (push out v) fs k r (
            subst (λ t. loop_on k (build_round order) (attach (array t) fs) ≡ some r)
              (sym (append_values-push out v (cons (rebuilt order x) (rebuilt_values order xs))))
              h))

    members-all : (ms : Members N) → AllMembers Builds ms
    members-all end = tt
    members-all (member k v ms) = (value-Builds v, members-all ms)

  pub build-rebuilt : (root : Value N) → build order root ≡ some (rebuilt order root)
  unfolding build attach
  build-rebuilt root = value-Builds root [] 0 (rebuilt order root) refl

pub clone-rebuilt :
    {N : Type 0} (root : Value N) → clone_json_iteratively root ≡ some (rebuilt (λ ms. ms) root)
unfolding clone_json_iteratively
clone-rebuilt root = build-rebuilt (λ ms. ms) same-IsOrder root

pub canonicalize-rebuilt :
    {N : Type 0} (root : Value N) → canonicalize_json root ≡ some (rebuilt sort_members root)
unfolding canonicalize_json
canonicalize-rebuilt root = build-rebuilt sort_members sort_members-IsOrder root
