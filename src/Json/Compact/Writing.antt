-- ===== src/Json/Compact/Writing.antt =====
-- The loop of `write_json` and of `write_canonical_json` against the pieces of the compact text.
use magic_vault.Base.{
  ℕ, ◌≡◌, refl, sym, ap, ◌∙◌, ascii, Bool, true, false, List, [], ◌∷◌, ◌++◌, none, some, Result, ok,
  err,
}
use magic_vault.Json.{
  Value, Values, Members, Serde, null, bool, number, string, array, object, nil, cons, end, member,
}
use magic_vault.Json.Loop.{
  loop_for, resume, follow, written, descend, resume-then_write, follow-written, follow-descend,
}
use magic_vault.Json.Sink.{
  Sink, then_write, write_pieces, write_pieces-append, write_pieces-key, then_write-ok,
}
use magic_vault.Json.Shape.{AllMembers, rounds, rounds_values, rounds_members}
use magic_vault.Json.Sorted.{
  IsOrder, arranged, arranged_values, arranged_members, sort_members, sort_members-IsOrder,
  same-IsOrder, arranged_same, arranged_members-map, rounds_members-Reordered, AllMembers-Reordered,
}
use magic_vault.Json.Compact.{
  JsonWriteFrame, array_frame, object_frame, write_value, write_frame, write_round, write_comma,
  write_ordered, write_json, write_canonical_json, comma, pieces, pieces_values, pieces_members,
}

module _ {N : Type 0} {W : Type 0} (order : Members N → Members N) (is_order : IsOrder order)
    (serde : Serde N) (sink : Sink W) where
  -- The loop that visits a value writes its pieces and leaves the frames as they were.
  abbrev Visits : Value N → Type 0
  Visits v =
      (fs : List (JsonWriteFrame N)) (w : W) (k : ℕ)
      → loop_for (rounds v k) (write_round order serde sink)
          (record { current = some v; frames = fs; output = w })
        ≡ resume k (write_round order serde sink) fs
            (write_pieces sink (pieces serde (arranged order v)) w)

  write_comma-comma :
      (first : Bool) (w : W)
      → write_comma order serde sink first w ≡ write_pieces sink (comma first) w
  unfolding write_comma write_pieces
  write_comma-comma true w = refl
  write_comma-comma false w = sym (then_write-ok (sink.write_all (ascii ",") w))

  piece :
      (n : ℕ) (fs : List (JsonWriteFrame N)) (r : Result W W)
      → follow n (write_round order serde sink) (written fs r)
        ≡ resume n (write_round order serde sink) fs (then_write r ok)
  piece n fs r = follow-written (write_round order serde sink) n n fs ok fs r (λ w. refl)

  members-pieces :
      (ms : Members N) (first : Bool) (fs : List (JsonWriteFrame N)) (w : W) (k : ℕ)
      → AllMembers Visits ms
      → loop_for
          (rounds_members ms k)
          (write_round order serde sink)
          (record { current = none; frames = object_frame ms first ∷ fs; output = w })
        ≡ resume k
            (write_round order serde sink)
            fs
            (write_pieces sink (pieces_members serde (arranged_members order ms) first) w)
  unfolding write_round write_frame rounds pieces write_pieces loop_for arranged
  members-pieces end first fs w k _ = piece k fs _
  members-pieces (member key v ms) first fs w k (visit, visits) =
      ap
        (λ r. follow (rounds v (rounds_members ms k)) (write_round order serde sink) (
          descend v (object_frame ms false ∷ fs) (
            then_write (then_write r (write_pieces sink (serde.quote key)))
              (sink.write_all (ascii ":")))))
        (write_comma-comma first w)
      ∙ (follow-descend (write_round order serde sink) _ k fs
            (write_pieces sink (
              pieces serde (arranged order v)
              ++ pieces_members serde (arranged_members order ms) false))
            v (object_frame ms false ∷ fs) _
            (λ u.
              visit (object_frame ms false ∷ fs) u (rounds_members ms k)
              ∙ resume-then_write (write_round order serde sink) _ k fs _ _ _
                  (λ t. members-pieces ms false fs t k visits)
              ∙ sym (ap (resume k _ fs) (write_pieces-append sink _ _ u)))
          ∙ sym (
              ap (resume k _ fs)
                (write_pieces-key sink (comma first) (serde.quote key) (ascii ":") _ w)))

  arranged_members-order :
      (ms : Members N) → arranged_members order (order ms) ≡ order (arranged_members order ms)
  arranged_members-order ms =
      arranged_members-map order (order ms)
      ∙ is_order.by_keys (arranged order) ms
      ∙ ap order (sym (arranged_members-map order ms))

  mutual
    unfolding write_round write_value write_frame rounds pieces write_pieces loop_for arranged

    value-pieces : (v : Value N) → Visits v
    value-pieces null fs w k = piece k fs _
    value-pieces (bool true) fs w k = piece k fs _
    value-pieces (bool false) fs w k = piece k fs _
    value-pieces (number n) fs w k = piece k fs _
    value-pieces (string s) fs w k =
        follow-written (write_round order serde sink) k k fs ok fs _ (λ u. refl)
        ∙ ap (resume k _ fs) (then_write-ok _)
    value-pieces (array xs) fs w k =
        follow-written (write_round order serde sink) _ k fs _ _ _
          (λ u. values-pieces xs true fs u k)
    value-pieces (object ms) fs w k =
        follow-written (write_round order serde sink) _ k fs _ _ _ λ u.
          ap
            (λ n.
              loop_for n (write_round order serde sink)
                (record { current = none; frames = object_frame (order ms) true ∷ fs; output = u }))
            (rounds_members-Reordered (is_order.reorders ms) k)
          ∙ members-pieces (order ms) true fs u k
              (AllMembers-Reordered Visits (is_order.reorders ms) (members-Visits ms))
          ∙ ap
              (λ os.
                resume k (write_round order serde sink) fs
                  (write_pieces sink (pieces_members serde os true) u))
              (arranged_members-order ms)

    values-pieces :
        (xs : Values N) (first : Bool) (fs : List (JsonWriteFrame N)) (w : W) (k : ℕ)
        → loop_for
            (rounds_values xs k)
            (write_round order serde sink)
            (record { current = none; frames = array_frame xs first ∷ fs; output = w })
          ≡ resume k
              (write_round order serde sink)
              fs
              (write_pieces sink (pieces_values serde (arranged_values order xs) first) w)
    values-pieces nil first fs w k = piece k fs _
    values-pieces (cons v xs) first fs w k =
        ap
          (λ r.
            follow (rounds v (rounds_values xs k)) (write_round order serde sink)
              (descend v (array_frame xs false ∷ fs) r))
          (write_comma-comma first w)
        ∙ (follow-descend (write_round order serde sink) _ k fs
              (write_pieces sink (
                pieces serde (arranged order v)
                ++ pieces_values serde (arranged_values order xs) false))
              v (array_frame xs false ∷ fs) _
              (λ u.
                value-pieces v (array_frame xs false ∷ fs) u (rounds_values xs k)
                ∙ resume-then_write (write_round order serde sink) _ k fs _ _ _
                    (λ t. values-pieces xs false fs t k)
                ∙ sym (ap (resume k _ fs) (write_pieces-append sink _ _ u)))
            ∙ sym (ap (resume k _ fs) (write_pieces-append sink (comma first) _ w)))

    members-Visits : (ms : Members N) → AllMembers Visits ms
    members-Visits end = tt
    members-Visits (member k v ms) = (value-pieces v, members-Visits ms)

  pub write_ordered-pieces :
      (root : Value N) (w : W)
      → write_ordered order serde sink root w
        ≡ some (write_pieces sink (pieces serde (arranged order root)) w)
  unfolding write_ordered write_round write_frame loop_for
  write_ordered-pieces root w =
      value-pieces root [] w 1 ∙ returned (write_pieces sink (pieces serde (arranged order root)) w)
    where
      returned : (r : Result W W) → resume 1 (write_round order serde sink) [] r ≡ some r
      returned (ok _) = refl
      returned (err _) = refl

-- The loop of `write_json` returns for every value and every writer, and what it returns, success
-- or the first refusal of the writer, is what writing the compact text of the value piece by
-- piece, in order, comes to.
pub write_json-pieces :
    {N W : Type 0} (serde : Serde N) (sink : Sink W) (root : Value N) (w : W)
    → write_json serde sink root w ≡ some (write_pieces sink (pieces serde root) w)
unfolding write_json
write_json-pieces serde sink root w =
    write_ordered-pieces (λ ms. ms) same-IsOrder serde sink root w
    ∙ ap (λ v. some (write_pieces sink (pieces serde v) w)) (arranged_same root)

pub write_canonical_json-pieces :
    {N W : Type 0} (serde : Serde N) (sink : Sink W) (root : Value N) (w : W)
    → write_canonical_json serde sink root w
      ≡ some (write_pieces sink (pieces serde (arranged sort_members root)) w)
unfolding write_canonical_json
write_canonical_json-pieces serde sink root w =
    write_ordered-pieces sort_members sort_members-IsOrder serde sink root w
