-- ===== src/Json/Inspect/Admission.antt =====
-- The loop of `inspect_json_impl` against the depth, the entries and the widest scalar of a tree.
use magic_vault.Base.{
  ℕ, suc, ◌+◌, ◌≤◌, ◌<◌, ◌≡◌, refl, sym, ap, ◌∙◌, arith, Bool, true, false, leb, Bool-cases, inl,
  inr, if◌then◌else◌, List, [], ◌∷◌, Option, none, some,
}
use Prim.Native.Nat.{max}
use magic_vault.Json.{
  Value, Values, Members, Serde, null, bool, number, string, array, object, nil, cons, end, member,
}
use magic_vault.Json.Loop.{Walk, next, return, loop_for, loop_on}
use magic_vault.Json.Shape.{
  nodes, nodes_values, nodes_members, rounds, rounds_values, rounds_members,
}
use magic_vault.Base.Bytes.{usize_max}
use magic_vault.Json.Buffers.{saturating_add}
use magic_vault.Json.Buffers.Contents.{saturating_add_assoc}
use magic_vault.Json.Inspect.{
  JsonMetrics, visited, container, InspectFrame, array_children, object_children, count_values,
  inspect_value, inspect_frame, inspect_round, inspect_json_impl, inspect_json_bounded,
}
use magic_vault.Json.Inspect.Measures.{
  depth, depth-le-nodes, depth_members, depth_values, entries, entries-lt-nodes, entries_members,
  entries_values, widest, widest_members, widest_values,
}

-- The metrics after a part of the tree below a container of depth `d` was visited.
abbrev after : JsonMetrics → ℕ → ℕ → ℕ → ℕ → JsonMetrics
after m n d e w = record {
  max_depth = max m.max_depth d;
  array_entries = saturating_add m.array_entries e;
  maximum_scalar_bytes = max m.maximum_scalar_bytes w;
  nodes = m.nodes + n;
}

abbrev metrics : ℕ → ℕ → ℕ → ℕ → JsonMetrics
metrics d e w n = record { max_depth = d; array_entries = e; maximum_scalar_bytes = w; nodes = n }

metrics_eq :
    (d e w n : ℕ) (m : JsonMetrics)
    → d ≡ m.max_depth
    → e ≡ m.array_entries
    → w ≡ m.maximum_scalar_bytes
    → n ≡ m.nodes
    → metrics d e w n ≡ m
metrics_eq d e w n m p q r t = rw (p, q, r, t) refl

saturating_add_small : (a b : ℕ) → a + b ≤ usize_max → saturating_add a b ≡ a + b
unfolding saturating_add
saturating_add_small a b h = ground arith

saturating_add-le : (a b : ℕ) → saturating_add a b ≤ usize_max
unfolding saturating_add
saturating_add-le a b = ground arith

module _ {N : Type 0} (serde : Serde N) (limit : ℕ) (small : limit ≤ usize_max) where
  -- The loop visits `n` more values, if the limit allows it, and goes on from what it then knows.
  abbrev Inspects :
      Option (Value N × ℕ)
      → List (InspectFrame N)
      → List (InspectFrame N)
      → JsonMetrics
      → ℕ
      → ℕ
      → ℕ
      → ℕ
      → ℕ
      → ℕ
      → Type 0
  Inspects c gs fs m i k n d e w =
      loop_for i (inspect_round serde (some limit))
        (record { current = c; frames = gs; output = m })
      ≡ (if leb (m.nodes + n) limit
          then loop_for k (inspect_round serde (some limit))
              (record { current = none; frames = fs; output = after m n d e w })
          else some none)

  -- One more value is visited, if the limit allows it.
  enter :
      (m : JsonMetrics) (t : Walk (Value N × ℕ) (InspectFrame N) JsonMetrics) (k n : ℕ)
      (x : Option (Option JsonMetrics))
      → (m.nodes < limit
          → loop_for k (inspect_round serde (some limit)) t
            ≡ (if leb (m.nodes + suc n) limit then x else some none))
      → loop_on k
          (inspect_round serde (some limit))
          (if leb limit m.nodes then return none else next t)
        ≡ (if leb (m.nodes + suc n) limit then x else some none)
  enter m t k n x h = elim (Bool-cases (leb limit m.nodes)) [
    | inl full ↦ rw full (ground (arith, full))
    | inr room ↦ rw room (h (ground (arith, room)))
  ]

  -- Two parts of a tree, one after the other.
  joined :
      (a b : ℕ) (x y z : Option (Option JsonMetrics))
      → (a ≤ limit → x ≡ (if leb (a + b) limit then y else z))
      → (if leb a limit then x else z) ≡ (if leb (a + b) limit then y else z)
  joined a b x y z h = ground (arith, h)

  abbrev go : ℕ → List (InspectFrame N) → JsonMetrics → Option (Option JsonMetrics)
  go k fs m =
      loop_for k (inspect_round serde (some limit))
        (record { current = none; frames = fs; output = m })

  abbrev go_if : Bool → ℕ → List (InspectFrame N) → JsonMetrics → Option (Option JsonMetrics)
  go_if b k fs m = if b then go k fs m else some none

  leaf :
      (m : JsonMetrics) (fs : List (InspectFrame N)) (k p w w' : ℕ)
      → p ≤ m.max_depth
      → m.array_entries ≤ usize_max
      → w' ≡ max m.maximum_scalar_bytes w
      → loop_on k (inspect_round serde (some limit)) (
          if leb limit m.nodes
          then return none
          else next (record {
            current = none;
            frames = fs;
            output = metrics m.max_depth m.array_entries w' (saturating_add m.nodes 1);
          }))
        ≡ go_if (leb (m.nodes + 1) limit) k fs (after m 1 (p + 0) 0 w)
  leaf m fs k p w w' a c e = enter m _ k 0 (go k fs (after m 1 (p + 0) 0 w)) λ lt.
      let small_entries : saturating_add m.array_entries 0 ≡ m.array_entries + 0 =
        saturating_add_small m.array_entries 0 (omega arith) in
      ap (go k fs) (
        metrics_eq _ _ _ _ (after m 1 (p + 0) 0 w) (omega arith) (omega (arith, small_entries)) e
          (saturating_add_small m.nodes 1 (omega (arith, small))))
      ∙ ground arith

  open_container :
      (m : JsonMetrics) (f : ℕ → InspectFrame N) (fs : List (InspectFrame N))
      (j k p e n d e' t w : ℕ)
      → p ≤ m.max_depth
      → m.max_depth ≤ m.nodes
      → t ≡ e + e'
      → (m.nodes + 1 ≤ limit
          → go j (f (suc p) ∷ fs) (
              metrics
                (max m.max_depth (suc p))
                (saturating_add m.array_entries e)
                m.maximum_scalar_bytes
                (m.nodes + 1))
            ≡ go_if (leb (m.nodes + 1 + n) limit) k fs (
                after
                  (metrics
                    (max m.max_depth (suc p))
                    (saturating_add m.array_entries e)
                    m.maximum_scalar_bytes
                    (m.nodes + 1))
                  n
                  (suc p + d)
                  e'
                  w))
      → loop_on j (inspect_round serde (some limit)) (
          if leb limit m.nodes
          then return none
          else next (container (f (saturating_add p 1) ∷ fs) (visited m) (saturating_add p 1) e))
        ≡ go_if (leb (m.nodes + suc n) limit) k fs (after m (suc n) (p + suc d) t w)
  open_container m f fs j k p e n d e' t w a b q h = enter m _ j n _ λ lt.
      let deeper : saturating_add p 1 ≡ suc p =
        saturating_add_small p 1 (omega (arith, small)) ∙ omega arith in
      let counted : saturating_add m.nodes 1 ≡ m.nodes + 1 =
        saturating_add_small m.nodes 1 (omega (arith, small)) in
      let total : after
            (metrics (max m.max_depth (suc p)) (saturating_add m.array_entries e)
              m.maximum_scalar_bytes (m.nodes + 1))
            n (suc p + d) e' w
          ≡ after m (suc n) (p + suc d) t w =
        metrics_eq _ _ _ _ (after m (suc n) (p + suc d) t w) (omega arith)
          (saturating_add_assoc m.array_entries e e' ∙ ap (saturating_add m.array_entries) (sym q))
          refl (omega arith) in
      let further : leb (m.nodes + 1 + n) limit ≡ leb (m.nodes + suc n) limit =
        ap (λ i. leb i limit) {x = m.nodes + 1 + n} {y = m.nodes + suc n} (omega arith) in
      ap
        (λ i. go j (f i ∷ fs) (
          metrics (max m.max_depth i) (saturating_add m.array_entries e) m.maximum_scalar_bytes
            (saturating_add m.nodes 1)))
        deeper
      ∙ ap
          (λ i. go j (f (suc p) ∷ fs) (
            metrics (max m.max_depth (suc p)) (saturating_add m.array_entries e)
              m.maximum_scalar_bytes i))
          counted
      ∙ h (omega arith)
      ∙ ap (go_if (leb (m.nodes + 1 + n) limit) k fs) total
      ∙ ap (λ i. go_if i k fs (after m (suc n) (p + suc d) t w)) further

  closed :
      (m : JsonMetrics) (fs : List (InspectFrame N)) (k p : ℕ)
      → p ≤ m.max_depth
      → m.array_entries ≤ usize_max
      → m.nodes ≤ limit
      → go k fs m ≡ go_if (leb (m.nodes + 0) limit) k fs (after m 0 (p + 0) 0 0)
  closed m fs k p a c h =
      let same : saturating_add m.array_entries 0 ≡ m.array_entries + 0 =
        saturating_add_small m.array_entries 0 (omega arith) in
      ap (go k fs) (
        metrics_eq _ _ _ _ (after m 0 (p + 0) 0 0) (omega arith) (omega (arith, same)) (omega arith)
          (omega arith))
      ∙ ground arith

  both :
      (m : JsonMetrics) (fs : List (InspectFrame N)) (k p n n' d d' e e' w w' : ℕ)
      (x : Option (Option JsonMetrics))
      → (m.nodes + n ≤ limit
          → x
            ≡ go_if
                (leb (m.nodes + n + n') limit)
                k
                fs
                (after (after m n (p + d) e w) n' (p + d') e' w'))
      → (if leb (m.nodes + n) limit then x else some none)
        ≡ go_if
            (leb (m.nodes + (n + n')) limit)
            k
            fs
            (after m (n + n') (p + max d d') (e + e') (max w w'))
  both m fs k p n n' d d' e e' w w' x h =
      let total : after (after m n (p + d) e w) n' (p + d') e' w'
          ≡ after m (n + n') (p + max d d') (e + e') (max w w') =
        metrics_eq _ _ _ _ (after m (n + n') (p + max d d') (e + e') (max w w')) (omega arith)
          (saturating_add_assoc m.array_entries e e') (omega arith) (omega arith) in
      joined (m.nodes + n) n' x _ _ h
      ∙ ap (go_if (leb (m.nodes + n + n') limit) k fs) total
      ∙ ap (λ i. go_if (leb i limit) k fs (after m (n + n') (p + max d d') (e + e') (max w w')))
          {x = m.nodes + n + n'} {y = m.nodes + (n + n')} (omega arith)

  mutual
    unfolding inspect_round inspect_value inspect_frame rounds nodes depth entries widest loop_for

    value-Inspects :
        (v : Value N) (p : ℕ) (fs : List (InspectFrame N)) (m : JsonMetrics) (k : ℕ)
        → p ≤ m.max_depth
        → m.max_depth ≤ m.nodes
        → m.array_entries ≤ usize_max
        → m.nodes ≤ limit
        → Inspects
            (some (v, p))
            fs
            fs
            m
            (rounds v k)
            k
            (nodes v)
            (p + depth v)
            (entries v)
            (widest serde v)
    value-Inspects null p fs m k a b c h = leaf m fs k p 0 m.maximum_scalar_bytes a c (omega arith)
    value-Inspects (bool x) p fs m k a b c h = leaf m fs k p _ _ a c refl
    value-Inspects (number n) p fs m k a b c h = leaf m fs k p _ _ a c refl
    value-Inspects (string s) p fs m k a b c h = leaf m fs k p _ _ a c refl
    value-Inspects (array xs) p fs m k a b c h =
        open_container m (array_children xs) fs _ k p (count_values xs) (nodes_values xs)
          (depth_values xs) (entries_values xs) _ _ a b refl
          λ room.
            values-Inspects xs (suc p) fs _ k (omega arith) (omega arith)
              (saturating_add-le m.array_entries (count_values xs)) room
    value-Inspects (object ms) p fs m k a b c h =
        open_container m (object_children ms) fs _ k p 0 (nodes_members ms) (depth_members ms)
          (entries_members ms) _ _ a b (omega arith)
          λ room.
            members-Inspects ms (suc p) fs _ k (omega arith) (omega arith)
              (saturating_add-le m.array_entries 0) room

    values-Inspects :
        (xs : Values N) (p : ℕ) (fs : List (InspectFrame N)) (m : JsonMetrics) (k : ℕ)
        → p ≤ m.max_depth
        → m.max_depth ≤ m.nodes
        → m.array_entries ≤ usize_max
        → m.nodes ≤ limit
        → Inspects none
            (array_children xs p ∷ fs)
            fs
            m
            (rounds_values xs k)
            k
            (nodes_values xs)
            (p + depth_values xs)
            (entries_values xs)
            (widest_values serde xs)
    values-Inspects nil p fs m k a b c h = closed m fs k p a c h
    values-Inspects (cons v xs) p fs m k a b c h =
        value-Inspects v p (array_children xs p ∷ fs) m (rounds_values xs k) a b c h
        ∙ both m fs k p (nodes v) (nodes_values xs) (depth v) (depth_values xs) (entries v)
            (entries_values xs) (widest serde v) (widest_values serde xs) _
            (λ room.
              values-Inspects xs p fs _ k (omega arith) (omega (arith, depth-le-nodes v))
                (saturating_add-le m.array_entries (entries v)) room)

    members-Inspects :
        (ms : Members N) (p : ℕ) (fs : List (InspectFrame N)) (m : JsonMetrics) (k : ℕ)
        → p ≤ m.max_depth
        → m.max_depth ≤ m.nodes
        → m.array_entries ≤ usize_max
        → m.nodes ≤ limit
        → Inspects none
            (object_children ms p ∷ fs)
            fs
            m
            (rounds_members ms k)
            k
            (nodes_members ms)
            (p + depth_members ms)
            (entries_members ms)
            (widest_members serde ms)
    members-Inspects end p fs m k a b c h = closed m fs k p a c h
    members-Inspects (member _ v ms) p fs m k a b c h =
        value-Inspects v p (object_children ms p ∷ fs) m (rounds_members ms k) a b c h
        ∙ both m fs k p (nodes v) (nodes_members ms) (depth v) (depth_members ms) (entries v)
            (entries_members ms) (widest serde v) (widest_members serde ms) _
            (λ room.
              members-Inspects ms p fs _ k (omega arith) (omega (arith, depth-le-nodes v))
                (saturating_add-le m.array_entries (entries v)) room)

-- With a limit that fits a `usize`, `inspect_json_bounded` returns, and answers with the nesting,
-- the array entries, the longest scalar and the number of values of the tree exactly when the
-- tree has no more values than the limit, and with nothing otherwise.
pub inspect_json_bounded-metrics :
    {N : Type 0} (serde : Serde N) (root : Value N) (limit : ℕ)
    → limit ≤ usize_max
    → inspect_json_bounded serde root limit
      ≡ some (
          if leb (nodes root) limit
          then some (record {
            max_depth = depth root;
            array_entries = entries root;
            maximum_scalar_bytes = widest serde root;
            nodes = nodes root;
          })
          else none)
unfolding inspect_json_bounded inspect_json_impl
inspect_json_bounded-metrics serde root limit small =
    value-Inspects serde limit small root 0 [] (metrics 0 0 0 0) 1 (omega arith) (omega arith)
      (omega arith) (omega arith)
    ∙ (elim (Bool-cases (leb (nodes root) limit)) [
      | inl fits ↦
          let room : leb (0 + nodes root) limit ≡ true = ground (arith, fits) in
          let fits_entries : saturating_add 0 (entries root) ≡ 0 + entries root =
            saturating_add_small 0 (entries root) (ground (arith, fits, entries-lt-nodes root)) in
          rw (room, fits)
            (ap (λ m. some (some m))
              (sym (
                metrics_eq _ _ _ _
                  (after (metrics 0 0 0 0) (nodes root) (0 + depth root) (entries root)
                    (widest serde root))
                  (omega arith) (omega (arith, fits_entries)) (omega arith) (omega arith))))
      | inr over ↦
          let full : leb (0 + nodes root) limit ≡ false = ground (arith, over) in
          rw (full, over) refl
    ])
