-- ===== src/Json/Inspect.antt =====
-- `inspect_json_impl` of json_traversal.rs: the depth, the array entries, the widest scalar and the
-- number of values of a tree, with a limit on the values that are visited.
pub mod Measures
pub mod Admission
use magic_vault.Base.{
  ℕ, suc, Bool, false, leb, if◌then◌else◌, List, [], ◌∷◌, length, Option, none, some,
}
use Prim.Native.Nat.{max}
use magic_vault.Json.{
  Value, Values, Members, Serde, null, bool, number, string, array, object, nil, cons, end, member,
}
use magic_vault.Json.Loop.{Round, Walk, next, return, loop_for}
use magic_vault.Json.Shape.{rounds}
use magic_vault.Json.Buffers.{saturating_add}

pub record JsonMetrics : Type 0 where
  pub max_depth : ℕ
  pub array_entries : ℕ
  pub maximum_scalar_bytes : ℕ
  pub nodes : ℕ

-- The children left to visit, and the depth of their container.
pub data InspectFrame (N : Type 0) : Type 0 where
  array_children : Values N → ℕ → InspectFrame N
  object_children : Members N → ℕ → InspectFrame N

unfoldable pub count_values : {N : Type 0} → Values N → ℕ
count_values nil = 0
count_values (cons v xs) = suc (count_values xs)

abbrev pub at_limit : Option ℕ → ℕ → Bool
at_limit none n = false
at_limit (some limit) n = leb limit n

abbrev pub InspectRound : Type 0 → Type 0
InspectRound N = Round (Walk (Value N × ℕ) (InspectFrame N) JsonMetrics) (Option JsonMetrics)

abbrev pub visited : JsonMetrics → JsonMetrics
visited m = record {
  max_depth = m.max_depth;
  array_entries = m.array_entries;
  maximum_scalar_bytes = m.maximum_scalar_bytes;
  nodes = saturating_add m.nodes 1;
}

module _ {N : Type 0} where
  abbrev pub scalar :
      List (InspectFrame N) → JsonMetrics → ℕ → Walk (Value N × ℕ) (InspectFrame N) JsonMetrics
  scalar fs m bytes = record {
    current = none;
    frames = fs;
    output = record {
      max_depth = m.max_depth;
      array_entries = m.array_entries;
      maximum_scalar_bytes = max m.maximum_scalar_bytes bytes;
      nodes = m.nodes;
    };
  }

  abbrev pub container :
      List (InspectFrame N) → JsonMetrics → ℕ → ℕ → Walk (Value N × ℕ) (InspectFrame N) JsonMetrics
  container fs m depth entries = record {
    current = none;
    frames = fs;
    output = record {
      max_depth = max m.max_depth depth;
      array_entries = saturating_add m.array_entries entries;
      maximum_scalar_bytes = m.maximum_scalar_bytes;
      nodes = m.nodes;
    };
  }

module _ {N : Type 0} (serde : Serde N) where
  unfoldable pub inspect_value :
      Value N
      → ℕ
      → List (InspectFrame N)
      → JsonMetrics
      → Walk (Value N × ℕ) (InspectFrame N) JsonMetrics
  unfolding saturating_add count_values
  inspect_value null parent fs m = record { current = none; frames = fs; output = m }
  inspect_value (bool b) parent fs m = scalar fs m (if b then 4 else 5)
  inspect_value (number n) parent fs m = scalar fs m (length (serde.number_text n))
  inspect_value (string s) parent fs m = scalar fs m (length s)
  inspect_value (array xs) parent fs m =
      container (array_children xs (saturating_add parent 1) ∷ fs) m (saturating_add parent 1)
        (count_values xs)
  inspect_value (object ms) parent fs m =
      container (object_children ms (saturating_add parent 1) ∷ fs) m (saturating_add parent 1) 0

  unfoldable pub inspect_frame : List (InspectFrame N) → JsonMetrics → InspectRound N
  inspect_frame [] m = return (some m)
  inspect_frame (array_children nil depth ∷ fs) m =
      next (record { current = none; frames = fs; output = m })
  inspect_frame (array_children (cons v xs) depth ∷ fs) m =
      next (record { current = some (v, depth); frames = array_children xs depth ∷ fs; output = m })
  inspect_frame (object_children end depth ∷ fs) m =
      next (record { current = none; frames = fs; output = m })
  inspect_frame (object_children (member k v ms) depth ∷ fs) m =
      next
        (record { current = some (v, depth); frames = object_children ms depth ∷ fs; output = m })

  unfoldable pub inspect_round :
      Option ℕ → Walk (Value N × ℕ) (InspectFrame N) JsonMetrics → InspectRound N
  unfolding inspect_value inspect_frame saturating_add
  inspect_round max_nodes s = elim s.current [
    | none ↦ inspect_frame s.frames s.output
    | some (v, parent) ↦
        if at_limit max_nodes s.output.nodes
        then return none
        else next (inspect_value v parent s.frames (visited s.output))
  ]

  unfoldable pub inspect_json_impl : Value N → Option ℕ → Option (Option JsonMetrics)
  unfolding inspect_round loop_for rounds
  inspect_json_impl root max_nodes = loop_for (rounds root 1) (inspect_round max_nodes) (record {
    current = some (root, 0);
    frames = [];
    output = record { max_depth = 0; array_entries = 0; maximum_scalar_bytes = 0; nodes = 0 };
  })

  unfoldable pub inspect_json_bounded : Value N → ℕ → Option (Option JsonMetrics)
  unfolding inspect_json_impl
  inspect_json_bounded root max_nodes = inspect_json_impl root (some max_nodes)
