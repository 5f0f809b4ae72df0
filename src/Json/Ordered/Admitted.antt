-- ===== src/Json/Ordered/Admitted.antt =====
-- `clone_json_bounded` of json_traversal.rs against the measures of the tree.
use magic_vault.Base.{
  ℕ, ◌≤◌, ◌<◌, ◌≡◌, refl, ap, ◌∙◌, arith, ◌&&◌, ◌||◌, leb, ltb, Bool-cases, inl, inr, if◌then◌else◌,
  length, Option, none, some,
}
use magic_vault.Json.{Value, Serde}
use magic_vault.Json.Shape.{nodes}
use magic_vault.Base.Bytes.{usize_max}
use magic_vault.Json.Buffers.{saturating_add}
use magic_vault.Json.Inspect.{JsonMetrics}
use magic_vault.Json.Inspect.Admission.{inspect_json_bounded-metrics}
use magic_vault.Json.Inspect.Measures.{depth, entries, widest}
use magic_vault.Json.Measure.{exact_json_encoded_len}
use magic_vault.Json.Measure.Exact.{compact, exact_json_encoded_len-length}
use magic_vault.Json.Copy.{clone_admitted, clone_json_bounded, clone_json_iteratively}
use magic_vault.Json.Ordered.{Ascending, EveryObject}
use magic_vault.Json.Ordered.Canonical.{clone_json_iteratively-same}

module _ {N : Type 0} (serde : Serde N) where
  over_bytes : (b len : ℕ) → b < usize_max → ltb b (saturating_add 0 len) ≡ ltb b len
  unfolding saturating_add
  over_bytes b len h = ground arith

  -- For a value whose objects have their keys in order, a limit on the values that fits a `usize`
  -- and a limit on the bytes below the largest, `clone_json_bounded` returns the value itself
  -- exactly when its values, its nesting and the length of its compact text are within the three
  -- limits, and nothing otherwise.
  pub clone_json_bounded_iff :
      (root : Value N) (max_nodes max_bytes max_depth : ℕ)
      → EveryObject Ascending root
      → max_nodes ≤ usize_max
      → max_bytes < usize_max
      → clone_json_bounded serde root max_nodes max_bytes max_depth
        ≡ some (
            if leb (nodes root) max_nodes
              && (leb (depth root) max_depth && leb (length (compact serde root)) max_bytes)
            then some root
            else none)
  unfolding clone_json_bounded
  clone_json_bounded_iff root max_nodes max_bytes max_depth ordered small_nodes small_bytes =
      ap clone_of (inspect_json_bounded-metrics serde root max_nodes small_nodes)
      ∙ (elim (Bool-cases (leb (nodes root) max_nodes)) [
        | inl fits ↦ rw fits (
            by_bytes
            ∙ ground (arith, over_bytes max_bytes (length (compact serde root)) small_bytes))
        | inr over ↦ rw over refl
      ])
    where
      clone_of : Option (Option JsonMetrics) → Option (Option (Value N))
      clone_of none = none
      clone_of (some metrics) =
          clone_admitted serde root max_bytes max_depth metrics (exact_json_encoded_len serde root)
            (clone_json_iteratively root)

      by_bytes :
          clone_of (
            some (
              some (record {
                max_depth = depth root;
                array_entries = entries root;
                maximum_scalar_bytes = widest serde root;
                nodes = nodes root;
              })))
          ≡ (if ltb max_depth (depth root)
                || ltb max_bytes (saturating_add 0 (length (compact serde root)))
              then some none
              else some (some root))
      by_bytes =
          rw (exact_json_encoded_len-length serde root, clone_json_iteratively-same root ordered)
            refl
