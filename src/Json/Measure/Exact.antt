-- ===== src/Json/Measure/Exact.antt =====
-- The counting loop against the writing loop, and the lengths against the texts.
use magic_vault.Base.{
  ◌≡◌, refl, ap, ◌∙◌, arith, Text, true, false, List, [], ◌∷◌, length, Option, none, some,
}
use mathlib.Core.Option.{map}
use magic_vault.Json.{
  Value, Serde, null, bool, number, string, array, object, nil, cons, end, member,
}
use magic_vault.Json.Loop.{Walk, loop_for_congr}
use magic_vault.Json.Shape.{rounds}
use magic_vault.Json.Sorted.{arranged, sort_members}
use magic_vault.Json.Compact.{
  JsonWriteFrame, array_frame, object_frame, write_value, write_frame, write_round, write_comma,
  write_ordered, write_json, pieces,
}
use magic_vault.Json.Compact.Writing.{write_json-pieces, write_canonical_json-pieces}
use magic_vault.Json.Buffers.{CountingWriter, counting_sink, saturating_add, vec_sink, concat}
use magic_vault.Json.Buffers.Contents.{counting_sink-length, vec_sink-concat}
use magic_vault.Json.Measure.{
  count_bytes, count_value, count_frame, count_round, json_encoded_len, exact_json_encoded_len,
  json_string_encoded_len, counted, unwrap_or_max, bytes_written, canonical_json_bytes,
}

-- The compact text of a value.
abbrev pub compact : {N : Type 0} → Serde N → Value N → Text
compact serde root = concat (pieces serde root)

-- The canonical text: the members of every object in the order of their keys.
abbrev pub canonical : {N : Type 0} → Serde N → Value N → Text
canonical serde root = concat (pieces serde (arranged sort_members root))

module _ {N : Type 0} (serde : Serde N) where
  count_value-write_value :
      (v : Value N) (fs : List (JsonWriteFrame N)) (w : CountingWriter)
      → count_value serde v fs w ≡ write_value (λ ms. ms) serde counting_sink v fs w
  unfolding count_value count_bytes write_value counting_sink
  count_value-write_value null fs w = refl
  count_value-write_value (bool true) fs w = refl
  count_value-write_value (bool false) fs w = refl
  count_value-write_value (number n) fs w = refl
  count_value-write_value (string s) fs w = refl
  count_value-write_value (array xs) fs w = refl
  count_value-write_value (object ms) fs w = refl

  count_frame-write_frame :
      (fs : List (JsonWriteFrame N)) (w : CountingWriter)
      → count_frame serde fs w ≡ write_frame (λ ms. ms) serde counting_sink fs w
  unfolding count_frame count_bytes write_frame write_comma counting_sink
  count_frame-write_frame [] w = refl
  count_frame-write_frame (array_frame nil first ∷ fs) w = refl
  count_frame-write_frame (array_frame (cons v xs) true ∷ fs) w = refl
  count_frame-write_frame (array_frame (cons v xs) false ∷ fs) w = refl
  count_frame-write_frame (object_frame end first ∷ fs) w = refl
  count_frame-write_frame (object_frame (member k v ms) true ∷ fs) w = refl
  count_frame-write_frame (object_frame (member k v ms) false ∷ fs) w = refl

  count_round-write_round :
      (s : Walk (Value N) (JsonWriteFrame N) CountingWriter)
      → count_round serde s ≡ write_round (λ ms. ms) serde counting_sink s
  unfolding count_round write_round
  count_round-write_round s = by_current s.current
    where
      by_current :
          (c : Option (Value N))
          → (elim c [
            | some v ↦ count_value serde v s.frames s.output
            | none ↦ count_frame serde s.frames s.output
          ])
            ≡ (elim c [
              | some v ↦ write_value (λ ms. ms) serde counting_sink v s.frames s.output
              | none ↦ write_frame (λ ms. ms) serde counting_sink s.frames s.output
            ])
      by_current (some v) = count_value-write_value v s.frames s.output
      by_current none = count_frame-write_frame s.frames s.output

  pub json_encoded_len-length :
      (root : Value N)
      → json_encoded_len serde root ≡ some (some (saturating_add 0 (length (compact serde root))))
  unfolding json_encoded_len write_json write_ordered
  json_encoded_len-length root = ap (map counted) (
      loop_for_congr (count_round serde) (write_round (λ ms. ms) serde counting_sink)
        count_round-write_round (rounds root 1) _
      ∙ write_json-pieces serde counting_sink root (record { bytes = 0 })
      ∙ ap some (counting_sink-length (pieces serde root) 0 (omega arith)))

  -- The counting loop returns the length of the compact text that the writing loop writes, or the
  -- largest `usize` if the length is above it.
  pub exact_json_encoded_len-length :
      (root : Value N)
      → exact_json_encoded_len serde root ≡ some (saturating_add 0 (length (compact serde root)))
  unfolding exact_json_encoded_len
  exact_json_encoded_len-length root = ap (map unwrap_or_max) (json_encoded_len-length root)

  pub json_string_encoded_len-length :
      (text : Text)
      → json_string_encoded_len serde text
        ≡ some (saturating_add 0 (length (concat (serde.quote text))))
  unfolding json_string_encoded_len
  json_string_encoded_len-length text =
      ap counted (counting_sink-length (serde.quote text) 0 (omega arith))

  pub canonical_json_bytes-canonical :
      (root : Value N) → canonical_json_bytes serde root ≡ some (some (canonical serde root))
  unfolding canonical_json_bytes
  canonical_json_bytes-canonical root = ap (map bytes_written) (
      write_canonical_json-pieces serde vec_sink root []
      ∙ ap some (vec_sink-concat (pieces serde (arranged sort_members root)) []))
