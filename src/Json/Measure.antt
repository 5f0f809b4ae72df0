-- ===== src/Json/Measure.antt =====
-- `json_encoded_len`, `exact_json_encoded_len`, `json_string_encoded_len` and
-- `canonical_json_bytes` of json_traversal.rs.
pub mod Exact
use magic_vault.Base.{
  ℕ, Text, Bool, true, false, List, [], ◌∷◌, length, Option, none, some, Result, ok, err,
  if◌then◌else◌,
}
use mathlib.Core.Option.{map}
use magic_vault.Json.{
  Value, Serde, null, bool, number, string, array, object, nil, cons, end, member,
}
use magic_vault.Json.Loop.{return, written, descend, loop_for, Walk}
use magic_vault.Json.Sink.{then_write, write_pieces}
use magic_vault.Json.Shape.{rounds}
use magic_vault.Json.Compact.{
  JsonWriteFrame, array_frame, object_frame, JsonRound, write_canonical_json,
}
use magic_vault.Base.Bytes.{usize_max}
use magic_vault.Json.Buffers.{CountingWriter, counting_sink, saturating_add, vec_sink}

-- `output.bytes = output.bytes.saturating_add(n)`.
unfoldable pub count_bytes : ℕ → CountingWriter → Result CountingWriter CountingWriter
unfolding saturating_add
count_bytes n w = ok (record { bytes = saturating_add w.bytes n })

abbrev pub counted : Result CountingWriter CountingWriter → Option ℕ
counted (ok w) = some w.bytes
counted (err w) = none

abbrev pub unwrap_or_max : Option ℕ → ℕ
unwrap_or_max (some n) = n
unwrap_or_max none = usize_max

abbrev pub bytes_written : Result Text Text → Option Text
bytes_written (ok w) = some w
bytes_written (err w) = none

module _ {N : Type 0} (serde : Serde N) where
  -- `CountingFrame` has the shape of `JsonWriteFrame`.
  unfoldable pub count_value :
      Value N → List (JsonWriteFrame N) → CountingWriter → JsonRound N CountingWriter
  unfolding count_bytes counting_sink write_pieces
  count_value null fs w = written fs (count_bytes 4 w)
  count_value (bool b) fs w = written fs (count_bytes (if b then 4 else 5) w)
  count_value (number n) fs w = written fs (count_bytes (length (serde.number_text n)) w)
  count_value (string s) fs w = written fs (write_pieces counting_sink (serde.quote s) w)
  count_value (array xs) fs w = written (array_frame xs true ∷ fs) (count_bytes 1 w)
  count_value (object ms) fs w = written (object_frame ms true ∷ fs) (count_bytes 1 w)

  abbrev pub count_comma : Bool → CountingWriter → Result CountingWriter CountingWriter
  count_comma first w = if first then ok w else count_bytes 1 w

  unfoldable pub count_frame : List (JsonWriteFrame N) → CountingWriter → JsonRound N CountingWriter
  unfolding count_bytes counting_sink write_pieces
  count_frame [] w = return (ok w)
  count_frame (array_frame nil first ∷ fs) w = written fs (count_bytes 1 w)
  count_frame (array_frame (cons v xs) first ∷ fs) w =
      descend v (array_frame xs false ∷ fs) (count_comma first w)
  count_frame (object_frame end first ∷ fs) w = written fs (count_bytes 1 w)
  count_frame (object_frame (member k v ms) first ∷ fs) w = descend v (object_frame ms false ∷ fs) (
      then_write (then_write (count_comma first w) (write_pieces counting_sink (serde.quote k)))
        (count_bytes 1))

  unfoldable pub count_round :
      Walk (Value N) (JsonWriteFrame N) CountingWriter → JsonRound N CountingWriter
  unfolding count_value count_frame
  count_round s = elim s.current [
    | some v ↦ count_value v s.frames s.output
    | none ↦ count_frame s.frames s.output
  ]

  -- The result of the loop, the outer option `none` if the rounds were not enough.
  unfoldable pub json_encoded_len : Value N → Option (Option ℕ)
  unfolding count_round loop_for rounds
  json_encoded_len root = map counted (
      loop_for (rounds root 1) count_round
        (record { current = some root; frames = []; output = record { bytes = 0 } }))

  unfoldable pub exact_json_encoded_len : Value N → Option ℕ
  unfolding json_encoded_len
  exact_json_encoded_len root = map unwrap_or_max (json_encoded_len root)

  unfoldable pub json_string_encoded_len : Text → Option ℕ
  unfolding write_pieces counting_sink
  json_string_encoded_len text =
      counted (write_pieces counting_sink (serde.quote text) (record { bytes = 0 }))

  unfoldable pub canonical_json_bytes : Value N → Option (Option Text)
  unfolding write_canonical_json vec_sink
  canonical_json_bytes root = map bytes_written (write_canonical_json serde vec_sink root [])
