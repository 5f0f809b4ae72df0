-- ===== src/Json/Compact.antt =====
-- `write_json`, `write_canonical_json` and `canonical_json_bytes` of json_traversal.rs. The two
-- loops differ in the order in which the members of an object are walked, `order` here.
pub mod Writing
use magic_vault.Base.{
  Text, ascii, Bool, true, false, List, [], ◌∷◌, ◌++◌, Option, none, some, Result, ok,
  if◌then◌else◌,
}
use magic_vault.Json.{
  Value, Values, Members, Serde, null, bool, number, string, array, object, nil, cons, end, member,
}
use magic_vault.Json.Loop.{Round, Walk, return, written, descend, loop_for}
use magic_vault.Json.Sink.{Sink, then_write, write_pieces}
use magic_vault.Json.Shape.{rounds}
use magic_vault.Json.Sorted.{sort_members}

pub data JsonWriteFrame (N : Type 0) : Type 0 where
  array_frame : Values N → Bool → JsonWriteFrame N
  object_frame : Members N → Bool → JsonWriteFrame N

abbrev pub JsonRound : Type 0 → Type 0 → Type 0
JsonRound N W = Round (Walk (Value N) (JsonWriteFrame N) W) (Result W W)

module _ {N : Type 0} {W : Type 0} (order : Members N → Members N) (serde : Serde N)
    (sink : Sink W) where
  unfoldable pub write_value : Value N → List (JsonWriteFrame N) → W → JsonRound N W
  write_value null fs w = written fs (sink.write_all (ascii "null") w)
  write_value (bool true) fs w = written fs (sink.write_all (ascii "true") w)
  write_value (bool false) fs w = written fs (sink.write_all (ascii "false") w)
  write_value (number n) fs w = written fs (sink.write_all (serde.number_text n) w)
  write_value (string s) fs w = written fs (write_pieces sink (serde.quote s) w)
  write_value (array xs) fs w = written (array_frame xs true ∷ fs) (sink.write_all (ascii "[") w)
  write_value (object ms) fs w =
      written (object_frame (order ms) true ∷ fs) (sink.write_all (ascii "{") w)

  unfoldable pub write_comma : Bool → W → Result W W
  write_comma first w = if first then ok w else sink.write_all (ascii ",") w

  unfoldable pub write_frame : List (JsonWriteFrame N) → W → JsonRound N W
  unfolding write_comma
  write_frame [] w = return (ok w)
  write_frame (array_frame nil first ∷ fs) w = written fs (sink.write_all (ascii "]") w)
  write_frame (array_frame (cons v xs) first ∷ fs) w =
      descend v (array_frame xs false ∷ fs) (write_comma first w)
  write_frame (object_frame end first ∷ fs) w = written fs (sink.write_all (ascii "}") w)
  write_frame (object_frame (member k v ms) first ∷ fs) w = descend v (object_frame ms false ∷ fs) (
      then_write (then_write (write_comma first w) (write_pieces sink (serde.quote k)))
        (sink.write_all (ascii ":")))

  unfoldable pub write_round : Walk (Value N) (JsonWriteFrame N) W → JsonRound N W
  unfolding write_value write_frame
  write_round s = elim s.current [
    | some v ↦ write_value v s.frames s.output
    | none ↦ write_frame s.frames s.output
  ]

  unfoldable pub write_ordered : Value N → W → Option (Result W W)
  unfolding write_round loop_for rounds
  write_ordered root w =
      loop_for (rounds root 1) write_round (record { current = some root; frames = []; output = w })

module _ {N : Type 0} {W : Type 0} (serde : Serde N) (sink : Sink W) where
  unfoldable pub write_json : Value N → W → Option (Result W W)
  unfolding write_ordered
  write_json = write_ordered (λ ms. ms) serde sink

  unfoldable pub write_canonical_json : Value N → W → Option (Result W W)
  unfolding write_ordered sort_members
  write_canonical_json = write_ordered sort_members serde sink

abbrev pub comma : Bool → List Text
comma first = if first then [] else ascii "," ∷ []

-- The compact text of a value, in the pieces in which it is written.
module _ {N : Type 0} (serde : Serde N) where
  unfoldable mutual
    pub pieces : Value N → List Text
    pieces null = ascii "null" ∷ []
    pieces (bool true) = ascii "true" ∷ []
    pieces (bool false) = ascii "false" ∷ []
    pieces (number n) = serde.number_text n ∷ []
    pieces (string s) = serde.quote s
    pieces (array xs) = ascii "[" ∷ pieces_values xs true
    pieces (object ms) = ascii "{" ∷ pieces_members ms true

    pub pieces_values : Values N → Bool → List Text
    pieces_values nil first = ascii "]" ∷ []
    pieces_values (cons v xs) first = comma first ++ (pieces v ++ pieces_values xs false)

    pub pieces_members : Members N → Bool → List Text
    pieces_members end first = ascii "}" ∷ []
    pieces_members (member k v ms) first =
        comma first ++ (serde.quote k ++ ascii ":" ∷ (pieces v ++ pieces_members ms false))
