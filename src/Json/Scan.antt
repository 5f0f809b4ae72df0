-- ===== src/Json/Scan.antt =====
-- The scanners of json_traversal.rs that look at encoded bytes before a value is built:
-- `json_bytes_depth_is_bounded`, `json_bytes_nesting_is_bounded` and `EncodedJsonStreamAdmission`.
pub mod Stream
pub mod Chunks
pub mod Encoded
pub mod Limits
pub mod Reads
pub mod Depth
pub mod Admits
pub mod Implied
pub mod Nodes
use mathlib.Core.Option.{map}
use magic_vault.Base.{
  ℕ, ◌-◌, Text, nat_eq, ◌==◌, is_some, leb, if◌then◌else◌, Bool, true, false, not, ◌&&◌, ◌||◌, List,
  [], ◌∷◌, length, is_empty, Option, none, some,
}
use magic_vault.Json.Buffers.{saturating_add}

abbrev pub quote_mark : ℕ
quote_mark = 34

abbrev pub backslash : ℕ
backslash = 92

abbrev pub open_brace : ℕ
open_brace = 123

abbrev pub open_bracket : ℕ
open_bracket = 91

abbrev pub close_brace : ℕ
close_brace = 125

abbrev pub close_bracket : ℕ
close_bracket = 93

-- The state of a string in all three scanners: inside one, and after a backslash in it.
pub record StringState : Type 0 where
  pub in_string : Bool
  pub escaped : Bool

abbrev pub within_string : StringState → ℕ → StringState
within_string s byte =
    if s.escaped
    then record s { escaped = false }
    else if byte == backslash
    then record s { escaped = true }
    else if byte == quote_mark
    then record s { in_string = false }
    else s

abbrev pub outside_string : StringState
outside_string = record { in_string = false; escaped = false }

abbrev pub inside_string : StringState
inside_string = record { in_string = true; escaped = false }

abbrev pub is_open : ℕ → Bool
is_open byte = byte == open_brace || byte == open_bracket

abbrev pub is_close : ℕ → Bool
is_close byte = byte == close_brace || byte == close_bracket

-- A scanner reads one byte at a time and stops at the first that it refuses.
unfoldable pub scan {ℓ} : {S : Type ℓ} → (S → ℕ → Option S) → S → Text → Option S
scan step s [] = some s
scan step s (byte ∷ bytes) = elim (step s byte) [ some t ↦ scan step t bytes | none ↦ none ]

-- The depth and the string state of `json_bytes_depth_is_bounded`.
unfoldable pub depth_step : ℕ → ℕ × StringState → ℕ → Option (ℕ × StringState)
unfolding nat_eq saturating_add
depth_step max_depth (depth, s) byte =
    if s.in_string
    then some (depth, within_string s byte)
    else if byte == quote_mark
    then some (depth, record s { in_string = true })
    else if is_open byte
    then (if leb max_depth depth then none else some (saturating_add depth 1, s))
    else if is_close byte
    then some (depth - 1, s)
    else some (depth, s)

unfoldable pub json_bytes_depth_is_bounded : Text → ℕ → Bool
unfolding depth_step scan
json_bytes_depth_is_bounded bytes max_depth =
    is_some (scan (depth_step max_depth) (0, outside_string) bytes)

-- `stack.pop()`, and whether it gave `opener`: the stack without its top, the top standing first.
abbrev pub pop_open : ℕ → List ℕ → Option (List ℕ)
pop_open opener [] = none
pop_open opener (top ∷ stack) = if top == opener then some stack else none

-- The stack and the string state of `json_bytes_nesting_is_bounded`.
unfoldable pub nesting_step : ℕ → List ℕ × StringState → ℕ → Option (List ℕ × StringState)
unfolding nat_eq
nesting_step max_depth (stack, s) byte =
    if s.in_string
    then some (stack, within_string s byte)
    else if byte == quote_mark
    then some (stack, record s { in_string = true })
    else if is_open byte
    then (if leb max_depth (length stack) then none else some (byte ∷ stack, s))
    else if byte == close_brace
    then map (λ rest. (rest, s)) (pop_open open_brace stack)
    else if byte == close_bracket
    then map (λ rest. (rest, s)) (pop_open open_bracket stack)
    else some (stack, s)

abbrev pub nesting_done : Option (List ℕ × StringState) → Bool
nesting_done none = false
nesting_done (some (stack, s)) = not s.in_string && (not s.escaped && is_empty stack)

unfoldable pub json_bytes_nesting_is_bounded : Text → ℕ → Bool
unfolding nesting_step scan
json_bytes_nesting_is_bounded bytes max_depth =
    nesting_done (scan (nesting_step max_depth) ([], outside_string) bytes)
