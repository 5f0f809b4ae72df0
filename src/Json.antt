-- ===== src/Json.antt =====
-- JSON values and the loops that walk them on a worklist of their own: magicvault-primitives,
-- json_traversal.rs. A `Value` is a `serde_json::Value` and its numbers are of a type of that
-- library; an object is the list of its members in the order in which its map is walked. The maps
-- are `BTreeMap`s, so the keys of a value that the program holds increase strictly (`IsOrdered`).
pub mod Loop
pub mod Sink
pub mod Shape
pub mod Sorted
pub mod Compact
pub mod Buffers
pub mod Measure
pub mod Inspect
pub mod Copy
pub mod Scan
pub mod Ordered
use magic_vault.Base.{Text, Bool, List}

mutual
  pub data Value (N : Type 0) : Type 0 where
    null : Value N
    bool : Bool → Value N
    number : N → Value N
    string : Text → Value N
    array : Values N → Value N
    object : Members N → Value N

  pub data Values (N : Type 0) : Type 0 where
    nil : Values N
    cons : Value N → Values N → Values N

  pub data Members (N : Type 0) : Type 0 where
    end : Members N
    member : Text → Value N → Members N → Members N

-- What the loops take from serde_json: the text of a number, and the pieces that `to_writer`
-- writes for a string, quotes and escapes included.
pub record Serde (N : Type 0) : Type 0 where
  pub number_text : N → Text
  pub quote : Text → List Text
