-- ===== src/Json/Scan/Stream.antt =====
-- `EncodedJsonStreamAdmission` of json_traversal.rs: the scanner of a body that comes in chunks.
use magic_vault.Base.{
  ℕ, Text, nat_eq, ◌==◌, leb, ltb, if◌then◌else◌, Bool, true, false, not, ◌&&◌, ◌||◌, List, [], ◌∷◌,
  length, is_empty,
}
use magic_vault.Json.Buffers.{saturating_add}
use magic_vault.Json.Scan.{
  quote_mark, backslash, open_brace, open_bracket, close_brace, close_bracket, is_open,
}

-- The top of `containers` stands first.
pub record EncodedJsonStreamAdmission : Type 0 where
  pub containers : List ℕ
  pub max_depth : ℕ
  pub max_nodes : ℕ
  pub nodes : ℕ
  pub expects_value : Bool
  pub in_string : Bool
  pub escaped : Bool
  pub rejected : Bool

abbrev pub new : ℕ → ℕ → EncodedJsonStreamAdmission
new max_depth max_nodes = record {
  containers = [];
  max_depth = max_depth;
  max_nodes = max_nodes;
  nodes = 0;
  expects_value = true;
  in_string = false;
  escaped = false;
  rejected = false;
}

unfoldable pub admit_node : EncodedJsonStreamAdmission → EncodedJsonStreamAdmission
unfolding saturating_add
admit_node a =
    if leb a.max_nodes a.nodes
    then record a { rejected = true }
    else record a { nodes = saturating_add a.nodes 1 }

abbrev pub expecting : Bool → EncodedJsonStreamAdmission → EncodedJsonStreamAdmission
expecting b a = record a { expects_value = b }

-- `if self.expects_value { self.admit_node(); }`
unfoldable pub admit_expected : EncodedJsonStreamAdmission → EncodedJsonStreamAdmission
unfolding admit_node
admit_expected a = if a.expects_value then admit_node a else a

abbrev pub push_container : ℕ → EncodedJsonStreamAdmission → EncodedJsonStreamAdmission
push_container byte a =
    if leb a.max_depth (length a.containers)
    then record a { rejected = true }
    else record a { containers = byte ∷ a.containers }

-- `if self.containers.pop() != Some(opener) { self.rejected = true; }`
abbrev pub pop_container : ℕ → EncodedJsonStreamAdmission → EncodedJsonStreamAdmission
pop_container opener a = elim a.containers [
  | [] ↦ record a { rejected = true }
  | top ∷ rest ↦
      if top == opener
      then record a { containers = rest }
      else record a { containers = rest; rejected = true }
]

abbrev pub top_is : ℕ → List ℕ → Bool
top_is opener [] = false
top_is opener (top ∷ _) = top == opener

abbrev pub is_space : ℕ → Bool
is_space byte = byte == 32 || (byte == 10 || (byte == 13 || byte == 9))

abbrev pub feed_string : ℕ → EncodedJsonStreamAdmission → EncodedJsonStreamAdmission
feed_string byte a =
    if a.escaped
    then record a { escaped = false }
    else if byte == backslash
    then record a { escaped = true }
    else if byte == quote_mark
    then record a { in_string = false }
    else a

unfoldable pub feed_byte : EncodedJsonStreamAdmission → ℕ → EncodedJsonStreamAdmission
unfolding nat_eq admit_expected
feed_byte a byte =
    if a.in_string
    then feed_string byte a
    else if is_space byte
    then a
    else if is_open byte
    then expecting (byte == open_bracket) (push_container byte (admit_expected a))
    else if byte == close_brace
    then expecting false (pop_container open_brace a)
    else if byte == close_bracket
    then expecting false (pop_container open_bracket a)
    else if byte == b':'
    then expecting true a
    else if byte == b','
    then expecting (top_is open_bracket a.containers) a
    else if byte == quote_mark
    then record (expecting false (admit_expected a)) { in_string = true }
    else expecting false (admit_expected a)

unfoldable pub feed_bytes : EncodedJsonStreamAdmission → Text → EncodedJsonStreamAdmission × Bool
unfolding feed_byte
feed_bytes a [] = (a, true)
feed_bytes a (byte ∷ bytes) =
    let rest = feed_bytes (feed_byte a byte) bytes in
    if (feed_byte a byte).rejected then (feed_byte a byte, false) else rest

unfoldable pub feed : EncodedJsonStreamAdmission → Text → EncodedJsonStreamAdmission × Bool
unfolding feed_bytes
feed a bytes = if a.rejected then (a, false) else feed_bytes a bytes

unfoldable pub finish : EncodedJsonStreamAdmission → Bool
finish a =
    not a.rejected
    && (not a.in_string && (not a.escaped && (is_empty a.containers && ltb 0 a.nodes)))

-- The chunks of a body, one call of `feed` for each.
unfoldable pub feed_chunks : EncodedJsonStreamAdmission → List Text → EncodedJsonStreamAdmission
unfolding feed
feed_chunks a [] = a
feed_chunks a (chunk ∷ chunks) = feed_chunks (feed a chunk).0 chunks
