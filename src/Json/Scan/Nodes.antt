-- ===== src/Json/Scan/Nodes.antt =====
-- json_traversal.rs: `json_bytes_nodes_are_bounded`. The loops over a string and over a scalar are modes
-- of one machine that reads a byte at a time; the byte that ends a scalar is read again outside it.
use magic_vault.Base.{
  ℕ, Text, nat_eq, ◌==◌, is_some, leb, if◌then◌else◌, Bool, true, false, ◌||◌, List, [], ◌∷◌,
  length, Option, none, some, ◌≡◌, ◌≤◌, arith, inl, inr, Option-cases,
}
use magic_vault.Json.Buffers.{saturating_add}
use magic_vault.Json.Scan.{quote_mark, backslash, open_bracket, is_open, is_close, scan}

abbrev pub max_retained_json_depth : ℕ
max_retained_json_depth = 64

pub data ScanMode : Type 0 where
  between in_scalar : ScanMode
  in_text : Bool → ScanMode

pub record NodeScan : Type 0 where
  pub containers : List ℕ
  pub expects_value : Bool
  pub nodes : ℕ
  pub mode : ScanMode

abbrev pub is_blank_byte : ℕ → Bool
is_blank_byte byte = byte == 32 || (byte == 10 || (byte == 13 || byte == 9))

abbrev pub ends_scalar : ℕ → Bool
ends_scalar byte = is_blank_byte byte || (byte == b',' || is_close byte)

-- `expects_value && !admit_node(&mut nodes)` refuses.
unfoldable pub admit_value : ℕ → NodeScan → Option NodeScan
unfolding saturating_add
admit_value max_nodes s =
    if s.expects_value
    then (if leb max_nodes s.nodes
        then none
        else some (record s { nodes = saturating_add s.nodes 1 }))
    else some s

abbrev pub opened : ℕ → Option NodeScan → Option NodeScan
opened byte none = none
opened byte (some s) =
    some (record s { containers = byte ∷ s.containers; expects_value = byte == open_bracket })

abbrev pub started : ScanMode → Option NodeScan → Option NodeScan
started mode none = none
started mode (some s) = some (record s { expects_value = false; mode = mode })

abbrev pub without_top : List ℕ → List ℕ
without_top [] = []
without_top (_ ∷ stack) = stack

abbrev pub top_is_array : List ℕ → Bool
top_is_array [] = false
top_is_array (top ∷ _) = top == open_bracket

-- A byte outside strings and scalars.
unfoldable pub structural : ℕ → NodeScan → ℕ → Option NodeScan
unfolding admit_value nat_eq
structural max_nodes s byte =
    if is_blank_byte byte
    then some s
    else if is_open byte
    then (if leb max_retained_json_depth (length s.containers)
        then none
        else opened byte (admit_value max_nodes s))
    else if is_close byte
    then some (record s { containers = without_top s.containers; expects_value = false })
    else if byte == b':'
    then some (record s { expects_value = true })
    else if byte == b','
    then some (record s { expects_value = top_is_array s.containers })
    else if byte == quote_mark
    then started (ScanMode.in_text false) (admit_value max_nodes s)
    else started ScanMode.in_scalar (admit_value max_nodes s)

unfoldable pub node_step : ℕ → NodeScan → ℕ → Option NodeScan
unfolding structural nat_eq
node_step max_nodes s byte = elim s.mode [
  | ScanMode.between ↦ structural max_nodes s byte
  | ScanMode.in_scalar ↦
      if ends_scalar byte
      then structural max_nodes (record s { mode = ScanMode.between }) byte
      else some s
  | ScanMode.in_text escaped ↦
      if escaped
      then some (record s { mode = ScanMode.in_text false })
      else if byte == backslash
      then some (record s { mode = ScanMode.in_text true })
      else if byte == quote_mark
      then some (record s { mode = ScanMode.between })
      else some s
]

unfoldable pub json_bytes_nodes_are_bounded : Text → ℕ → Bool
unfolding node_step scan
json_bytes_nodes_are_bounded bytes max_nodes =
    let start : NodeScan = record {
      containers = [];
      expects_value = true;
      nodes = 0;
      mode = ScanMode.between;
    } in
    is_some (scan (node_step max_nodes) start bytes)

-- The stack is within the depth that is kept, and the count within its limit.
abbrev pub IsHeld : ℕ → NodeScan → Type 0
IsHeld max_nodes s = (length s.containers ≤ max_retained_json_depth) × (s.nodes ≤ max_nodes)

admit_value-IsHeld :
    (max_nodes : ℕ) (s t : NodeScan)
    → IsHeld max_nodes s
    → admit_value max_nodes s ≡ some t
    → (t.containers ≡ s.containers) × (t.nodes ≤ max_nodes)
unfolding admit_value saturating_add
admit_value-IsHeld max_nodes s t h e = ground arith

structural-IsHeld :
    (max_nodes : ℕ) (s t : NodeScan) (byte : ℕ)
    → IsHeld max_nodes s
    → structural max_nodes s byte ≡ some t
    → IsHeld max_nodes t
unfolding structural
structural-IsHeld max_nodes s t byte h e = elim (Option-cases (admit_value max_nodes s)) [
  | inl n ↦ ground (arith, n)
  | inr (u, n) ↦ ground (arith, n, admit_value-IsHeld max_nodes s u h n)
]

node_step-IsHeld :
    (max_nodes : ℕ) (s t : NodeScan) (byte : ℕ)
    → IsHeld max_nodes s
    → node_step max_nodes s byte ≡ some t
    → IsHeld max_nodes t
unfolding node_step
node_step-IsHeld max_nodes s t byte h e = ground (
  arith,
  structural-IsHeld max_nodes s t byte h,
  structural-IsHeld max_nodes (record s { mode = ScanMode.between }) t byte h,
)

-- The scanner never keeps more than 64 open containers nor counts past its limit, on any bytes.
scan-IsHeld :
    (max_nodes : ℕ) (bytes : Text) (s t : NodeScan)
    → IsHeld max_nodes s
    → scan (node_step max_nodes) s bytes ≡ some t
    → IsHeld max_nodes t
unfolding scan
scan-IsHeld max_nodes [] s t h e = ground arith
scan-IsHeld max_nodes (byte ∷ bytes) s t h e = elim (Option-cases (node_step max_nodes s byte)) [
  | inl n ↦ ground (arith, n)
  | inr (u, n) ↦
      let next = scan-IsHeld max_nodes bytes u t (node_step-IsHeld max_nodes s u byte h n) in
      ground (arith, n, next)
]
