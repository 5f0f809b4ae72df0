-- ===== src/Json/Buffers.antt =====
-- The writers of json_traversal.rs: `CountingWriter`, `BoundedBuffer`, `PrefixBuffer`, and a `Vec`.
pub mod Contents
use magic_vault.Base.{
  ℕ, ◌+◌, ◌-◌, Text, Bool, true, ltb, leb, if◌then◌else◌, not, List, [], ◌∷◌, ◌++◌, length, Result,
  ok, err,
}
use magic_vault.Base.Bytes.{take, usize_max}
use magic_vault.Json.Sink.{Sink}

-- `usize::saturating_add`.
unfoldable pub saturating_add : ℕ → ℕ → ℕ
saturating_add a b = if leb (a + b) usize_max then a + b else usize_max

pub record CountingWriter : Type 0 where
  pub bytes : ℕ

unfoldable pub counting_sink : Sink CountingWriter
unfolding saturating_add
counting_sink = record {
  write_all = λ buffer w. ok (record { bytes = saturating_add w.bytes (length buffer) });
}

pub record BoundedBuffer : Type 0 where
  pub bytes : Text
  pub max_bytes : ℕ
  pub exceeded : Bool

abbrev pub admit_buffer : Text → BoundedBuffer → BoundedBuffer
admit_buffer buffer w =
    if leb (length buffer) (w.max_bytes - length w.bytes)
    then record { bytes = w.bytes ++ buffer; max_bytes = w.max_bytes; exceeded = w.exceeded }
    else record { bytes = []; max_bytes = w.max_bytes; exceeded = true }

unfoldable pub bounded_sink : Sink BoundedBuffer
bounded_sink = record {
  write_all = λ buffer w. ok (if not w.exceeded then admit_buffer buffer w else w);
}

pub record PrefixBuffer : Type 0 where
  pub bytes : Text
  pub max_bytes : ℕ
  pub truncated : Bool

abbrev pub fill_prefix : Text → ℕ → PrefixBuffer → Result PrefixBuffer PrefixBuffer
fill_prefix buffer remaining w =
    if ltb remaining (length buffer)
    then err (record {
      bytes = if ltb 0 remaining then w.bytes ++ take remaining buffer else w.bytes;
      max_bytes = w.max_bytes;
      truncated = true;
    })
    else ok (record { bytes = w.bytes ++ buffer; max_bytes = w.max_bytes; truncated = w.truncated })

unfoldable pub prefix_sink : Sink PrefixBuffer
prefix_sink = record { write_all = λ buffer w. fill_prefix buffer (w.max_bytes - length w.bytes) w }

-- `impl Write for Vec<u8>`.
unfoldable pub vec_sink : Sink Text
vec_sink = record { write_all = λ buffer w. ok (w ++ buffer) }

-- The bytes of the pieces in a row.
unfoldable pub concat : List Text → Text
concat [] = []
concat (p ∷ ps) = p ++ concat ps
