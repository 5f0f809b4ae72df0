-- ===== src/Tests/Values.antt =====
-- The loops and the scanners of json_traversal.rs on small values, with one digit for a number and a
-- backslash before a quote or a backslash of a string.
use magic_vault.Base.Bytes.{compare_text}
use magic_vault.Base.{
  ap, ℕ, ◌+◌, ◌≤◌, ◌≡◌, refl, arith, Text, ascii, nat_eq, ◌==◌, ◌||◌, if◌then◌else◌, true, false,
  leb, List, [], ◌∷◌, length, some, none, ok, Bool-cases, inl, inr,
}
use native.Mathlib.Decide.{ℕ_discrete}
use mathlib.Core.List.{append-nil}
use magic_vault.Json.{Value, Serde, null, bool, number, array, object, nil, cons, end, member}
use magic_vault.Json.Sink.{write_pieces}
use magic_vault.Json.Sorted.{swap}
use magic_vault.Json.Shape.{nodes, rounds}
use magic_vault.Json.Loop.{loop_for}
use magic_vault.Json.Compact.{
  write_json, write_ordered, write_round, write_value, write_frame, write_comma, pieces,
}
use magic_vault.Json.Compact.Writing.{write_json-pieces}
use magic_vault.Json.Buffers.{vec_sink, concat, saturating_add}
use magic_vault.Json.Measure.{exact_json_encoded_len, canonical_json_bytes}
use magic_vault.Json.Measure.Exact.{compact, exact_json_encoded_len-length}
use magic_vault.Json.Inspect.{count_values, inspect_json_bounded}
use magic_vault.Json.Inspect.Admission.{inspect_json_bounded-metrics}
use magic_vault.Json.Inspect.Measures.{depth, entries, widest}
use magic_vault.Json.Copy.{canonicalize_json, clone_json_bounded}
use magic_vault.Json.Ordered.{EveryObject, Ascending, Distinct}
use magic_vault.Json.Ordered.Canonical.{Every-Distinct}
use magic_vault.Json.Ordered.Copied.{canonicalize_json-Alike}
use magic_vault.Json.Ordered.Admitted.{clone_json_bounded_iff}
use magic_vault.Json.Ordered.Alike.{
  Alike, itself, objects, no_members, members_alike, canonical_json_bytes-Alike,
}
use magic_vault.Json.Scan.{
  quote_mark, backslash, scan, nesting_step, json_bytes_depth_is_bounded,
  json_bytes_nesting_is_bounded,
}
use magic_vault.Json.Scan.Encoded.{StringBody, closed, plain, escape, IsTokenByte, one, WritesJson}
use magic_vault.Json.Scan.Stream.{
  new, finish, feed_chunks, feed, feed_bytes, feed_byte, admit_expected, admit_node,
}
use magic_vault.Json.Scan.Depth.{json_bytes_nesting-compact}
use magic_vault.Json.Scan.Implied.{
  json_bytes_depth-nesting, json_bytes_nesting-feed_chunks, finish-feed_chunks,
}

abbrev escaped : Text → Text
escaped [] = quote_mark ∷ []
escaped (c ∷ s) =
    let rest = escaped s in
    if c == quote_mark || c == backslash then backslash ∷ c ∷ rest else c ∷ rest

abbrev digits : Serde ℕ
digits = record {
  number_text = λ n. (if leb n 9 then 48 + n else 57) ∷ [];
  quote = λ s. (quote_mark ∷ []) ∷ escaped s ∷ [];
}

digit_byte : (c : ℕ) → 48 ≤ c → c ≤ 57 → IsTokenByte c
digit_byte c h g = record {
  not_quote = ground arith;
  not_open_brace = ground arith;
  not_open_bracket = ground arith;
  not_close_brace = ground arith;
  not_close_bracket = ground arith;
  not_colon = ground arith;
  not_comma = ground arith;
  not_space = omega arith;
}

digit : (n : ℕ) → IsTokenByte (if leb n 9 then 48 + n else 57)
digit n = digit_byte (if leb n 9 then 48 + n else 57) (ground arith) (ground arith)

escaped-StringBody : (s : Text) → StringBody (escaped s)
unfolding nat_eq
escaped-StringBody [] = closed
escaped-StringBody (c ∷ s) = elim (Bool-cases (c == quote_mark || c == backslash)) [
  | inl special ↦ rw special (escape c (escaped-StringBody s))
  | inr safe ↦
      rw safe (plain c (ground (arith, safe)) (ground (arith, safe)) (escaped-StringBody s))
]

digits-WritesJson : WritesJson digits
unfolding concat
digits-WritesJson = record {
  token = λ n. one _ (digit n);
  quoted = λ s. (escaped s, (ap (quote_mark ∷◌) (append-nil (escaped s)), escaped-StringBody s));
}

-- {"a":[1,true],"b":null}
abbrev sample : Value ℕ
sample = object (
    member (ascii "a") (array (cons (number 1) (cons (bool true) nil)))
      (member (ascii "b") null end))

-- The same members in the other order.
abbrev swapped : Value ℕ
swapped = object (
    member (ascii "b") null
      (member (ascii "a") (array (cons (number 1) (cons (bool true) nil))) end))

sample-Ascending : EveryObject Ascending sample
unfolding EveryObject compare_text
sample-Ascending = ((((refl, tt), (tt, tt)), ((tt, (tt, tt)), (tt, tt))))

swapped-Distinct : EveryObject Distinct swapped
unfolding EveryObject
swapped-Distinct = (((((λ e. ground (arith, e)), tt), (tt, tt))), (tt, ((tt, (tt, tt)), tt)))

sample-Distinct : EveryObject Distinct sample
sample-Distinct = Every-Distinct sample sample-Ascending

swapped-sample : Alike swapped sample
swapped-sample =
    objects (swap (ascii "b") (ascii "a") null (array (cons (number 1) (cons (bool true) nil))) end)
      (members_alike (ascii "a") (itself (array (cons (number 1) (cons (bool true) nil))))
        (members_alike (ascii "b") (itself null) no_members))

write_json-sample :
    write_json digits vec_sink sample [] ≡ some (ok (ascii "{\"a\":[1,true],\"b\":null}"))
unfolding write_json write_ordered write_round write_value write_frame write_comma loop_for rounds
    vec_sink write_pieces nat_eq ℕ_discrete
write_json-sample = refl

write_json-pieces_example :
    write_json digits vec_sink sample [] ≡ some (write_pieces vec_sink (pieces digits sample) [])
write_json-pieces_example = write_json-pieces digits vec_sink sample []

exact_json_encoded_len-length_example :
    exact_json_encoded_len digits sample ≡ some (saturating_add 0 (length (compact digits sample)))
exact_json_encoded_len-length_example = exact_json_encoded_len-length digits sample

inspect_json_bounded-metrics_example :
    inspect_json_bounded digits sample 5
    ≡ some (some (record { max_depth = 2; array_entries = 2; maximum_scalar_bytes = 4; nodes = 5 }))
unfolding nodes depth entries count_values widest
inspect_json_bounded-metrics_example = inspect_json_bounded-metrics digits sample 5 (omega arith)

canonicalize_json-Alike_example :
    (v : Value ℕ) × ((canonicalize_json swapped ≡ some v)
      × (EveryObject Ascending v × (Alike swapped v × (canonicalize_json v ≡ some v))))
canonicalize_json-Alike_example = canonicalize_json-Alike swapped swapped-Distinct

clone_json_bounded_iff_example : clone_json_bounded digits sample 5 24 1 ≡ some none
unfolding nodes depth
clone_json_bounded_iff_example =
    clone_json_bounded_iff digits sample 5 24 1 sample-Ascending (omega arith) (omega arith)

canonical_json_bytes-Alike_example :
    canonical_json_bytes digits swapped ≡ canonical_json_bytes digits sample
canonical_json_bytes-Alike_example =
    canonical_json_bytes-Alike digits swapped-sample swapped-Distinct

json_bytes_nesting-compact_example : json_bytes_nesting_is_bounded (compact digits sample) 1 ≡ false
unfolding depth
json_bytes_nesting-compact_example = json_bytes_nesting-compact digits digits-WritesJson sample 1

json_bytes_depth-nesting_example : json_bytes_depth_is_bounded (ascii "[[]]") 2 ≡ true
unfolding json_bytes_nesting_is_bounded scan nesting_step nat_eq ℕ_discrete
json_bytes_depth-nesting_example = json_bytes_depth-nesting 2 (omega arith) (ascii "[[]]") refl

-- The body [[],1] in two chunks.
abbrev chunks : List Text
chunks = ascii "[[]," ∷ ascii "1]" ∷ []

json_bytes_nesting-feed_chunks_example : json_bytes_nesting_is_bounded (concat chunks) 2 ≡ true
unfolding finish feed_chunks feed feed_bytes feed_byte admit_expected admit_node saturating_add
    nat_eq ℕ_discrete
json_bytes_nesting-feed_chunks_example = json_bytes_nesting-feed_chunks chunks 2 3 refl

-- [[],1]
abbrev pair : Value ℕ
pair = array (cons (array nil) (cons (number 1) nil))

finish-feed_chunks_example : finish (feed_chunks (new 2 2) chunks) ≡ false
unfolding concat pieces nodes depth
finish-feed_chunks_example =
    finish-feed_chunks digits pair chunks 2 2 digits-WritesJson (omega arith) refl
