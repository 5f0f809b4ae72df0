-- ===== src/Json/Scan/Implied.antt =====
-- The three scanners of JSON bytes on any bytes, JSON or not.
use magic_vault.Base.{
  ℕ, ◌≤◌, ◌≡◌, refl, sym, ap, ◌∙◌, arith, Text, nat_eq, true, false, ◌&&◌, leb, inl, inr, List, [],
  ◌∷◌, length, is_some, Option, none, some, Option-cases,
}
use magic_vault.Base.Bytes.{usize_max}
use magic_vault.Json.Buffers.{saturating_add}
use magic_vault.Json.Scan.{
  StringState, outside_string, scan, depth_step, json_bytes_depth_is_bounded, nesting_step,
  nesting_done, json_bytes_nesting_is_bounded,
}
use magic_vault.Json.Scan.Stream.{
  EncodedJsonStreamAdmission, new, feed_byte, feed, finish, admit_expected, admit_node,
}
use magic_vault.Json.{Value, Serde}
use magic_vault.Json.Shape.{nodes}
use magic_vault.Json.Inspect.Measures.{depth}
use magic_vault.Json.Buffers.{concat}
use magic_vault.Json.Measure.Exact.{compact}
use magic_vault.Json.Scan.Encoded.{WritesJson}
use magic_vault.Json.Scan.Chunks.{feed_chunks-concat}
use magic_vault.Json.Scan.Stream.{feed_chunks}
use magic_vault.Json.Scan.Admits.{stream_step, finish_fed, feed-new-scan, finish-compact}

scan-some :
    {S : Type 0} (step : S → ℕ → Option S) (s u : S) (b : ℕ) (t : Text)
    → step s b ≡ some u
    → scan step s (b ∷ t) ≡ scan step u t
unfolding scan
scan-some step s u b t e = ap (λ o. elim o [ some v ↦ scan step v t | none ↦ none ]) e

scan-none :
    {S : Type 0} (step : S → ℕ → Option S) (s : S) (b : ℕ) (t : Text)
    → step s b ≡ none
    → scan step s (b ∷ t) ≡ none
unfolding scan
scan-none step s b t e = ap (λ o. elim o [ some v ↦ scan step v t | none ↦ none ]) e

module _ (limit : ℕ) (small : limit ≤ usize_max) where
  depth_step-nesting_step :
      (st st' : List ℕ) (s s' : StringState) (b : ℕ)
      → nesting_step limit (st, s) b ≡ some (st', s')
      → depth_step limit (length st, s) b ≡ some (length st', s')
  unfolding depth_step nesting_step saturating_add nat_eq
  depth_step-nesting_step [] st' s s' b h = ground (arith, small, h)
  depth_step-nesting_step (top ∷ st) st' s s' b h = ground (arith, small, h)

  depth-nesting :
      (st : List ℕ) (s : StringState) (t : Text)
      → nesting_done (scan (nesting_step limit) (st, s) t) ≡ true
      → is_some (scan (depth_step limit) (length st, s) t) ≡ true
  unfolding scan
  depth-nesting st s [] h = refl
  depth-nesting st s (b ∷ t) h = elim (Option-cases (nesting_step limit (st, s) b)) [
    | inl e ↦
        absurd (ground (arith, h, ap nesting_done (scan-none (nesting_step limit) (st, s) b t e)))
    | inr ((st', s'), e) ↦
        ap is_some (
          scan-some (depth_step limit) (length st, s) (length st', s') b t
            (depth_step-nesting_step st st' s s' b e))
        ∙ depth-nesting st' s' t
            (sym (ap nesting_done (scan-some (nesting_step limit) (st, s) (st', s') b t e)) ∙ h)
  ]

  -- Whatever bytes a body holds, if `json_bytes_nesting_is_bounded` accepts it then so does
  -- `json_bytes_depth_is_bounded`, at the same limit, which fits a `usize`.
  pub json_bytes_depth-nesting :
      (t : Text)
      → json_bytes_nesting_is_bounded t limit ≡ true
      → json_bytes_depth_is_bounded t limit ≡ true
  unfolding json_bytes_nesting_is_bounded json_bytes_depth_is_bounded
  json_bytes_depth-nesting t h = depth-nesting [] outside_string t h

abbrev string_state : EncodedJsonStreamAdmission → StringState
string_state a = record { in_string = a.in_string; escaped = a.escaped }

nesting_step-stream_step :
    (a a' : EncodedJsonStreamAdmission) (b : ℕ)
    → a.rejected ≡ false
    → stream_step a b ≡ some a'
    → (nesting_step a.max_depth (a.containers, string_state a) b
        ≡ some (a'.containers, string_state a'))
      × ((a'.max_depth ≡ a.max_depth) × (a'.rejected ≡ false))
unfolding nesting_step stream_step feed_byte admit_expected admit_node nat_eq
nesting_step-stream_step a a' b g h = ground (arith, g, h)

nesting-stream :
    (a : EncodedJsonStreamAdmission) (t : Text) (limit : ℕ)
    → a.max_depth ≡ limit
    → a.rejected ≡ false
    → finish_fed (scan stream_step a t) ≡ true
    → nesting_done (scan (nesting_step limit) (a.containers, string_state a) t) ≡ true
unfolding scan finish
nesting-stream a [] limit m g h = ground (arith, g, h)
nesting-stream a (b ∷ t) limit m g h = elim (Option-cases (stream_step a b)) [
  | inl e ↦ absurd (ground (arith, h, ap finish_fed (scan-none stream_step a b t e)))
  | inr (a', e) ↦
      let (moved, (deep, kept)) = nesting_step-stream_step a a' b g e in
      let moved' : nesting_step limit (a.containers, string_state a) b
          ≡ some (a'.containers, string_state a') =
        ap (λ l. nesting_step l (a.containers, string_state a) b) (sym m) ∙ moved in
      ap nesting_done (
        scan-some (nesting_step limit) (a.containers, string_state a)
          (a'.containers, string_state a') b t moved')
      ∙ nesting-stream a' t limit (deep ∙ m) kept
          (sym (ap finish_fed (scan-some stream_step a a' b t e)) ∙ h)
]

-- Whatever bytes the chunks hold, if the admission that is fed them finishes well then the whole
-- body is one that `json_bytes_nesting_is_bounded` accepts at the same depth.
pub json_bytes_nesting-feed_chunks :
    (chunks : List Text) (max_depth max_nodes : ℕ)
    → finish (feed_chunks (new max_depth max_nodes) chunks) ≡ true
    → json_bytes_nesting_is_bounded (concat chunks) max_depth ≡ true
unfolding json_bytes_nesting_is_bounded
json_bytes_nesting-feed_chunks chunks max_depth max_nodes h =
    nesting-stream (new max_depth max_nodes) (concat chunks) max_depth refl refl (
      sym (feed-new-scan max_depth max_nodes (concat chunks))
      ∙ ap finish (feed_chunks-concat (new max_depth max_nodes) chunks)
      ∙ h)

-- However the compact text of a value is cut into chunks, the admission that is fed them finishes
-- well exactly when the value has no more values and is nested no deeper than the limits allow,
-- for a limit on the values that fits a `usize` and an encoder that writes numbers as tokens and
-- strings with their quotes and backslashes escaped.
pub finish-feed_chunks :
    {N : Type 0} (serde : Serde N) (root : Value N) (chunks : List Text) (max_depth max_nodes : ℕ)
    → WritesJson serde
    → max_nodes ≤ usize_max
    → concat chunks ≡ compact serde root
    → finish (feed_chunks (new max_depth max_nodes) chunks)
      ≡ (leb (nodes root) max_nodes && leb (depth root) max_depth)
finish-feed_chunks serde root chunks max_depth max_nodes writes small e =
    ap finish (sym (feed_chunks-concat (new max_depth max_nodes) chunks))
    ∙ ap (λ t. finish (feed (new max_depth max_nodes) t).0) e
    ∙ finish-compact serde root max_depth max_nodes writes small
