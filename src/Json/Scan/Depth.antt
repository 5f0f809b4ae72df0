-- ===== src/Json/Scan/Depth.antt =====
-- `json_bytes_depth_is_bounded` and `json_bytes_nesting_is_bounded` on the compact text of a value.
use magic_vault.Base.{
  ℕ, ◌≤◌, ◌≡◌, ◌≢◌, refl, ap, ◌∙◌, arith, Text, nat_eq, ◌==◌, Bool, false, leb, List, [], ◌∷◌,
  length, is_some, none, some,
}
use magic_vault.Json.{Value, Serde}
use magic_vault.Json.Inspect.Measures.{depth}
use magic_vault.Base.Bytes.{usize_max}
use magic_vault.Json.Buffers.{saturating_add}
use magic_vault.Json.Measure.Exact.{compact}
use magic_vault.Json.Scan.{
  StringState, outside_string, inside_string, scan, quote_mark, backslash, depth_step,
  json_bytes_depth_is_bounded, nesting_step, nesting_done, json_bytes_nesting_is_bounded,
}
use magic_vault.Json.Scan.Encoded.{
  StringBody, closed, plain, escape, IsTokenByte, IsToken, one, more, WritesJson, IsScanner,
}
use magic_vault.Json.Scan.Reads.{scan-compact, scan_one, after_some}

-- Outside strings the depth scanner knows the number of open containers.
abbrev depth_at : Bool → List ℕ → ℕ → ℕ × StringState
depth_at e c n = (length c, outside_string)

pub differs : (c d : ℕ) → c ≢ d → (c == d) ≡ false
unfolding nat_eq
differs c d h = ground (arith, h)

module _ (limit : ℕ) where
  depth_string :
      (d : ℕ) (t : Text)
      → StringBody t
      → scan (depth_step limit) (d, inside_string) t ≡ some (d, outside_string)
  unfolding scan depth_step nat_eq
  depth_string d t closed = refl
  depth_string d _ (plain c {t} p q body) =
      rw (differs c backslash q, differs c quote_mark p) (depth_string d t body)
  depth_string d _ (escape c body) = depth_string d _ body

  depth_token_byte :
      (c d : ℕ) → IsTokenByte c → depth_step limit (d, outside_string) c ≡ some (d, outside_string)
  unfolding depth_step nat_eq
  depth_token_byte c d b = ground (
    arith, b.not_quote, b.not_open_brace, b.not_open_bracket, b.not_close_brace,
    b.not_close_bracket,
  )

  depth_token :
      (d : ℕ) (t : Text)
      → IsToken t
      → scan (depth_step limit) (d, outside_string) t ≡ some (d, outside_string)
  unfolding scan
  depth_token d _ (one c b) =
      scan_one (depth_step limit) (d, outside_string) c ∙ depth_token_byte c d b
  depth_token d _ (more c {t} b is_token) =
      after_some (depth_step limit) (d, outside_string) (d, outside_string) (c ∷ []) t
        (scan_one (depth_step limit) (d, outside_string) c ∙ depth_token_byte c d b)
      ∙ depth_token d t is_token

  depth-IsScanner : limit ≤ usize_max → IsScanner (depth_step limit) depth_at (some limit) none
  unfolding depth_step nat_eq saturating_add scan
  depth-IsScanner small = record {
    open_array = λ c n. ground (arith, small);
    open_object = λ c n. ground (arith, small);
    close_array = λ e c n. ground arith;
    close_object = λ e c n. ground arith;
    array_comma = λ e c n. refl;
    object_comma = λ e c n. refl;
    colon = λ e c n. refl;
    token = λ t is_token c n. depth_token (length c) t is_token;
    key = λ body is_body c n. depth_string (length c) body is_body;
    text = λ body is_body c n. depth_string (length c) body is_body;
  }

-- Outside strings the nesting scanner knows the open containers.
abbrev nesting_at : Bool → List ℕ → ℕ → List ℕ × StringState
nesting_at e c n = (c, outside_string)

module _ (limit : ℕ) where
  nesting_string :
      (c : List ℕ) (t : Text)
      → StringBody t
      → scan (nesting_step limit) (c, inside_string) t ≡ some (c, outside_string)
  unfolding scan nesting_step nat_eq
  nesting_string c t closed = refl
  nesting_string c _ (plain b {t} p q body) =
      rw (differs b backslash q, differs b quote_mark p) (nesting_string c t body)
  nesting_string c _ (escape b body) = nesting_string c _ body

  nesting_token_byte :
      (b : ℕ) (c : List ℕ)
      → IsTokenByte b
      → nesting_step limit (c, outside_string) b ≡ some (c, outside_string)
  unfolding nesting_step nat_eq
  nesting_token_byte b c h = ground (
    arith, h.not_quote, h.not_open_brace, h.not_open_bracket, h.not_close_brace,
    h.not_close_bracket,
  )

  nesting_token :
      (c : List ℕ) (t : Text)
      → IsToken t
      → scan (nesting_step limit) (c, outside_string) t ≡ some (c, outside_string)
  nesting_token c _ (one b h) =
      scan_one (nesting_step limit) (c, outside_string) b ∙ nesting_token_byte b c h
  nesting_token c _ (more b {t} h is_token) =
      after_some (nesting_step limit) (c, outside_string) (c, outside_string) (b ∷ []) t
        (scan_one (nesting_step limit) (c, outside_string) b ∙ nesting_token_byte b c h)
      ∙ nesting_token c t is_token

  nesting-IsScanner : IsScanner (nesting_step limit) nesting_at (some limit) none
  unfolding nesting_step nat_eq scan
  nesting-IsScanner = record {
    open_array = λ c n. ground arith;
    open_object = λ c n. ground arith;
    close_array = λ e c n. refl;
    close_object = λ e c n. refl;
    array_comma = λ e c n. refl;
    object_comma = λ e c n. refl;
    colon = λ e c n. refl;
    token = λ t is_token c n. nesting_token c t is_token;
    key = λ body is_body c n. nesting_string c body is_body;
    text = λ body is_body c n. nesting_string c body is_body;
  }

module _ {N : Type 0} (serde : Serde N) (writes : WritesJson serde) where
  pub json_bytes_depth-compact :
      (root : Value N) (limit : ℕ)
      → limit ≤ usize_max
      → json_bytes_depth_is_bounded (compact serde root) limit ≡ leb (depth root) limit
  unfolding json_bytes_depth_is_bounded
  json_bytes_depth-compact root limit small =
      ap is_some (
        scan-compact serde writes (depth_step limit) depth_at (some limit) none
          (depth-IsScanner limit small) root)
      ∙ ground arith

  pub json_bytes_nesting-compact :
      (root : Value N) (limit : ℕ)
      → json_bytes_nesting_is_bounded (compact serde root) limit ≡ leb (depth root) limit
  unfolding json_bytes_nesting_is_bounded
  json_bytes_nesting-compact root limit =
      ap nesting_done (
        scan-compact serde writes (nesting_step limit) nesting_at (some limit) none
          (nesting-IsScanner limit) root)
      ∙ ground arith
