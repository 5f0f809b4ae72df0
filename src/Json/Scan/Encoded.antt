-- ===== src/Json/Scan/Encoded.antt =====
-- What a scanner of JSON bytes has to know of its structural bytes, and what it then says of the
-- compact text of any value.
use magic_vault.Base.{
  ℕ, suc, ◌<◌, ◌≡◌, ◌≢◌, Text, Bool, true, false, ◌&&◌, leb, if◌then◌else◌, List, [], ◌∷◌, length,
  Option, none, some,
}
use magic_vault.Json.{Serde}
use magic_vault.Json.Buffers.{concat}
use magic_vault.Json.Scan.{
  scan, quote_mark, backslash, open_brace, open_bracket, close_brace, close_bracket,
}

-- The rest of an encoded string: bytes that need no escape, escapes, and the closing quote.
pub data StringBody : Text → Type 0 where
  closed : StringBody (quote_mark ∷ [])
  plain : (c : ℕ) {t : Text} → c ≢ quote_mark → c ≢ backslash → StringBody t → StringBody (c ∷ t)
  escape : (c : ℕ) {t : Text} → StringBody t → StringBody (backslash ∷ c ∷ t)

-- A byte of a number or of a literal.
pub record IsTokenByte (c : ℕ) : Type 0 where
  pub not_quote : c ≢ quote_mark
  pub not_open_brace : c ≢ open_brace
  pub not_open_bracket : c ≢ open_bracket
  pub not_close_brace : c ≢ close_brace
  pub not_close_bracket : c ≢ close_bracket
  pub not_colon : c ≢ b':'
  pub not_comma : c ≢ b','
  pub not_space : 32 < c

pub data IsToken : Text → Type 0 where
  one : (c : ℕ) → IsTokenByte c → IsToken (c ∷ [])
  more : (c : ℕ) {t : Text} → IsTokenByte c → IsToken t → IsToken (c ∷ t)

-- The documented form of what serde_json writes for a number and for a string.
pub record WritesJson {N : Type 0} (serde : Serde N) : Type 0 where
  pub token : (n : N) → IsToken (serde.number_text n)
  pub quoted :
      (s : Text) → (body : Text) × ((concat (serde.quote s) ≡ quote_mark ∷ body) × StringBody body)

-- `none` sets no limit.
abbrev pub allows : Option ℕ → ℕ → Bool
allows none n = true
allows (some limit) n = leb n limit

-- A scanner, between the tokens of a text: with the open containers, the innermost first, with the
-- values counted so far, and told whether a value comes next.
pub record IsScanner {S : Type 0} (step : S → ℕ → Option S) (at : Bool → List ℕ → ℕ → S)
    (max_depth max_nodes : Option ℕ) : Type 0 where
  pub open_array :
      (c : List ℕ) (n : ℕ)
      → step (at true c n) open_bracket ≡ (
          if allows max_depth (suc (length c)) && allows max_nodes (suc n)
          then some (at true (open_bracket ∷ c) (suc n))
          else none)
  pub open_object :
      (c : List ℕ) (n : ℕ)
      → step (at true c n) open_brace ≡ (
          if allows max_depth (suc (length c)) && allows max_nodes (suc n)
          then some (at false (open_brace ∷ c) (suc n))
          else none)
  pub close_array :
      (e : Bool) (c : List ℕ) (n : ℕ)
      → step (at e (open_bracket ∷ c) n) close_bracket ≡ some (at false c n)
  pub close_object :
      (e : Bool) (c : List ℕ) (n : ℕ)
      → step (at e (open_brace ∷ c) n) close_brace ≡ some (at false c n)
  pub array_comma :
      (e : Bool) (c : List ℕ) (n : ℕ)
      → step (at e (open_bracket ∷ c) n) b',' ≡ some (at true (open_bracket ∷ c) n)
  pub object_comma :
      (e : Bool) (c : List ℕ) (n : ℕ)
      → step (at e (open_brace ∷ c) n) b',' ≡ some (at false (open_brace ∷ c) n)
  pub colon : (e : Bool) (c : List ℕ) (n : ℕ) → step (at e c n) b':' ≡ some (at true c n)
  pub token :
      (t : Text)
      → IsToken t
      → (c : List ℕ) (n : ℕ)
      → scan step (at true c n) t
        ≡ (if allows max_nodes (suc n) then some (at false c (suc n)) else none)
  pub key :
      (body : Text)
      → StringBody body
      → (c : List ℕ) (n : ℕ) → scan step (at false c n) (quote_mark ∷ body) ≡ some (at false c n)
  pub text :
      (body : Text)
      → StringBody body
      → (c : List ℕ) (n : ℕ)
      → scan step (at true c n) (quote_mark ∷ body)
        ≡ (if allows max_nodes (suc n) then some (at false c (suc n)) else none)
