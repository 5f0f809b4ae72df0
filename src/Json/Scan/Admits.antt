-- ===== src/Json/Scan/Admits.antt =====
-- `EncodedJsonStreamAdmission` on the compact text of a value, and the scanners on any bytes: what
-- the stream admits is nested properly, and what is nested properly is not too deep.
use magic_vault.Base.{
  ℕ, suc, ◌≤◌, ◌≡◌, refl, ap, ◌∙◌, arith, Text, nat_eq, ◌==◌, Bool, true, false, ◌&&◌, leb,
  if◌then◌else◌, List, [], ◌∷◌, Option, none, some,
}
use magic_vault.Json.{Value, Serde}
use magic_vault.Json.Shape.{nodes}
use magic_vault.Json.Inspect.Measures.{depth, entries-lt-nodes}
use magic_vault.Base.Bytes.{usize_max}
use magic_vault.Json.Buffers.{saturating_add}
use magic_vault.Json.Measure.Exact.{compact}
use magic_vault.Json.Scan.{scan, quote_mark, backslash}
use magic_vault.Json.Scan.Stream.{
  EncodedJsonStreamAdmission, new, admit_node, admit_expected, feed_byte, feed_bytes, feed, finish,
}
use magic_vault.Json.Scan.Encoded.{
  StringBody, closed, plain, escape, IsTokenByte, IsToken, one, more, WritesJson, IsScanner,
}
use magic_vault.Json.Scan.Reads.{scan-compact, scan_one, after_some, after_step}
use magic_vault.Json.Scan.Chunks.{feed_bytes-rejected}
use magic_vault.Json.Scan.Depth.{differs}

-- `feed` as a scanner that stops at the first byte that it rejects.
unfoldable pub stream_step : EncodedJsonStreamAdmission → ℕ → Option EncodedJsonStreamAdmission
unfolding feed_byte
stream_step a byte = if (feed_byte a byte).rejected then none else some (feed_byte a byte)

abbrev pub fed : EncodedJsonStreamAdmission × Bool → Option EncodedJsonStreamAdmission
fed (a, ok_so_far) = if ok_so_far then some a else none

feed_bytes-scan :
    (a : EncodedJsonStreamAdmission) (t : Text) → fed (feed_bytes a t) ≡ scan stream_step a t
unfolding feed_bytes scan stream_step
feed_bytes-scan a [] = refl
feed_bytes-scan a (b ∷ t) =
    after (feed_byte a b).rejected (feed_byte a b) (feed_bytes (feed_byte a b) t)
      (feed_bytes-scan (feed_byte a b) t)
  where
    after :
        (r : Bool) (x : EncodedJsonStreamAdmission) (rest : EncodedJsonStreamAdmission × Bool)
        → fed rest ≡ scan stream_step x t
        → fed (if r then (x, false) else rest)
          ≡ (elim (if r then none else some x) [ some u ↦ scan stream_step u t | none ↦ none ])
    after true x rest q = refl
    after false x rest q = q

stream_step-feed_byte :
    (a t : EncodedJsonStreamAdmission) (b : ℕ)
    → feed_byte a b ≡ t
    → t.rejected ≡ false
    → stream_step a b ≡ some t
unfolding stream_step
stream_step-feed_byte a t b e h =
    ap (λ u. if u.rejected then none else some u) e ∙ ap (λ r. if r then none else some t) h

module _ (max_depth max_nodes : ℕ) where
  -- The state between the tokens of a text.
  abbrev pub stream_at : Bool → List ℕ → ℕ → EncodedJsonStreamAdmission
  stream_at e c n = record {
    containers = c;
    max_depth = max_depth;
    max_nodes = max_nodes;
    nodes = n;
    expects_value = e;
    in_string = false;
    escaped = false;
    rejected = false;
  }

  abbrev in_text : List ℕ → ℕ → EncodedJsonStreamAdmission
  in_text c n = record (stream_at false c n) { in_string = true }

  stream_string_byte :
      (b : ℕ) (c : List ℕ) (n : ℕ)
      → (b == quote_mark) ≡ false
      → (b == backslash) ≡ false
      → feed_byte (in_text c n) b ≡ in_text c n
  unfolding feed_byte nat_eq
  stream_string_byte b c n p q = ground (arith, p, q)

  stream_string :
      (c : List ℕ) (n : ℕ) (t : Text)
      → StringBody t
      → scan stream_step (in_text c n) t ≡ some (stream_at false c n)
  unfolding scan stream_step feed_byte nat_eq
  stream_string c n t closed = refl
  stream_string c n _ (plain b {t} p q body) =
      after_some stream_step (in_text c n) (in_text c n) (b ∷ []) t (
        scan_one stream_step (in_text c n) b
        ∙ stream_step-feed_byte (in_text c n) (in_text c n) b
            (stream_string_byte b c n (differs b quote_mark p) (differs b backslash q)) refl)
      ∙ stream_string c n t body
  stream_string c n _ (escape b body) = stream_string c n _ body

  stream_token_byte :
      (b : ℕ) (c : List ℕ) (n : ℕ)
      → IsTokenByte b
      → feed_byte (stream_at false c n) b ≡ stream_at false c n
  unfolding feed_byte nat_eq admit_expected
  stream_token_byte b c n h = ground (
    arith, h.not_quote, h.not_open_brace, h.not_open_bracket, h.not_close_brace,
    h.not_close_bracket, h.not_colon, h.not_comma, h.not_space,
  )

  stream_token_one :
      (c : List ℕ) (n b : ℕ)
      → IsTokenByte b
      → scan stream_step (stream_at false c n) (b ∷ []) ≡ some (stream_at false c n)
  stream_token_one c n b h =
      scan_one stream_step (stream_at false c n) b
      ∙ stream_step-feed_byte (stream_at false c n) (stream_at false c n) b
          (stream_token_byte b c n h) refl

  stream_token_rest :
      (c : List ℕ) (n : ℕ) (t : Text)
      → IsToken t
      → scan stream_step (stream_at false c n) t ≡ some (stream_at false c n)
  stream_token_rest c n _ (one b h) = stream_token_one c n b h
  stream_token_rest c n _ (more b {t} h is_token) =
      after_some stream_step (stream_at false c n) (stream_at false c n) (b ∷ []) t
        (stream_token_one c n b h)
      ∙ stream_token_rest c n t is_token

  -- A value that comes next is counted_next, if the limit allows it.
  abbrev counted_next : List ℕ → ℕ → Option EncodedJsonStreamAdmission
  counted_next c n = if leb (suc n) max_nodes then some (stream_at false c (suc n)) else none

  module _ (small : max_nodes ≤ usize_max) where
    stream_token_fed :
        (b : ℕ) (c : List ℕ) (n : ℕ)
        → IsTokenByte b
        → feed_byte (stream_at true c n) b
          ≡ record (admit_expected (stream_at true c n)) { expects_value = false }
    unfolding feed_byte nat_eq
    stream_token_fed b c n h = ground (
      arith, h.not_quote, h.not_open_brace, h.not_open_bracket, h.not_close_brace,
      h.not_close_bracket, h.not_colon, h.not_comma, h.not_space,
    )

    admitted_step :
        (c : List ℕ) (n : ℕ) (inside_text : Bool)
        → (if (admit_expected (stream_at true c n)).rejected
            then none
            else some (record (admit_expected (stream_at true c n)) {
              expects_value = false;
              in_string = inside_text;
            }))
          ≡ (if leb (suc n) max_nodes
              then some (record (stream_at false c (suc n)) { in_string = inside_text })
              else none)
    unfolding admit_expected admit_node saturating_add
    admitted_step c n inside_text = ground (arith, small)

    admitted_value :
        (c : List ℕ) (n : ℕ)
        → (if (admit_expected (stream_at true c n)).rejected
            then none
            else some (record (admit_expected (stream_at true c n)) { expects_value = false }))
          ≡ counted_next c n
    unfolding admit_expected admit_node saturating_add
    admitted_value c n = ground (arith, small)

    stream_token_first :
        (b : ℕ) (c : List ℕ) (n : ℕ)
        → IsTokenByte b
        → stream_step (stream_at true c n) b ≡ counted_next c n
    unfolding stream_step
    stream_token_first b c n h =
        ap (λ t. if t.rejected then none else some t) (stream_token_fed b c n h)
        ∙ admitted_value c n

    stream_token :
        (t : Text)
        → IsToken t
        → (c : List ℕ) (n : ℕ) → scan stream_step (stream_at true c n) t ≡ counted_next c n
    stream_token _ (one b h) c n =
        scan_one stream_step (stream_at true c n) b ∙ stream_token_first b c n h
    stream_token _ (more b {t} h is_token) c n =
        after_step stream_step (stream_at true c n) (stream_at false c (suc n))
          (stream_at false c (suc n)) b t (leb (suc n) max_nodes) (stream_token_first b c n h)
          (stream_token_rest c (suc n) t is_token)

    stream_quote :
        (c : List ℕ) (n : ℕ)
        → stream_step (stream_at true c n) quote_mark
          ≡ (if leb (suc n) max_nodes then some (in_text c (suc n)) else none)
    unfolding stream_step feed_byte nat_eq
    stream_quote c n = admitted_step c n true

    stream_text :
        (body : Text)
        → StringBody body
        → (c : List ℕ) (n : ℕ)
        → scan stream_step (stream_at true c n) (quote_mark ∷ body) ≡ counted_next c n
    stream_text body is_body c n =
        after_step stream_step (stream_at true c n) (in_text c (suc n)) (stream_at false c (suc n))
          quote_mark body (leb (suc n) max_nodes) (stream_quote c n)
          (stream_string c (suc n) body is_body)

    stream-IsScanner : IsScanner stream_step stream_at (some max_depth) (some max_nodes)
    unfolding scan stream_step feed_byte nat_eq admit_expected admit_node saturating_add
    stream-IsScanner = record {
      open_array = λ c n. ground (arith, small);
      open_object = λ c n. ground (arith, small);
      close_array = λ e c n. refl;
      close_object = λ e c n. refl;
      array_comma = λ e c n. refl;
      object_comma = λ e c n. refl;
      colon = λ e c n. refl;
      token = λ t is_token c n. stream_token t is_token c n;
      key = λ body is_body c n. stream_string c n body is_body;
      text = λ body is_body c n. stream_text body is_body c n;
    }

-- The state is rejected just if `feed` said so, and a body that is not rejected is finished by the
-- text of a value.
feed_new :
    (a : EncodedJsonStreamAdmission) (t : Text) → a.rejected ≡ false → feed a t ≡ feed_bytes a t
unfolding feed
feed_new a t h = ap (λ b. if b then (a, false) else feed_bytes a t) h

abbrev pub finish_fed : Option EncodedJsonStreamAdmission → Bool
finish_fed none = false
finish_fed (some a) = finish a

finish-fed :
    (r : EncodedJsonStreamAdmission × Bool)
    → r.0.rejected ≡ (if r.1 then false else true)
    → finish r.0 ≡ finish_fed (fed r)
unfolding finish
finish-fed (a, true) h = refl
finish-fed (a, false) h = rw (h) refl

pub feed-new-scan :
    (max_depth max_nodes : ℕ) (t : Text)
    → finish (feed (new max_depth max_nodes) t).0
      ≡ finish_fed (scan stream_step (new max_depth max_nodes) t)
feed-new-scan max_depth max_nodes t =
    ap (λ r. finish r.0) (feed_new (new max_depth max_nodes) t refl)
    ∙ finish-fed (feed_bytes (new max_depth max_nodes) t)
        (feed_bytes-rejected (new max_depth max_nodes) t refl)
    ∙ ap finish_fed (feed_bytes-scan (new max_depth max_nodes) t)

pub finish-compact :
    {N : Type 0} (serde : Serde N) (root : Value N) (max_depth max_nodes : ℕ)
    → WritesJson serde
    → max_nodes ≤ usize_max
    → finish (feed (new max_depth max_nodes) (compact serde root)).0
      ≡ (leb (nodes root) max_nodes && leb (depth root) max_depth)
unfolding finish
finish-compact serde root max_depth max_nodes writes small =
    feed-new-scan max_depth max_nodes (compact serde root)
    ∙ ap finish_fed (
        scan-compact serde writes stream_step (stream_at max_depth max_nodes) (some max_depth)
          (some max_nodes) (stream-IsScanner max_depth max_nodes small) root)
    ∙ ground (arith, entries-lt-nodes root)
