-- ===== src/Json/Scan/Reads.antt =====
-- The scan of the compact text of a value, by any scanner that treats the structural bytes as
-- `IsScanner` says.
use mathlib.Core.List.{append_assoc, append-nil}
use magic_vault.Base.{
  ℕ, suc, ◌+◌, ◌≡◌, refl, sym, ap, ◌∙◌, arith, Text, ascii, Bool, true, false, ◌&&◌, if◌then◌else◌,
  inl, inr, List, [], ◌∷◌, ◌++◌, length, Option, Option-cases, none, some,
}
use Prim.Native.Nat.{max}
use magic_vault.Json.{
  Value, Values, Members, Serde, null, bool, number, string, array, object, nil, cons, end, member,
}
use magic_vault.Json.Shape.{nodes, nodes_values, nodes_members}
use magic_vault.Json.Inspect.Measures.{depth, depth_values, depth_members}
use magic_vault.Json.Compact.{comma, pieces, pieces_values, pieces_members}
use magic_vault.Json.Buffers.{concat}
use magic_vault.Json.Scan.{scan, open_brace, open_bracket, close_brace, close_bracket}
use magic_vault.Json.Scan.Limits.{
  IsToken-true, IsToken-false, IsToken-null, allows_zero, fits, fits-join, fits-open, fits-nothing,
  fits-one,
}
use magic_vault.Json.Scan.Encoded.{WritesJson, allows, IsScanner}

abbrev pub then_scan {ℓ} : {S : Type ℓ} → Option S → (S → Option S) → Option S
then_scan none f = none
then_scan (some s) f = f s

pub scan-append {ℓ} :
    {S : Type ℓ} (step : S → ℕ → Option S) (s : S) (xs ys : Text)
    → scan step s (xs ++ ys) ≡ then_scan (scan step s xs) (λ t. scan step t ys)
unfolding scan
scan-append step s [] ys = refl
scan-append {S} step s (x ∷ xs) ys = after (step s x) (λ t. scan-append step t xs ys)
  where
    after :
        (o : Option S)
        → ((t : S) → scan step t (xs ++ ys) ≡ then_scan (scan step t xs) (λ u. scan step u ys))
        → (elim o [ some t ↦ scan step t (xs ++ ys) | none ↦ none ])
          ≡ then_scan (elim o [ some t ↦ scan step t xs | none ↦ none ]) (λ u. scan step u ys)
    after (some t) h = h t
    after none h = refl

module _ {S : Type 0} (step : S → ℕ → Option S) where
  pub after_some :
      (s u : S) (xs ys : Text) → scan step s xs ≡ some u → scan step s (xs ++ ys) ≡ scan step u ys
  after_some s u xs ys h = scan-append step s xs ys ∙ ap (λ o. then_scan o (λ t. scan step t ys)) h

  pub scan_one : (s : S) (b : ℕ) → scan step s (b ∷ []) ≡ step s b
  unfolding scan
  scan_one s b = elim (Option-cases (step s b)) [
    | inl e ↦ ap (λ o. elim o [ some t ↦ some t | none ↦ none ]) e ∙ sym e
    | inr (t, e) ↦ ap (λ o. elim o [ some t ↦ some t | none ↦ none ]) e ∙ sym e
  ]

  pub after_if :
      (s u w : S) (xs ys : Text) (b b' b'' : Bool)
      → scan step s xs ≡ (if b then some u else none)
      → (b ≡ true → scan step u ys ≡ (if b' then some w else none))
      → b'' ≡ (b && b')
      → scan step s (xs ++ ys) ≡ (if b'' then some w else none)
  after_if s u w xs ys true b' b'' h next e =
      after_some s u xs ys h ∙ next refl ∙ ap (λ i. if i then some w else none) (sym e)
  after_if s u w xs ys false b' b'' h next e =
      scan-append step s xs ys
      ∙ ap (λ o. then_scan o (λ t. scan step t ys)) h
      ∙ ap (λ i. if i then some w else none) (sym e)

  pub after_step :
      (s u w : S) (b : ℕ) (t : Text) (x : Bool)
      → step s b ≡ (if x then some u else none)
      → scan step u t ≡ some w
      → scan step s (b ∷ t) ≡ (if x then some w else none)
  after_step s u w b t true e h = after_some s u (b ∷ []) t (scan_one s b ∙ e) ∙ h
  after_step s u w b t false e h =
      after_if s u w (b ∷ []) t false true false (scan_one s b ∙ e) (λ _. h) refl

pub concat-append : (ps qs : List Text) → concat (ps ++ qs) ≡ concat ps ++ concat qs
unfolding concat
concat-append [] qs = refl
concat-append (p ∷ ps) qs =
    ap (p ++◌) (concat-append ps qs) ∙ sym (append_assoc p (concat ps) (concat qs))

-- A scanner, a value and its limits: the scan of the compact text of the value.
module _ {S N : Type 0} (serde : Serde N) (writes : WritesJson serde) (step : S → ℕ → Option S)
    (at : Bool → List ℕ → ℕ → S) (max_depth max_nodes : Option ℕ)
    (scanner : IsScanner step at max_depth max_nodes) where
  -- From `k` values on, `n` more are counted and `d` levels entered, if the limits allow it.
  abbrev Reads : Text → S → List ℕ → ℕ → List ℕ → ℕ → ℕ → Type 0
  Reads t s c k c' n d =
      scan step s t
      ≡ (if fits max_depth max_nodes k n (length c) d then some (at false c' (k + n)) else none)

  abbrev Within : ℕ → List ℕ → Type 0
  Within k c = (allows max_nodes k ≡ true) × (allows max_depth (length c) ≡ true)

  one_value :
      (t : Text) (c : List ℕ) (k : ℕ)
      → Within k c
      → scan step (at true c k) t
        ≡ (if allows max_nodes (suc k) then some (at false c (suc k)) else none)
      → Reads t (at true c k) c k c 1 0
  one_value t c k (h, g) e =
      let more : suc k ≡ k + 1 = omega arith in
      e
      ∙ ap (λ b. if b then some (at false c (suc k)) else none)
          (sym (fits-one max_depth max_nodes k (length c) g))
      ∙ ap (λ i. if fits max_depth max_nodes k 1 (length c) 0 then some (at false c i) else none)
          more

  open_container :
      (b : ℕ) (u : S) (t : Text) (c : List ℕ) (k n d : ℕ)
      → step (at true c k) b
        ≡ (if allows max_depth (suc (length c)) && allows max_nodes (suc k) then some u else none)
      → ((allows max_nodes (suc k) ≡ true) × (allows max_depth (suc (length c)) ≡ true)
          → scan step u t ≡ (
              if fits max_depth max_nodes (suc k) n (suc (length c)) d
              then some (at false c (suc k + n))
              else none))
      → Reads (b ∷ t) (at true c k) c k c (suc n) (suc d)
  open_container b u t c k n d h next =
      let more : suc k + n ≡ k + suc n = omega arith in
      after_if step (at true c k) u (at false c (suc k + n)) (b ∷ []) t
        (allows max_depth (suc (length c)) && allows max_nodes (suc k))
        (fits max_depth max_nodes (suc k) n (suc (length c)) d)
        (fits max_depth max_nodes k (suc n) (length c) (suc d)) (scan_one step (at true c k) b ∙ h)
        (λ e. next (ground (arith, e))) (fits-open max_depth max_nodes k n (length c) d)
      ∙ ap
          (λ i.
            if fits max_depth max_nodes k (suc n) (length c) (suc d)
            then some (at false c i)
            else none)
          more

  close_container :
      (b o : ℕ) (e : Bool) (c : List ℕ) (k : ℕ)
      → Within k (o ∷ c)
      → step (at e (o ∷ c) k) b ≡ some (at false c k)
      → Reads (b ∷ []) (at e (o ∷ c) k) (o ∷ c) k c 0 0
  close_container b o e c k (h, g) q =
      let same : k ≡ k + 0 = omega arith in
      scan_one step (at e (o ∷ c) k) b
      ∙ q
      ∙ ap (λ i. if i then some (at false c k) else none)
          (sym (fits-nothing max_depth max_nodes k (suc (length c)) h g))
      ∙ ap
          (λ i.
            if fits max_depth max_nodes k 0 (suc (length c)) 0 then some (at false c i) else none)
          same

  value_then :
      (t t' : Text) (co c : List ℕ) (k n d n' d' : ℕ)
      → Within k co
      → Reads t (at true co k) co k co n d
      → (Within (k + n) co → Reads t' (at false co (k + n)) co (k + n) c n' d')
      → Reads (t ++ t') (at true co k) co k c (n + n') (max d d')
  value_then t t' co c k n d n' d' (h, g) r next =
      let more : k + n + n' ≡ k + (n + n') = omega arith in
      after_if step (at true co k) (at false co (k + n)) (at false c (k + n + n')) t t'
        (fits max_depth max_nodes k n (length co) d)
        (fits max_depth max_nodes (k + n) n' (length co) d')
        (fits max_depth max_nodes k (n + n') (length co) (max d d')) r
        (λ e. next (ground (arith, e), g)) (fits-join max_depth max_nodes k n n' (length co) d d')
      ∙ ap
          (λ i.
            if fits max_depth max_nodes k (n + n') (length co) (max d d')
            then some (at false c i)
            else none)
          more

  array_comma-Reads :
      (first : Bool) (c : List ℕ) (k : ℕ)
      → scan step (at first (open_bracket ∷ c) k) (concat (comma first))
        ≡ some (at true (open_bracket ∷ c) k)
  unfolding concat scan
  array_comma-Reads true c k = refl
  array_comma-Reads false c k =
      scan_one step (at false (open_bracket ∷ c) k) b',' ∙ scanner.array_comma false c k

  object_comma-Reads :
      (first : Bool) (c : List ℕ) (k : ℕ)
      → scan step (at false (open_brace ∷ c) k) (concat (comma first))
        ≡ some (at false (open_brace ∷ c) k)
  unfolding concat scan
  object_comma-Reads true c k = refl
  object_comma-Reads false c k =
      scan_one step (at false (open_brace ∷ c) k) b',' ∙ scanner.object_comma false c k

  key-Reads :
      (key : Text) (c : List ℕ) (k : ℕ)
      → scan step (at false c k) (concat (serde.quote key)) ≡ some (at false c k)
  key-Reads key c k =
      let (body, (e, is_body)) = writes.quoted key in
      ap (scan step (at false c k)) e ∙ scanner.key body is_body c k

  text-Reads :
      (text : Text) (c : List ℕ) (k : ℕ)
      → scan step (at true c k) (concat (serde.quote text))
        ≡ (if allows max_nodes (suc k) then some (at false c (suc k)) else none)
  text-Reads text c k =
      let (body, (e, is_body)) = writes.quoted text in
      ap (scan step (at true c k)) e ∙ scanner.text body is_body c k

  key_text :
      (first : Bool) (key : Text) (ps qs : List Text)
      → concat (comma first ++ (serde.quote key ++ ascii ":" ∷ (ps ++ qs)))
        ≡ concat (comma first)
          ++ (concat (serde.quote key) ++ (b':' ∷ [] ++ (concat ps ++ concat qs)))
  unfolding concat
  key_text first key ps qs =
      concat-append (comma first) _
      ∙ ap (concat (comma first) ++◌) (
          concat-append (serde.quote key) _
          ∙ ap (λ t. concat (serde.quote key) ++ (b':' ∷ [] ++ t)) (concat-append ps qs))

  mutual
    unfolding pieces nodes depth concat scan

    value-Reads :
        (v : Value N) (c : List ℕ) (k : ℕ)
        → Within k c
        → Reads (concat (pieces serde v)) (at true c k) c k c (nodes v) (depth v)
    value-Reads null c k g =
        one_value (ascii "null") c k g (scanner.token (ascii "null") IsToken-null c k)
    value-Reads (bool true) c k g =
        one_value (ascii "true") c k g (scanner.token (ascii "true") IsToken-true c k)
    value-Reads (bool false) c k g =
        one_value (ascii "false") c k g (scanner.token (ascii "false") IsToken-false c k)
    value-Reads (number n) c k g = one_value _ c k g (
        ap (scan step (at true c k)) (append-nil (serde.number_text n))
        ∙ scanner.token (serde.number_text n) (writes.token n) c k)
    value-Reads (string s) c k g = one_value _ c k g (text-Reads s c k)
    value-Reads (array xs) c k g =
        open_container open_bracket (at true (open_bracket ∷ c) (suc k)) _ c k (nodes_values xs)
          (depth_values xs) (scanner.open_array c k) λ within. values-Reads xs true c (suc k) within
    value-Reads (object ms) c k g =
        open_container open_brace (at false (open_brace ∷ c) (suc k)) _ c k (nodes_members ms)
          (depth_members ms) (scanner.open_object c k)
          λ within. members-Reads ms true c (suc k) within

    values-Reads :
        (xs : Values N) (first : Bool) (c : List ℕ) (k : ℕ)
        → Within k (open_bracket ∷ c)
        → Reads
            (concat (pieces_values serde xs first))
            (at first (open_bracket ∷ c) k)
            (open_bracket ∷ c)
            k
            c
            (nodes_values xs)
            (depth_values xs)
    values-Reads nil first c k g =
        close_container close_bracket open_bracket first c k g (scanner.close_array first c k)
    values-Reads (cons v xs) first c k g =
        ap (scan step (at first (open_bracket ∷ c) k)) (
          concat-append (comma first) (pieces serde v ++ pieces_values serde xs false)
          ∙ ap (concat (comma first) ++◌)
              (concat-append (pieces serde v) (pieces_values serde xs false)))
        ∙ after_some step _ _ (concat (comma first)) _ (array_comma-Reads first c k)
        ∙ value_then _ _ (open_bracket ∷ c) c k (nodes v) (depth v) (nodes_values xs)
            (depth_values xs) g (value-Reads v (open_bracket ∷ c) k g)
            (λ within. values-Reads xs false c (k + nodes v) within)

    members-Reads :
        (ms : Members N) (first : Bool) (c : List ℕ) (k : ℕ)
        → Within k (open_brace ∷ c)
        → Reads
            (concat (pieces_members serde ms first))
            (at false (open_brace ∷ c) k)
            (open_brace ∷ c)
            k
            c
            (nodes_members ms)
            (depth_members ms)
    members-Reads end first c k g =
        close_container close_brace open_brace false c k g (scanner.close_object false c k)
    members-Reads (member key v ms) first c k g =
        ap (scan step (at false (open_brace ∷ c) k)) (key_text first key (pieces serde v) _)
        ∙ after_some step _ _ (concat (comma first)) _ (object_comma-Reads first c k)
        ∙ after_some step _ _ (concat (serde.quote key)) _ (key-Reads key (open_brace ∷ c) k)
        ∙ after_some step _ _ (b':' ∷ []) _ (
            scan_one step (at false (open_brace ∷ c) k) b':'
            ∙ scanner.colon false (open_brace ∷ c) k)
        ∙ value_then _ _ (open_brace ∷ c) c k (nodes v) (depth v) (nodes_members ms)
            (depth_members ms) g (value-Reads v (open_brace ∷ c) k g)
            (λ within. members-Reads ms false c (k + nodes v) within)

  -- From the start, the values of the text are counted, unless a limit is below them.
  pub scan-compact :
      (root : Value N)
      → scan step (at true [] 0) (concat (pieces serde root)) ≡ (
          if allows max_nodes (nodes root) && allows max_depth (depth root)
          then some (at false [] (nodes root))
          else none)
  scan-compact root =
      value-Reads root [] 0 (allows_zero max_nodes, allows_zero max_depth)
      ∙ ap
          (λ n.
            if allows max_nodes n && allows max_depth (0 + depth root)
            then some (at false [] n)
            else none)
          {x = 0 + nodes root} {y = nodes root} (omega arith)
      ∙ ap
          (λ d.
            if allows max_nodes (nodes root) && allows max_depth d
            then some (at false [] (nodes root))
            else none)
          {x = 0 + depth root} {y = depth root} (omega arith)
