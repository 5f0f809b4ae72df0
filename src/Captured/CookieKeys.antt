-- ===== src/Captured/CookieKeys.antt =====
-- magicvault-core/src/store.rs: cookies that are kept under numbered keys, and read from them.
use Prim.Native.Nat.{◌/◌, ◌%◌}
use magic_vault.Base.{
  ℕ, zero, suc, ◌+◌, ◌-◌, ◌*◌, ◌<◌, Text, text_eq, nat_eq, ◌==◌, none, some, ◌≡◌, refl, sym, ap,
  ◌∙◌, List, [], ◌∷◌, ◌++◌, arith, if◌then◌else◌,
}
use magic_vault.Base.Bytes.{strip_prefix}
use magic_vault.Base.Decimal.{decimal, digits_of}
use magic_vault.Base.Map.{Map, lookup, insert, lookup-insert, lookup-insert_self}
use magic_vault.Captured.Cookies.{CookieWithMetadata}
use magic_vault.Base.Affixes.{strip_prefix-append, append_cancel}
use magic_vault.Captured.Fields.{
  insert_cookies, cookies_from, cookies_to_specs, cookie_field_value, cookie_prefix, cookie_key,
}

-- Reads the digits up to a colon.
abbrev value : ℕ → Text → ℕ
value a [] = a
value a (c ∷ s) = let rest = value (a * 10 + (c - 48)) s in if c == 58 then a else rest

value-digits_of : (f n : ℕ) (rest : Text) → n < f → value 0 (digits_of f n rest) ≡ value n rest
unfolding digits_of
value-digits_of zero n rest h = omega (arith, h)
value-digits_of (suc f) n rest h =
    ground (arith, h, value-digits_of f (n / 10) ((48 + n % 10) ∷ rest))

digits_of-append : (f n : ℕ) (rest s : Text) → digits_of f n rest ++ s ≡ digits_of f n (rest ++ s)
unfolding digits_of
digits_of-append zero n rest s = refl
digits_of-append (suc f) n rest s =
    ground (arith, digits_of-append f (n / 10) ((48 + n % 10) ∷ rest) s)

value-decimal : (n : ℕ) (s : Text) → value 0 (decimal n ++ (58 ∷ s)) ≡ n
unfolding decimal nat_eq
value-decimal n s =
    ap (value 0) (digits_of-append (suc n) n [] (58 ∷ s))
    ∙ value-digits_of (suc n) n (58 ∷ s) (omega arith)

-- Keys of cookies with different numbers differ.
pub cookie_key_injective : (i j : ℕ) (m n : Text) → cookie_key i m ≡ cookie_key j n → i ≡ j
unfolding cookie_key
cookie_key_injective i j m n h =
    sym (value-decimal i m)
    ∙ (ap (value 0) (append_cancel cookie_prefix (decimal i ++ (58 ∷ m)) (decimal j ++ (58 ∷ n)) h)
        ∙ value-decimal j n)

pub strip_prefix-cookie_key :
    (i : ℕ) (n : Text) → strip_prefix cookie_prefix (cookie_key i n) ≡ some (decimal i ++ (58 ∷ n))
unfolding cookie_key
strip_prefix-cookie_key i n = strip_prefix-append cookie_prefix (decimal i ++ (58 ∷ n))

pub lookup-insert_cookies_apart :
    (index : ℕ) (k : Text) (cs : List CookieWithMetadata) (fields : Map Text)
    → strip_prefix cookie_prefix k ≡ none
    → lookup k (insert_cookies index cs fields) ≡ lookup k fields
unfolding insert_cookies
lookup-insert_cookies_apart index k [] fields h = refl
lookup-insert_cookies_apart index k (c ∷ cs) fields h =
    let key = cookie_key index c.name in
    lookup-insert_cookies_apart (suc index) k cs (insert key c.value fields) h
    ∙ ground (arith, lookup-insert k key c.value fields, strip_prefix-cookie_key index c.name, h)

lookup-insert_cookies_later :
    (i j : ℕ) (n : Text) (cs : List CookieWithMetadata) (fields : Map Text)
    → i < j
    → lookup (cookie_key i n) (insert_cookies j cs fields) ≡ lookup (cookie_key i n) fields
unfolding insert_cookies
lookup-insert_cookies_later i j n [] fields h = refl
lookup-insert_cookies_later i j n (c ∷ cs) fields h =
    let key = cookie_key j c.name in
    lookup-insert_cookies_later i (suc j) n cs (insert key c.value fields) (omega (arith, h))
    ∙ ground (
      arith,
      lookup-insert (cookie_key i n) key c.value fields,
      cookie_key_injective i j n c.name,
      h,
    )

pub cookies_from-insert_cookies :
    (all fields : Map Text) (i : ℕ) (cs : List CookieWithMetadata)
    → ((j : ℕ) (n : Text)
        → lookup (cookie_key j n) all ≡ lookup (cookie_key j n) (insert_cookies i cs fields))
    → cookies_from all i (cookies_to_specs cs) ≡ cs
unfolding insert_cookies cookies_from cookies_to_specs cookie_field_value
cookies_from-insert_cookies all fields i [] h = refl
cookies_from-insert_cookies all fields i (c ∷ cs) h =
    let key = cookie_key i c.name in
    let later = insert key c.value fields in
    let first : lookup key all ≡ some c.value =
      h i c.name
      ∙ (lookup-insert_cookies_later i (suc i) c.name cs later (omega arith)
          ∙ lookup-insert_self key c.value fields) in
    rw (first, cookies_from, cookie_field_value, cookies_to_specs)
      (ap (λ r. c ∷ r) (cookies_from-insert_cookies all later (suc i) cs h))
