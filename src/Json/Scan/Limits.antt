-- ===== src/Json/Scan/Limits.antt =====
-- The literals as tokens, and the arithmetic of the limits of a scan.
use magic_vault.Base.{
  ℕ, suc, ◌+◌, ◌≤◌, ◌≡◌, refl, arith, Text, ascii, Bool, true, ◌&&◌, ◌∷◌, Option, none, some,
}
use Prim.Native.Nat.{max}
use magic_vault.Json.Inspect.Measures.{depth}
use magic_vault.Json.Scan.Encoded.{IsTokenByte, IsToken, one, more, allows}

letter : (c : ℕ) → 97 ≤ c → c ≤ 122 → IsTokenByte c
letter c h g = record {
  not_quote = ground arith;
  not_open_brace = ground arith;
  not_open_bracket = ground arith;
  not_close_brace = ground arith;
  not_close_bracket = ground arith;
  not_colon = ground arith;
  not_comma = ground arith;
  not_space = omega arith;
}

word : (c : ℕ) (t : Text) → 97 ≤ c → c ≤ 122 → IsToken t → IsToken (c ∷ t)
word c t h g is_token = more c (letter c h g) is_token

pub IsToken-true : IsToken (ascii "true")
IsToken-true = word 116 _ (omega arith) (omega arith) (
    word 114 _ (omega arith) (omega arith)
      (word 117 _ (omega arith) (omega arith) (one 101 (letter 101 (omega arith) (omega arith)))))

pub IsToken-false : IsToken (ascii "false")
IsToken-false = word 102 _ (omega arith) (omega arith) (
    word 97 _ (omega arith) (omega arith) (
      word 108 _ (omega arith) (omega arith) (
        word 115 _ (omega arith) (omega arith) (one 101 (letter 101 (omega arith) (omega arith))))))

pub IsToken-null : IsToken (ascii "null")
IsToken-null = word 110 _ (omega arith) (omega arith) (
    word 117 _ (omega arith) (omega arith)
      (word 108 _ (omega arith) (omega arith) (one 108 (letter 108 (omega arith) (omega arith)))))

pub allows_zero : (limit : Option ℕ) → allows limit 0 ≡ true
allows_zero none = refl
allows_zero (some limit) = ground arith

-- What the limits say of `n` more values after `k`, `d` levels below `depth`.
module _ (max_depth max_nodes : Option ℕ) where
  abbrev pub fits : ℕ → ℕ → ℕ → ℕ → Bool
  fits k n depth d = allows max_nodes (k + n) && allows max_depth (depth + d)

pub fits-join :
    (max_depth max_nodes : Option ℕ) (k n n' c d d' : ℕ)
    → fits max_depth max_nodes k (n + n') c (max d d')
      ≡ (fits max_depth max_nodes k n c d && fits max_depth max_nodes (k + n) n' c d')
fits-join none none k n n' c d d' = refl
fits-join none (some m) k n n' c d d' = ground arith
fits-join (some l) none k n n' c d d' = ground arith
fits-join (some l) (some m) k n n' c d d' = ground arith

pub fits-open :
    (max_depth max_nodes : Option ℕ) (k n c d : ℕ)
    → fits max_depth max_nodes k (suc n) c (suc d) ≡ (
        (allows max_depth (suc c) && allows max_nodes (suc k))
        && fits max_depth max_nodes (suc k) n (suc c) d)
fits-open none none k n c d = refl
fits-open none (some m) k n c d = ground arith
fits-open (some l) none k n c d = ground arith
fits-open (some l) (some m) k n c d = ground arith

pub fits-nothing :
    (max_depth max_nodes : Option ℕ) (k c : ℕ)
    → allows max_nodes k ≡ true
    → allows max_depth c ≡ true
    → fits max_depth max_nodes k 0 c 0 ≡ true
fits-nothing none none k c h g = refl
fits-nothing none (some m) k c h g = ground (arith, h)
fits-nothing (some l) none k c h g = ground (arith, g)
fits-nothing (some l) (some m) k c h g = ground (arith, g, h)

pub fits-one :
    (max_depth max_nodes : Option ℕ) (k c : ℕ)
    → allows max_depth c ≡ true
    → fits max_depth max_nodes k 1 c 0 ≡ allows max_nodes (suc k)
fits-one none none k c g = refl
fits-one none (some m) k c g = ground arith
fits-one (some l) none k c g = ground (arith, g)
fits-one (some l) (some m) k c g = ground (arith, g)
