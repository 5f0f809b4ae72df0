-- ===== src/Base/Time.antt =====
-- `i64` times, in seconds or milliseconds: integers, with the wrap-around of a release build.
use Prim.Native.Nat.{ℕ, suc, ◌+◌, ◌-◌, ◌≤◌, ◌<◌}
use mathlib.Core.Path.{◌≡◌}
use mathlib.Core.Bool.{Bool}
use native.Mathlib.Omega.{arith}
use magic_vault.Base.Tests.{ltb, leb, if◌then◌else◌}

-- `negsuc n` is -(n + 1).
pub data ℤ : Type 0 where
  pos : ℕ → ℤ
  negsuc : ℕ → ℤ

abbrev pub pos_part : ℤ → ℕ
pos_part (pos n) = n
pos_part (negsuc n) = 0

abbrev pub neg_part : ℤ → ℕ
neg_part (pos n) = 0
neg_part (negsuc n) = suc n

abbrev pub sub_ℕ : ℕ → ℕ → ℤ
sub_ℕ a b = if leb b a then pos (a - b) else negsuc (b - a - 1)

infix 50 ◌≤ℤ◌
abbrev pub ◌≤ℤ◌ : ℤ → ℤ → Type 0
a ≤ℤ b = pos_part a + neg_part b ≤ pos_part b + neg_part a

infix 50 ◌<ℤ◌
abbrev pub ◌<ℤ◌ : ℤ → ℤ → Type 0
a <ℤ b = pos_part a + neg_part b < pos_part b + neg_part a

-- `a <= b` and `a < b`.
unfoldable pub leb_ℤ : ℤ → ℤ → Bool
leb_ℤ a b = leb (pos_part a + neg_part b) (pos_part b + neg_part a)

unfoldable pub ltb_ℤ : ℤ → ℤ → Bool
ltb_ℤ a b = ltb (pos_part a + neg_part b) (pos_part b + neg_part a)

infixl 65 ◌+ℤ◌
unfoldable pub ◌+ℤ◌ : ℤ → ℤ → ℤ
a +ℤ b = sub_ℕ (pos_part a + pos_part b) (neg_part a + neg_part b)

abbrev pub i64_max : ℕ
i64_max = 9223372036854775807

abbrev pub i64_mod : ℕ
i64_mod = 18446744073709551616

-- `a + b` on `i64`: one wrap brings the sum of two of them back into range.
unfoldable pub add_i64 : ℤ → ℤ → ℤ
add_i64 a b =
    let p = pos_part a + pos_part b in
    let n = neg_part a + neg_part b in
    if ltb (n + i64_max) p
    then sub_ℕ p (n + i64_mod)
    else if ltb (p + i64_max + 1) n
    then sub_ℕ (p + i64_mod) n
    else sub_ℕ p n

-- `i64::min`.
unfoldable pub min_ℤ : ℤ → ℤ → ℤ
min_ℤ a b = if leb_ℤ a b then a else b

pub min_ℤ_le_left : (a b : ℤ) → min_ℤ a b ≤ℤ a
unfolding min_ℤ leb_ℤ
min_ℤ_le_left a b = ground arith

pub min_ℤ_le_right : (a b : ℤ) → min_ℤ a b ≤ℤ b
unfolding min_ℤ leb_ℤ
min_ℤ_le_right a b = ground arith

-- The values of an `i64`.
pub record IsI64 (a : ℤ) : Type 0 where
  pub below : a ≤ℤ pos i64_max
  pub above : neg_part a ≤ i64_max + 1

-- A sum that stays in range does not wrap.
pub add_i64_exact :
    (a : ℤ) (n : ℕ) → IsI64 a → a +ℤ pos n ≤ℤ pos i64_max → add_i64 a (pos n) ≡ a +ℤ pos n
unfolding add_i64 ◌+ℤ◌
add_i64_exact (pos m) n r h = ground arith
add_i64_exact (negsuc m) n r h = ground arith
