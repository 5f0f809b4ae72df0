-- ===== src/Base/Decimal.antt =====
-- The decimal text of a number, as `format!` prints it.
use Prim.Native.Nat.{◌/◌, ◌%◌}
use magic_vault.Base.Tests.{ltb, if◌then◌else◌}
use magic_vault.Base.Equality.{Text}
use Prim.Native.Nat.{ℕ, zero, suc, ◌+◌}
use mathlib.Core.List.{[], ◌∷◌}

-- A number has no more digits than its own value and one.
unfoldable pub digits_of : ℕ → ℕ → Text → Text
digits_of zero n rest = rest
digits_of (suc f) n rest =
    let more = digits_of f (n / 10) ((48 + n % 10) ∷ rest) in
    if ltb n 10 then (48 + n) ∷ rest else more

unfoldable pub decimal : ℕ → Text
unfolding digits_of
decimal n = digits_of (suc n) n []
