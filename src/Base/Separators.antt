-- ===== src/Base/Separators.antt =====
-- Texts that are joined by a separator byte which the parts do not contain.
use magic_vault.Base.Equality.{Text}
use magic_vault.Base.Lists.{All}
use Prim.Native.Nat.{ℕ}
use mathlib.Core.Path.{◌≡◌, refl}
use mathlib.Core.Logic.{◌≢◌}
use mathlib.Core.List.{[], ◌∷◌, ◌++◌}
use native.Mathlib.Omega.{arith}

-- The byte does not occur in the text.
abbrev pub Without : ℕ → Text → Type 0
Without b = All (λ c. c ≢ b)

-- The first separator divides the text in one way only.
pub split_unique :
    (b : ℕ) (s s' t t' : Text)
    → Without b s
    → Without b s'
    → s ++ (b ∷ t) ≡ s' ++ (b ∷ t')
    → (s ≡ s') × (t ≡ t')
split_unique b [] [] t t' w w' h = ground arith
split_unique b [] (c ∷ s') t t' w w' h = absurd (w'.0 (ground arith))
split_unique b (c ∷ s) [] t t' w w' h = absurd (w.0 (ground arith))
split_unique b (c ∷ s) (d ∷ s') t t' w w' h = ground (arith, split_unique b s s' t t' w.1 w'.1)

-- A text without the byte is not one that holds it.
pub not-Without-middle : (b : ℕ) (s t : Text) → ¬ (Without b (s ++ (b ∷ t)))
not-Without-middle b [] t w = w.0 refl
not-Without-middle b (c ∷ s) t w = not-Without-middle b s t w.1
