-- ===== src/Base/Order.antt =====
-- Laws of the byte order of texts, and of membership.
use Prim.Native.Nat.{Ordering}
use mathlib.Core.Path.{◌≡◌, refl}
use mathlib.Core.Logic.{◌⊎◌, inl, inr}
use mathlib.Core.List.{[], ◌∷◌}
use native.Mathlib.Omega.{arith}
use magic_vault.Base.Equality.{Text}
use magic_vault.Base.Bytes.{compare_text}

pub Ordering-cases : (o : Ordering) → (o ≡ Ordering.lt) ⊎ ((o ≡ Ordering.eq) ⊎ (o ≡ Ordering.gt))
Ordering-cases Ordering.lt = inl refl
Ordering-cases Ordering.eq = inr (inl refl)
Ordering-cases Ordering.gt = inr (inr refl)

pub compare_text_refl : (s : Text) → compare_text s s ≡ Ordering.eq
unfolding compare_text
compare_text_refl [] = refl
compare_text_refl (c ∷ s) = ground (arith, compare_text_refl s)

pub eq_of_compare_text : (s t : Text) → compare_text s t ≡ Ordering.eq → s ≡ t
unfolding compare_text
eq_of_compare_text [] [] h = refl
eq_of_compare_text [] (_ ∷ _) h = cc
eq_of_compare_text (_ ∷ _) [] h = cc
eq_of_compare_text (c ∷ s) (d ∷ t) h = ground (arith, eq_of_compare_text s t)

pub compare_text-flip :
    (s t : Text) → compare_text s t ≡ Ordering.gt → compare_text t s ≡ Ordering.lt
unfolding compare_text
compare_text-flip [] [] h = cc
compare_text-flip [] (_ ∷ _) h = cc
compare_text-flip (_ ∷ _) [] h = refl
compare_text-flip (c ∷ s) (d ∷ t) h = ground (arith, compare_text-flip s t)

pub compare_text_trans :
    (s t u : Text)
    → compare_text s t ≡ Ordering.lt
    → compare_text t u ≡ Ordering.lt
    → compare_text s u ≡ Ordering.lt
unfolding compare_text
compare_text_trans [] [] u h k = cc
compare_text_trans [] (_ ∷ _) [] h k = cc
compare_text_trans [] (_ ∷ _) (_ ∷ _) h k = refl
compare_text_trans (_ ∷ _) [] u h k = cc
compare_text_trans (_ ∷ _) (_ ∷ _) [] h k = cc
compare_text_trans (c ∷ s) (d ∷ t) (e ∷ u) h k = ground (arith, compare_text_trans s t u)

pub compare_text-above :
    (s t : Text) → compare_text s t ≡ Ordering.lt → compare_text t s ≡ Ordering.gt
unfolding compare_text
compare_text-above [] [] h = cc
compare_text-above [] (_ ∷ _) h = refl
compare_text-above (_ ∷ _) [] h = cc
compare_text-above (c ∷ s) (d ∷ t) h = ground (arith, compare_text-above s t)
