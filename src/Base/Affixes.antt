-- ===== src/Base/Affixes.antt =====
-- Laws of the prefixes and suffixes of texts.
use mathlib.Core.Path.{◌≡◌, refl, sym, ap, subst}
use mathlib.Core.Logic.{◌↔◌}
use mathlib.Core.Bool.{true}
use mathlib.Core.Option.{some}
use mathlib.Core.List.{[], ◌∷◌, ◌++◌}
use native.Mathlib.Omega.{arith}
use magic_vault.Base.Equality.{Text, text_eq, nat_eq}
use magic_vault.Base.Bytes.{strip_prefix, ends_with}

pub strip_prefix-some : (p s : Text) (r : Text) → strip_prefix p s ≡ some r → s ≡ p ++ r
unfolding strip_prefix
strip_prefix-some [] s r h = ground arith
strip_prefix-some (c ∷ p) [] r h = cc
strip_prefix-some (c ∷ p) (d ∷ s) r h = ground (arith, strip_prefix-some p s r)

pub strip_prefix-append : (p r : Text) → strip_prefix p (p ++ r) ≡ some r
unfolding strip_prefix
strip_prefix-append [] r = refl
strip_prefix-append (c ∷ p) r = ground (arith, strip_prefix-append p r)

ends_with_refl : (s : Text) → ends_with s s ≡ true
unfolding ends_with
ends_with_refl [] = ground arith
ends_with_refl (c ∷ s) = ground arith

ends_with-append : (p suffix : Text) → ends_with (p ++ suffix) suffix ≡ true
unfolding ends_with
ends_with-append [] suffix = ends_with_refl suffix
ends_with-append (c ∷ p) suffix = ground (arith, ends_with-append p suffix)

ends_with_split : (s suffix : Text) → ends_with s suffix ≡ true → (p : Text) × (s ≡ p ++ suffix)
unfolding ends_with
ends_with_split [] suffix h = ([], ground arith)
ends_with_split (c ∷ s) suffix h = elim (text_eq.dec (c ∷ s) suffix) [
  | yes e ↦ ([], e)
  | no d ↦
      let (p, e) = ends_with_split s suffix (ground arith) in (c ∷ p, ap (λ (t : Text). c ∷ t) e)
]

pub ends_with_iff :
    (s suffix : Text) → (ends_with s suffix ≡ true) ↔ ((p : Text) × (s ≡ p ++ suffix))
ends_with_iff s suffix = (
  ends_with_split s suffix,
  λ (p, e). subst (λ (t : Text). ends_with t suffix ≡ true) (sym e) (ends_with-append p suffix),
)

pub append_cancel : (p s t : Text) → p ++ s ≡ p ++ t → s ≡ t
append_cancel [] s t h = h
append_cancel (c ∷ p) s t h = append_cancel p s t (ground (arith, h))
