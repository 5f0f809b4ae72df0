-- ===== src/Json/Scan/Chunks.antt =====
-- A body that is fed to `EncodedJsonStreamAdmission` in chunks, and the body fed at once.
use magic_vault.Base.{
  ◌≡◌, refl, sym, ap, ◌∙◌, arith, Text, if◌then◌else◌, true, false, List, [], ◌∷◌, ◌++◌, Bool-cases,
  inl, inr,
}
use magic_vault.Json.Buffers.{concat}
use magic_vault.Json.Scan.Stream.{
  EncodedJsonStreamAdmission, feed_byte, feed_bytes, feed, feed_chunks,
}

feed_bytes-append :
    (a : EncodedJsonStreamAdmission) (xs ys : Text)
    → feed_bytes a (xs ++ ys) ≡ (
        if (feed_bytes a xs).1
        then feed_bytes (feed_bytes a xs).0 ys
        else ((feed_bytes a xs).0, false))
unfolding feed_bytes
feed_bytes-append a [] ys = refl
feed_bytes-append a (x ∷ xs) ys = elim (Bool-cases (feed_byte a x).rejected) [
  | inl bad ↦ rw bad refl
  | inr good ↦ rw good (feed_bytes-append (feed_byte a x) xs ys)
]

-- What `feed` answers is whether the state that it leaves is good.
pub feed_bytes-rejected :
    (a : EncodedJsonStreamAdmission) (xs : Text)
    → a.rejected ≡ false
    → (feed_bytes a xs).0.rejected ≡ (if (feed_bytes a xs).1 then false else true)
unfolding feed_bytes
feed_bytes-rejected a [] h = h
feed_bytes-rejected a (x ∷ xs) h = elim (Bool-cases (feed_byte a x).rejected) [
  | inl bad ↦ rw bad (bad)
  | inr good ↦ rw good (feed_bytes-rejected (feed_byte a x) xs good)
]

feed_good :
    (a : EncodedJsonStreamAdmission) (xs : Text) → a.rejected ≡ false → feed a xs ≡ feed_bytes a xs
unfolding feed
feed_good a xs h = ap (λ b. if b then (a, false) else feed_bytes a xs) h

feed_bad : (a : EncodedJsonStreamAdmission) (xs : Text) → a.rejected ≡ true → feed a xs ≡ (a, false)
unfolding feed
feed_bad a xs h = ap (λ b. if b then (a, false) else feed_bytes a xs) h

pub feed-append :
    (a : EncodedJsonStreamAdmission) (xs ys : Text)
    → (feed a (xs ++ ys)).0 ≡ (feed (feed a xs).0 ys).0
feed-append a xs ys = elim (Bool-cases a.rejected) [
  | inl bad ↦
      ap (λ r. r.0) (feed_bad a (xs ++ ys) bad)
      ∙ sym (ap (λ r. r.0) (feed_bad a ys bad))
      ∙ ap (λ r. (feed r.0 ys).0) (sym (feed_bad a xs bad))
  | inr good ↦
      ap (λ r. r.0) (feed_good a (xs ++ ys) good ∙ feed_bytes-append a xs ys)
      ∙ (elim (Bool-cases (feed_bytes a xs).1) [
        | inl fed ↦
            let kept : (feed_bytes a xs).0.rejected ≡ false =
              ground (arith, feed_bytes-rejected a xs good, fed) in
            ap
              (λ b.
                (if b then feed_bytes (feed_bytes a xs).0 ys else ((feed_bytes a xs).0, false)).0)
              fed
            ∙ ap (λ r. r.0) (sym (feed_good (feed_bytes a xs).0 ys kept))
        | inr stopped ↦
            let lost : (feed_bytes a xs).0.rejected ≡ true =
              ground (arith, feed_bytes-rejected a xs good, stopped) in
            ap
              (λ b.
                (if b then feed_bytes (feed_bytes a xs).0 ys else ((feed_bytes a xs).0, false)).0)
              stopped
            ∙ ap (λ r. r.0) (sym (feed_bad (feed_bytes a xs).0 ys lost))
      ])
      ∙ ap (λ r. (feed r.0 ys).0) (sym (feed_good a xs good))
]

feed_nothing : (a : EncodedJsonStreamAdmission) → (feed a []).0 ≡ a
unfolding feed_bytes
feed_nothing a = elim (Bool-cases a.rejected) [
  | inl bad ↦ ap (λ r. r.0) (feed_bad a [] bad)
  | inr good ↦ ap (λ r. r.0) (feed_good a [] good)
]

pub feed_chunks-concat :
    (a : EncodedJsonStreamAdmission) (chunks : List Text)
    → (feed a (concat chunks)).0 ≡ feed_chunks a chunks
unfolding feed_chunks concat
feed_chunks-concat a [] = feed_nothing a
feed_chunks-concat a (c ∷ cs) = feed-append a c (concat cs) ∙ feed_chunks-concat (feed a c).0 cs
