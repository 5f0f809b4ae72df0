-- ===== src/Json/Buffers/Contents.antt =====
-- What the writers hold after the pieces of a text have been written to them in turn.
use mathlib.Core.List.{append_assoc, append-nil}
use magic_vault.Base.{
  ℕ, zero, suc, ◌+◌, ◌-◌, ◌≤◌, ◌≡◌, refl, sym, ap, ◌∙◌, arith, Text, true, false, ltb, leb, leb→le,
  if◌then◌else◌, List, [], ◌∷◌, ◌++◌, length, length-append, ok, err, inl, inr, Bool-cases,
}
use magic_vault.Base.Bytes.{take}
use magic_vault.Json.Sink.{write_pieces}
use magic_vault.Base.Bytes.{usize_max}
use magic_vault.Json.Buffers.{
  saturating_add, counting_sink, bounded_sink, prefix_sink, vec_sink, concat,
}

pub vec_sink-concat : (ps : List Text) (w : Text) → write_pieces vec_sink ps w ≡ ok (w ++ concat ps)
unfolding write_pieces vec_sink concat
vec_sink-concat [] w = ap ok (sym (append-nil w))
vec_sink-concat (p ∷ ps) w = vec_sink-concat ps (w ++ p) ∙ ap ok (append_assoc w p (concat ps))

pub saturating_add_assoc :
    (a b c : ℕ) → saturating_add (saturating_add a b) c ≡ saturating_add a (b + c)
unfolding saturating_add
saturating_add_assoc a b c = ground arith

pub counting_sink-length :
    (ps : List Text) (n : ℕ)
    → n ≤ usize_max
    → write_pieces counting_sink ps (record { bytes = n })
      ≡ ok (record { bytes = saturating_add n (length (concat ps)) })
unfolding write_pieces counting_sink saturating_add concat
counting_sink-length [] n h = ground arith
counting_sink-length (p ∷ ps) n h = ground (
  arith,
  saturating_add_assoc n (length p) (length (concat ps)),
  length-append p (concat ps),
  counting_sink-length ps (saturating_add n (length p)),
)

exceeded_stays :
    (ps : List Text) (m : ℕ)
    → write_pieces bounded_sink ps (record { bytes = []; max_bytes = m; exceeded = true })
      ≡ ok (record { bytes = []; max_bytes = m; exceeded = true })
unfolding write_pieces bounded_sink
exceeded_stays [] m = refl
exceeded_stays (p ∷ ps) m = exceeded_stays ps m

pub bounded_sink-concat :
    (ps : List Text) (b : Text) (m : ℕ)
    → length b ≤ m
    → write_pieces bounded_sink ps (record { bytes = b; max_bytes = m; exceeded = false })
      ≡ ok (
          if leb (length (b ++ concat ps)) m
          then record { bytes = b ++ concat ps; max_bytes = m; exceeded = false }
          else record { bytes = []; max_bytes = m; exceeded = true })
unfolding write_pieces bounded_sink concat
bounded_sink-concat [] b m h = rw (append-nil b) (ground arith)
bounded_sink-concat (p ∷ ps) b m h = elim (Bool-cases (leb (length p) (m - length b))) [
  | inl fits ↦
      rw (fits, ← append_assoc b p (concat ps))
        (bounded_sink-concat ps (b ++ p) m (omega (arith, length-append b p, leb→le _ _ fits)))
  | inr over ↦ rw (over) (
      exceeded_stays ps m
      ∙ ground (arith, length-append b (p ++ concat ps), length-append p (concat ps)))
]

take-append :
    (m : ℕ) (xs ys : Text) → length xs ≤ m → take m (xs ++ ys) ≡ xs ++ take (m - length xs) ys
take-append m [] ys h = let e : m ≡ m - 0 = omega arith in ap (λ k. take k ys) e
take-append zero (x ∷ xs) ys h = absurd (omega arith)
take-append (suc m) (x ∷ xs) ys h =
    let e : m - length xs ≡ suc m - suc (length xs) = omega arith in
    ap (x ∷◌) (take-append m xs ys (omega arith) ∙ ap (λ k. xs ++ take k ys) e)

take-append_short : (m : ℕ) (xs ys : Text) → m ≤ length xs → take m (xs ++ ys) ≡ take m xs
take-append_short zero xs ys h = refl
take-append_short (suc m) [] ys h = absurd (omega arith)
take-append_short (suc m) (x ∷ xs) ys h = ap (x ∷◌) (take-append_short m xs ys (omega arith))

-- What the writer keeps of the piece that it refuses.
kept_prefix :
    (m : ℕ) (b p rest : Text)
    → length b ≤ m
    → m - length b ≤ length p
    → (if ltb 0 (m - length b) then b ++ take (m - length b) p else b) ≡ take m (b ++ (p ++ rest))
kept_prefix m b p rest h k =
    kept
    ∙ ap (b ++◌) (sym (take-append_short (m - length b) p rest k))
    ∙ sym (take-append m b (p ++ rest) h)
  where
    kept :
        (if ltb 0 (m - length b) then b ++ take (m - length b) p else b)
        ≡ b ++ take (m - length b) p
    kept = elim (Bool-cases (ltb 0 (m - length b))) [
      | inl some_left ↦ rw some_left refl
      | inr none_left ↦
          let e : m - length b ≡ 0 = ground (arith, none_left) in
          rw (none_left, e, append-nil b) refl
    ]

pub prefix_sink-concat :
    (ps : List Text) (b : Text) (m : ℕ)
    → length b ≤ m
    → write_pieces prefix_sink ps (record { bytes = b; max_bytes = m; truncated = false }) ≡ (
        if leb (length (b ++ concat ps)) m
        then ok (record { bytes = b ++ concat ps; max_bytes = m; truncated = false })
        else err (record { bytes = take m (b ++ concat ps); max_bytes = m; truncated = true }))
unfolding write_pieces prefix_sink concat
prefix_sink-concat [] b m h = rw (append-nil b) (ground arith)
prefix_sink-concat (p ∷ ps) b m h = elim (Bool-cases (ltb (m - length b) (length p))) [
  | inl over ↦
      rw (over, kept_prefix m b p (concat ps) h (ground (arith, over)))
        (ground (arith, over, length-append b (p ++ concat ps), length-append p (concat ps)))
  | inr fits ↦
      rw (fits, ← append_assoc b p (concat ps))
        (prefix_sink-concat ps (b ++ p) m (ground (arith, length-append b p, fits)))
]
