-- ===== src/Json/Sink.antt =====
-- `std::io::Write` as the loops use it. A writer that refuses a write ends the loop, and is left in
-- the state in which it refused.
use magic_vault.Base.{
  Text, List, [], ◌∷◌, ◌++◌, ◌≡◌, refl, ◌∙◌, inl, inr, Result, ok, err, Result-cases,
}

pub record Sink {ℓ} (W : Type ℓ) : Type ℓ where
  pub write_all : Text → W → Result W W

abbrev pub then_write {ℓ} : {W : Type ℓ} → Result W W → (W → Result W W) → Result W W
then_write (ok w) f = f w
then_write (err w) f = err w

pub then_write_assoc {ℓ} :
    {W : Type ℓ} (r : Result W W) (f g : W → Result W W)
    → then_write r (λ w. then_write (f w) g) ≡ then_write (then_write r f) g
then_write_assoc (ok _) f g = refl
then_write_assoc (err _) f g = refl

-- Writes the pieces in turn and stops at the first refusal.
unfoldable pub write_pieces {ℓ} : {W : Type ℓ} → Sink W → List Text → W → Result W W
write_pieces sink [] w = ok w
write_pieces sink (p ∷ ps) w = then_write (sink.write_all p w) (write_pieces sink ps)

pub write_pieces-append {ℓ} :
    {W : Type ℓ} (sink : Sink W) (ps qs : List Text) (w : W)
    → write_pieces sink (ps ++ qs) w ≡ then_write (write_pieces sink ps w) (write_pieces sink qs)
unfolding write_pieces
write_pieces-append sink [] qs w = refl
write_pieces-append sink (p ∷ ps) qs w = elim (Result-cases (sink.write_all p w)) [
  | inl (v, e) ↦ rw e (write_pieces-append sink ps qs v)
  | inr (v, e) ↦ rw e refl
]

pub then_write-ok {ℓ} : {W : Type ℓ} (r : Result W W) → then_write r ok ≡ r
then_write-ok (ok _) = refl
then_write-ok (err _) = refl

pub write_pieces-key {ℓ} :
    {W : Type ℓ} (sink : Sink W) (ps qs : List Text) (p : Text) (rest : List Text) (w : W)
    → write_pieces sink (ps ++ (qs ++ p ∷ rest)) w
      ≡ then_write
          (then_write
            (then_write (write_pieces sink ps w) (write_pieces sink qs))
            (sink.write_all p))
          (write_pieces sink rest)
unfolding write_pieces
write_pieces-key sink ps qs p rest w =
    write_pieces-append sink ps (qs ++ p ∷ rest) w ∙ (elim (Result-cases (write_pieces sink ps w)) [
      | inl (u, e) ↦ rw e (
          write_pieces-append sink qs (p ∷ rest) u
          ∙ then_write_assoc (write_pieces sink qs u) (sink.write_all p) (write_pieces sink rest))
      | inr (_, e) ↦ rw e refl
    ])
