-- ===== src/Json/Loop.antt =====
-- `loop { .. }` with its `return`: a round either goes on from a new state or returns.
use magic_vault.Base.{ℕ, zero, suc, List, Option, none, some, Result, ok, err, ◌≡◌, refl, ap, ◌∙◌}
use magic_vault.Json.Sink.{then_write}

pub data Round {ℓ κ} (S : Type ℓ) (R : Type κ) : Type (ℓ ⊔ κ) where
  next : S → Round S R
  return : R → Round S R

-- `none` means that the rounds were not enough.
module _ {ℓ κ} {S : Type ℓ} {R : Type κ} where
  unfoldable pub loop_for : ℕ → (S → Round S R) → S → Option R
  loop_for zero round s = none
  loop_for (suc n) round s = elim (round s) [ next t ↦ loop_for n round t | return r ↦ some r ]

-- The state of a loop that walks a value: the value to visit next, if one is waiting, the open
-- containers, the innermost first, and what the loop has put out.
pub record Walk {ℓ} (C F : Type 0) (W : Type ℓ) : Type ℓ where
  pub current : Option C
  pub frames : List F
  pub output : W

-- After a write: the next round looks at the innermost frame, or at the value given.
module _ {ℓ} {C F : Type 0} {W : Type ℓ} where
  abbrev pub written : List F → Result W W → Round (Walk C F W) (Result W W)
  written fs (ok w) = next (record { current = none; frames = fs; output = w })
  written fs (err w) = return (err w)

  abbrev pub descend : C → List F → Result W W → Round (Walk C F W) (Result W W)
  descend c fs (ok w) = next (record { current = some c; frames = fs; output = w })
  descend c fs (err w) = return (err w)

  -- What is left to do after a write, with rounds to spare.
  abbrev pub resume :
      ℕ → (Walk C F W → Round (Walk C F W) (Result W W)) → List F → Result W W → Option (Result W W)
  resume n round fs (ok w) = loop_for n round (record { current = none; frames = fs; output = w })
  resume n round fs (err w) = some (err w)

  -- What the loop does with a round.
  abbrev pub follow :
      ℕ
      → (Walk C F W → Round (Walk C F W) (Result W W))
      → Round (Walk C F W) (Result W W)
      → Option (Result W W)
  follow n round (next s) = loop_for n round s
  follow n round (return r) = some r

-- The loop after a write, when what follows the write is known for every state that it can leave.
module _ {ℓ} {C F : Type 0} {W : Type ℓ} (round : Walk C F W → Round (Walk C F W) (Result W W))
    (m n : ℕ) (fs : List F) (f : W → Result W W) where
  pub resume-then_write :
      (gs : List F) (r : Result W W)
      → ((w : W)
          → loop_for m round (record { current = none; frames = gs; output = w })
            ≡ resume n round fs (f w))
      → resume m round gs r ≡ resume n round fs (then_write r f)
  resume-then_write gs (ok w) h = h w
  resume-then_write gs (err _) h = refl

  pub follow-written :
      (gs : List F) (r : Result W W)
      → ((w : W)
          → loop_for m round (record { current = none; frames = gs; output = w })
            ≡ resume n round fs (f w))
      → follow m round (written gs r) ≡ resume n round fs (then_write r f)
  follow-written gs (ok w) h = h w
  follow-written gs (err _) h = refl

  pub follow-descend :
      (c : C) (gs : List F) (r : Result W W)
      → ((w : W)
          → loop_for m round (record { current = some c; frames = gs; output = w })
            ≡ resume n round fs (f w))
      → follow m round (descend c gs r) ≡ resume n round fs (then_write r f)
  follow-descend c gs (ok w) h = h w
  follow-descend c gs (err _) h = refl

module _ {ℓ κ} {S : Type ℓ} {R : Type κ} where
  abbrev pub loop_on : ℕ → (S → Round S R) → Round S R → Option R
  loop_on n round (next s) = loop_for n round s
  loop_on n round (return r) = some r

  loop_on_congr :
      (f g : S → Round S R) (n : ℕ)
      → ((s : S) → loop_for n f s ≡ loop_for n g s)
      → (r : Round S R) → loop_on n f r ≡ loop_on n g r
  loop_on_congr f g n h (next s) = h s
  loop_on_congr f g n h (return r) = refl

  pub loop_for_congr :
      (f g : S → Round S R)
      → ((s : S) → f s ≡ g s)
      → (n : ℕ) (s : S) → loop_for n f s ≡ loop_for n g s
  unfolding loop_for
  loop_for_congr f g h zero s = refl
  loop_for_congr f g h (suc n) s =
      loop_on_congr f g n (loop_for_congr f g h n) (f s) ∙ ap (loop_on n g) (h s)
