-- ===== src/OneTime/Spent.antt =====
-- magicvault-core/src/one_time.rs: entries in a terminal state under further calls.
use magic_vault.Base.{
  ap, ◌∙◌, ℕ, ◌≤◌, Text, text_eq, false, none, some, ◌≡◌, refl, sym, inl, inr, arith, nat_eq,
  option_text_eq,
}
use magic_vault.Base.Map.{lookup}
use magic_vault.OneTime.Entry.{OneTimeEntry, OneTimeState, is_live}
use magic_vault.OneTime.Registering.{next_u64-below}
use magic_vault.OneTime.Table.{OneTimeTable, register, reserve}
use magic_vault.OneTime.Settle.{consume, release, cancel}
use magic_vault.OneTime.Scope.{state, sweep, retire_scope}
use magic_vault.OneTime.Invariant.{IsValid}
use magic_vault.OneTime.Lifecycle.{Edge, stay, hold, spend, give_back, lapse, revoke}
use magic_vault.OneTime.Steps.{
  Step, registers, reserves, consumes, releases, cancels, reads, sweeps, retires, Reach, here, next,
  Reach-IsValid,
}
use magic_vault.OneTime.Origins.{Step-Origin}

-- No edge leaves a state that holds no value.
pub Edge-terminal : {s s' : OneTimeState} → Edge s s' → is_live s ≡ false → s' ≡ s
Edge-terminal stay h = refl
Edge-terminal hold h = cc
Edge-terminal spend h = cc
Edge-terminal give_back h = cc
Edge-terminal (lapse q) h = cc
Edge-terminal (revoke q) h = cc

pub Step-le :
    {P : Text → Type 0} {t u : OneTimeTable} → Step P t u → t.next_generation ≤ u.next_generation
unfolding register reserve consume release cancel state sweep retire_scope
Step-le (registers t s i x d b now more) = ground (arith, next_u64-below t.next_generation more)
Step-le (reserves t s i c fresh now _ _) = ground arith
Step-le (consumes t id now) = ground arith
Step-le (releases t id now) = ground arith
Step-le (cancels t s i now) = ground arith
Step-le (reads t s i now) = ground arith
Step-le (sweeps t now) = ground arith
Step-le (retires t s) = ground arith

-- The registration `g` under `k` is in the state `s`, or gone.
abbrev IsSettled : Text → ℕ → OneTimeState → OneTimeTable → Type 0
IsSettled k g s u =
    (g ≤ u.next_generation)
    × ((e : OneTimeEntry) → lookup k u.entries ≡ some e → e.generation ≡ g → e.state ≡ s)

module _ {P : Text → Type 0} (k : Text) (g : ℕ) (s : OneTimeState) (ended : is_live s ≡ false) where
  Step-IsSettled :
      {t u : OneTimeTable} → IsValid t → Step P t u → IsSettled k g s t → IsSettled k g s u
  Step-IsSettled {t} {u} v st (le, h) = (
    omega (arith, Step-le st),
    λ e' found same. elim (Step-Origin v st k e' found) [
      | inl new ↦ absurd (omega arith)
      | inr (e, was, f) ↦
          let before : e.state ≡ s = h e was (sym f.same_generation ∙ same) in
          Edge-terminal f.edge (ap is_live before ∙ ended) ∙ before
    ],
  )

  Reach-IsSettled :
      {t u : OneTimeTable} → IsValid t → Reach P t u → IsSettled k g s t → IsSettled k g s u
  Reach-IsSettled v here h = h
  Reach-IsSettled v (next r st) h = Step-IsSettled (Reach-IsValid v r) st (Reach-IsSettled v r h)

-- A registration of a valid table that is consumed, cancelled or expired stays so whatever is
-- called, with the count of registrations below the largest `u64`, for as long as it is there,
-- and its code is gone.
pub Reach-terminal :
    {P : Text → Type 0} {t u : OneTimeTable} (k : Text) (e e' : OneTimeEntry)
    → IsValid t
    → Reach P t u
    → lookup k t.entries ≡ some e
    → is_live e.state ≡ false
    → lookup k u.entries ≡ some e'
    → e'.generation ≡ e.generation
    → (e'.state ≡ e.state) × (e'.value ≡ none)
Reach-terminal {t} {u} k e e' v r was ended found same =
    let start : IsSettled k e.generation e.state t =
      ((v.stored k e was).numbered, λ o q _. ground arith) in
    let after = (Reach-IsSettled k e.generation e.state ended v r start).1 e' found same in
    (after, ground (arith, (Reach-IsValid v r).stored k e' found))
