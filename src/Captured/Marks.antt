-- ===== src/Captured/Marks.antt =====
-- magicvault-core/src/store.rs: which captures a list of targets marks stale.
use magic_vault.Base.{
  ℕ, Text, text_eq, nat_eq, ◌==◌, Bool, true, false, not, ◌&&◌, Option, none, some, ◌≡◌, List, [],
  ◌∷◌, is_some, inl, inr, arith, Bool-cases, Option-cases,
}
use magic_vault.Base.Bytes.{any_of}
use magic_vault.Base.Map.{Map, lookup, lookup-insert}
use magic_vault.Store.Vault.{SecretEntry}
use magic_vault.Captured.Session.{CapturedSessionTarget}
use magic_vault.Captured.Replay.{fresh_generation}
use magic_vault.Captured.Leases.{marked, mark_target, mark_targets}

abbrev pub is_blocked_entry : Option SecretEntry → Bool
is_blocked_entry none = false
is_blocked_entry (some e) = not (is_some (fresh_generation e))

-- The origin has an entry, and no session starts from it.
abbrev pub is_blocked : Text → Map SecretEntry → Bool
is_blocked origin m = is_blocked_entry (lookup origin m)

abbrev pub is_target : Text → ℕ → CapturedSessionTarget → Bool
is_target origin generation t = t.origin == origin && t.generation == generation

marked-stale :
    (generation : ℕ) (e f : SecretEntry)
    → marked true generation e ≡ some f
    → fresh_generation f ≡ none
unfolding marked fresh_generation
marked-stale generation e f h = ground arith

marked-fresh :
    (generation : ℕ) (e : SecretEntry)
    → fresh_generation e ≡ some generation
    → is_some (marked true generation e) ≡ true
unfolding marked fresh_generation
marked-fresh generation e h = ground arith

marked-generation :
    (generation current : ℕ) (e f : SecretEntry)
    → marked true generation e ≡ some f
    → fresh_generation e ≡ some current
    → current ≡ generation
unfolding marked fresh_generation
marked-generation generation current e f h g = ground arith

mark_target-blocked :
    (origin : Text) (t : CapturedSessionTarget) (s : Map SecretEntry × Bool)
    → is_blocked origin s.0 ≡ true
    → is_blocked origin (mark_target true t s).0 ≡ true
unfolding mark_target
mark_target-blocked origin t (m, c) h = elim (Option-cases (lookup t.origin m)) [
  | inl e ↦ rw (e, mark_target) h
  | inr (x, e) ↦ elim (Option-cases (marked true t.generation x)) [
    | inl n ↦ rw (e, n, mark_target) h
    | inr (y, n) ↦
        rw (e, n, mark_target)
          (ground (arith, h, lookup-insert origin t.origin y m, marked-stale t.generation x y n))
  ]
]

mark_target-missed :
    (origin : Text) (generation : ℕ) (e : SecretEntry) (t : CapturedSessionTarget)
    (m : Map SecretEntry) (c : Bool)
    → lookup origin m ≡ some e
    → fresh_generation e ≡ some generation
    → is_target origin generation t ≡ false
    → lookup origin (mark_target true t (m, c)).0 ≡ some e
unfolding mark_target
mark_target-missed origin generation e t m c l g n = elim (Option-cases (lookup t.origin m)) [
  | inl h ↦ rw (h, mark_target) l
  | inr (x, h) ↦ elim (Option-cases (marked true t.generation x)) [
    | inl k ↦ rw (h, k, mark_target) l
    | inr (y, k) ↦
        rw (h, k, mark_target)
          (ground (
            arith,
            l,
            n,
            h,
            g,
            lookup-insert origin t.origin y m,
            marked-generation t.generation generation x y k,
          ))
  ]
]

mark_target-hit :
    (origin : Text) (generation : ℕ) (e : SecretEntry) (t : CapturedSessionTarget)
    (m : Map SecretEntry) (c : Bool)
    → lookup origin m ≡ some e
    → fresh_generation e ≡ some generation
    → is_target origin generation t ≡ true
    → is_blocked origin (mark_target true t (m, c)).0 ≡ true
unfolding mark_target
mark_target-hit origin generation e t m c l g n = elim (Option-cases (marked true t.generation e)) [
  | inl k ↦ ground (arith, n, k, marked-fresh generation e g)
  | inr (y, k) ↦
      ground (arith, l, n, k, lookup-insert origin t.origin y m, marked-stale t.generation e y k)
]

mark_targets-blocked :
    (origin : Text) (ts : List CapturedSessionTarget) (s : Map SecretEntry × Bool)
    → is_blocked origin s.0 ≡ true
    → is_blocked origin (mark_targets true ts s).0 ≡ true
unfolding mark_targets
mark_targets-blocked origin [] s h = h
mark_targets-blocked origin (t ∷ ts) s h =
    mark_targets-blocked origin ts (mark_target true t s) (mark_target-blocked origin t s h)

pub mark_targets-hit :
    (origin : Text) (generation : ℕ) (e : SecretEntry) (ts : List CapturedSessionTarget)
    (m : Map SecretEntry) (c : Bool)
    → lookup origin m ≡ some e
    → fresh_generation e ≡ some generation
    → any_of (is_target origin generation) ts ≡ true
    → is_blocked origin (mark_targets true ts (m, c)).0 ≡ true
unfolding mark_targets any_of
mark_targets-hit origin generation e [] m c l g n = cc
mark_targets-hit origin generation e (t ∷ ts) m c l g n =
    elim (Bool-cases (is_target origin generation t)) [
      | inl h ↦
          mark_targets-blocked origin ts (mark_target true t (m, c))
            (mark_target-hit origin generation e t m c l g h)
      | inr h ↦
          mark_targets-hit origin generation e ts (mark_target true t (m, c)).0
            (mark_target true t (m, c)).1 (mark_target-missed origin generation e t m c l g h) g
            (ground (arith, n, h))
    ]
