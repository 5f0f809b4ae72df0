-- ===== src/Base/Equality.antt =====
-- `==` of the source, for every type whose equality is decided, and texts as lists of bytes.
-- A Rust `String` or `&str` is the list of its UTF-8 bytes: `len`, the byte tests and the order
-- of `Ord for str` are those of that list.
use Prim.Native.Char.{code}
use Prim.Native.Nat.{ℕ}
use Prim.Native.String.{String}
use mathlib.Core.Path.{◌≡◌, refl}
use mathlib.Core.Logic.{ite}
use mathlib.Core.Bool.{Bool, true, false}
use mathlib.Core.Option.{Option}
use mathlib.Core.List.{List, [], ◌∷◌}
use native.Mathlib.Decide.{ℕ_discrete}

pub record Eq {ℓ} (A : Type ℓ) : Type ℓ where
  pub dec : Discrete A

infix 50 ◌==◌
abbrev pub ◌==◌ {ℓ} : {A : Type ℓ} ⦃e : Eq A⦄ → A → A → Bool
◌==◌ ⦃e⦄ a b = ite (e.dec a b) true false

abbrev pub Text : Type 0
Text = List ℕ

-- A literal of the source, which is ASCII throughout.
abbrev pub ascii : String → Text
ascii String.[] = []
ascii (String.◌∷◌ c s) = code c ∷ ascii s

unfoldable pub Text-discrete : Discrete Text
Text-discrete = hlevel ℕ_discrete

unfoldable pub option_discrete : Discrete (Option Text)
option_discrete = hlevel ℕ_discrete

instance unfoldable pub nat_eq : Eq ℕ
unfolding ℕ_discrete
nat_eq = record { dec = ℕ_discrete }

instance unfoldable pub text_eq : Eq Text
unfolding Text-discrete
text_eq = record { dec = Text-discrete }

instance unfoldable pub option_text_eq : Eq (Option Text)
unfolding option_discrete
option_text_eq = record { dec = option_discrete }

test_eq : (ascii "abc" == ascii "abd") ≡ false
unfolding text_eq ℕ_discrete
test_eq = refl
