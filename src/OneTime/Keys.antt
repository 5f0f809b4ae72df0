-- ===== src/OneTime/Keys.antt =====
-- magicvault-core/src/one_time.rs: which (scope, input) pairs share a key of the table.
use magic_vault.Base.{Text, ◌≡◌, arith, ◌∷◌}
use magic_vault.Base.Separators.{Without, split_unique}
use magic_vault.OneTime.Table.{key}

-- Two pairs whose scope ids hold no colon share a key only if they are the same pair.
pub key_injective :
    (s s' i i' : Text)
    → Without b':' s
    → Without b':' s'
    → key s i ≡ key s' i'
    → (s ≡ s') × (i ≡ i')
unfolding key
key_injective s s' i i' w w' h =
    let (scopes, rest) = split_unique b':' s s' (b':' ∷ i) (b':' ∷ i') w w' h in
    (scopes, ground (arith, rest))
