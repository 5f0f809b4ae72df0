-- ===== src/Tests/Scopes.antt =====
-- Runs of the operations over all entries of the one-time table (magicvault-core/src/one_time.rs).
use magic_vault.Base.{
  text_eq, nat_eq, option_text_eq, true, some, ascii, ◌↔◌, ◌≡◌, ◌≢◌, refl, arith,
}
use magic_vault.Base.Map.{lookup, contains_key}
use magic_vault.OneTime.Table.{key}
use magic_vault.OneTime.Scope.{retire_scope}
use magic_vault.OneTime.Scopes.{retire_scope_iff}
use magic_vault.Base.Separators.{Without}
use magic_vault.Tests.Codes.{code, first, reserved, reserved-IsValid, reserved_code, scope}

retire_scope_iff_example :
    let u = (retire_scope reserved scope).0 in
    ((lookup (key scope code) u.entries ≡ some reserved_code) ↔ (
      (lookup (key scope code) reserved.entries ≡ some reserved_code)
      × (reserved_code.scope_id ≢ scope)))
    × ((lookup first u.reservations ≡ some (key scope code, 1)) ↔ (
        (lookup first reserved.reservations ≡ some (key scope code, 1))
        × (contains_key (key scope code) u.entries ≡ true)))
    × ((retire_scope u scope).1 ≡ 0)
retire_scope_iff_example =
    retire_scope_iff reserved scope (key scope code) first reserved_code 1 reserved-IsValid

scope_plain : Without b':' scope
scope_plain = (λ h. omega (arith, h), (λ h. omega (arith, h), (λ h. omega (arith, h), tt)))

test_collision : key (ascii "a") (ascii "b::c") ≡ key (ascii "a::b") (ascii "c")
unfolding key
test_collision = refl
