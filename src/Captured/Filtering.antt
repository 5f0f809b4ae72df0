-- ===== src/Captured/Filtering.antt =====
-- magicvault-core/src/injection.rs: what `filter_cookies_for_url` keeps, and in which order.
use mathlib.Core.List.{Memᴰ}
use mathlib.Core.List.Memᴰ
use magic_vault.Base.{ℕ, ◌≤◌, List, [], ◌∷◌, length, All}
use magic_vault.Captured.Cookies.{CookieWithMetadata}

-- No path in the list is longer than `n`.
abbrev pub AllWithin : ℕ → List CookieWithMetadata → Type 0
AllWithin n = All (λ d. length d.path ≤ n)

-- The cookies stand with the longer paths first.
abbrev pub LongestFirst : List CookieWithMetadata → Type 0
LongestFirst [] = Unit
LongestFirst (c ∷ cs) = AllWithin (length c.path) cs × LongestFirst cs
