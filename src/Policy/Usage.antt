-- ===== src/Policy/Usage.antt =====
-- magicvault-core/src/policy.rs: `UsageTracker`. The day of a timestamp is chrono's, a parameter; a
-- use takes the lock once, so it is one step on the map of the counts.
use magic_vault.Base.{
  ℕ, ◌+◌, Text, text_eq, nat_eq, ◌==◌, Bool, true, false, ◌&&◌, Option, none, some, List, [], ◌∷◌,
  if◌then◌else◌, ltb, leb,
}
use magic_vault.Base.Time.{ℤ}

abbrev pub u32_max : ℕ
u32_max = 4294967295

abbrev pub Counts : Type 0
Counts = List ((Text × ℕ) × ℕ)

abbrev pub same_slot : Text × ℕ → Text × ℕ → Bool
same_slot (id, day) (id', day') = id == id' && day == day'

-- `get(..).copied().unwrap_or_default()`.
unfoldable pub count : Text × ℕ → Counts → ℕ
count slot [] = 0
count slot ((s, n) ∷ m) = let rest = count slot m in if same_slot slot s then n else rest

unfoldable pub put_count : Text × ℕ → ℕ → Counts → Counts
put_count slot v [] = (slot, v) ∷ []
put_count slot v ((s, n) ∷ m) =
    let rest = put_count slot v m in if same_slot slot s then (slot, v) ∷ m else (s, n) ∷ rest

unfoldable pub saturating_suc : ℕ → ℕ
saturating_suc n = if ltb n u32_max then n + 1 else u32_max

abbrev pub is_reached : ℕ → Option ℕ → Bool
is_reached n none = false
is_reached n (some limit) = leb limit n

module _ (date_key : ℤ → ℕ) where
  unfoldable pub is_within_limit : Counts → Text → ℤ → ℕ → Bool
  is_within_limit m secret_id at_ts limit = ltb (count (secret_id, date_key at_ts) m) limit

  -- `entry(..).or_default()` writes a count of 0 for a new slot also where the limit refuses.
  unfoldable pub try_record_use : Counts → Text → ℤ → Option ℕ → Counts × Bool
  unfolding saturating_suc
  try_record_use m secret_id at_ts limit =
      let slot : Text × ℕ = (secret_id, date_key at_ts) in
      let n = count slot m in
      if is_reached n limit
      then (put_count slot n m, false)
      else (put_count slot (saturating_suc n) m, true)

  unfoldable pub record_use : Counts → Text → ℤ → Counts
  unfolding try_record_use
  record_use m secret_id at_ts = (try_record_use m secret_id at_ts none).0
