-- ===== src/Policy/DailyLimit.antt =====
-- magicvault-core/src/policy.rs: `UsageTracker` over a sequence of uses.
use magic_vault.Base.{
  ℕ, suc, ◌+◌, ◌≤◌, Text, text_eq, nat_eq, ◌==◌, not, ◌&&◌, Option, some, List, [], ◌∷◌, ◌≡◌, arith,
  if◌then◌else◌,
}
use magic_vault.Base.Time.{ℤ}
use magic_vault.Policy.Usage.{
  Counts, count, put_count, same_slot, saturating_suc, is_reached, try_record_use, u32_max,
}

count-put_count :
    (slot slot' : Text × ℕ) (v : ℕ) (m : Counts)
    → count slot (put_count slot' v m) ≡ (if same_slot slot slot' then v else count slot m)
unfolding count put_count
count-put_count slot slot' v [] = ground arith
count-put_count slot slot' v ((s, n) ∷ m) = ground (arith, count-put_count slot slot' v m)

module _ (date_key : ℤ → ℕ) where
  -- A use is recorded exactly when the count is below the limit. It raises the count of its secret and
  -- day by one, up to the largest `u32`, and changes no other; a refused use changes none.
  pub count-try_record_use :
      (m : Counts) (secret_id : Text) (at_ts : ℤ) (limit : Option ℕ) (slot : Text × ℕ)
      → let (m', done) = try_record_use date_key m secret_id at_ts limit in
        let used = count (secret_id, date_key at_ts) m in
        (done ≡ not (is_reached used limit))
        × (count slot m' ≡ (
            if done && same_slot slot (secret_id, date_key at_ts)
            then saturating_suc used
            else count slot m))
  unfolding try_record_use
  count-try_record_use m id at limit slot = ground (
    arith,
    count-put_count slot (id, date_key at) (count (id, date_key at) m) m,
    count-put_count slot (id, date_key at) (saturating_suc (count (id, date_key at) m)) m,
  )

  -- Uses of one secret, at the times of the list and with one limit: the counts after them, and how
  -- many were recorded on the day `day`.
  pub use_all : Counts → Text → Option ℕ → List ℤ → ℕ → Counts × ℕ
  use_all m secret_id limit [] day = (m, 0)
  use_all m secret_id limit (at ∷ ats) day =
      let (m', done) = try_record_use date_key m secret_id at limit in
      let (end, n) = use_all m' secret_id limit ats day in
      (end, if done && date_key at == day then suc n else n)

  -- With a limit that a `u32` can hold and a count of the secret's day that has not passed it:
  -- however many uses come, at whatever times, the day's count ends within the limit, and it grew
  -- by exactly the uses recorded on it.
  pub use_all-count :
      (m : Counts) (secret_id : Text) (limit : ℕ) (ats : List ℤ) (day : ℕ)
      → count (secret_id, day) m ≤ limit
      → limit ≤ u32_max
      → let (end, n) = use_all m secret_id (some limit) ats day in
        (count (secret_id, day) end ≤ limit)
        × (count (secret_id, day) m + n ≡ count (secret_id, day) end)
  unfolding use_all saturating_suc
  use_all-count m id limit [] day h b = (h, omega arith)
  use_all-count m id limit (at ∷ ats) day h b =
      let step = count-try_record_use m id at (some limit) (id, day) in
      let m' = (try_record_use date_key m id at (some limit)).0 in
      let bound : count (id, day) m' ≤ limit = ground (arith, step) in
      ground (arith, step, use_all-count m' id limit ats day bound b)
