-- ===== src/Captured/Partition.antt =====
-- magicvault-core/src/store.rs: the captured partition, its publication and its eviction. Writes to
-- the disk are not here: a `DiskWrite` says what the publication did to the file.
use magic_vault.Base.{
  ℕ, zero, suc, Text, text_eq, Bool, true, false, not, Option, none, some, if◌then◌else◌, Result,
  ok, err, length, ltb, [], ◌∷◌,
}
use magic_vault.Base.Map.{Map, lookup, remove, contains_key}
use magic_vault.Base.Time.{ltb_ℤ}
use magic_vault.Store.Features.{
  SecretSourceKind, SecretStoreError, SecretRuntimeCapabilities, refused_feature,
}
use magic_vault.Store.Vault.{SecretEntry}

-- `captured` of the state, the file it is published to, and the two flags.
pub record CapturedPartition : Type 0 where
  pub capabilities : SecretRuntimeCapabilities
  pub captured_max_origins : ℕ
  pub captured : Map SecretEntry
  pub captured_file : Map SecretEntry
  pub captured_dirty : Bool
  pub flush_in_flight : Bool

-- What a publication does: the file is replaced; it stays as it was; or it is replaced and a later call
-- of the publication, that of its directory's sync or of its permissions, fails.
pub data DiskWrite : Type 0 where
  replaced kept unconfirmed : DiskWrite

-- The errors of the captured methods: that of the feature test, or of a failed publication.
pub data CapturedError : Type 0 where
  refused : SecretStoreError → CapturedError
  not_published : CapturedError

unfoldable pub captured_feature : CapturedPartition → Option SecretStoreError
unfolding refused_feature
captured_feature p = refused_feature p.capabilities SecretSourceKind.captured

-- The flag is cleared before the copy is taken and set again where the publication fails.
unfoldable pub persist_captured :
    CapturedPartition → DiskWrite → CapturedPartition × Option CapturedError
unfolding captured_feature
persist_captured p outcome = elim (captured_feature p) [
  | some e ↦ (p, some (refused e))
  | none ↦ elim outcome [
    | replaced ↦ (record p { captured_file = p.captured; captured_dirty = false }, none)
    | kept ↦ (record p { captured_dirty = true }, some not_published)
    | unconfirmed ↦
        (record p { captured_file = p.captured; captured_dirty = true }, some not_published)
  ]
]

unfoldable pub flush_captured :
    CapturedPartition → DiskWrite → CapturedPartition × Option CapturedError
unfolding persist_captured
flush_captured p outcome =
    if not p.captured_dirty
    then (p, none)
    else if p.flush_in_flight
    then (p, none)
    else let done = persist_captured (record p { flush_in_flight = true }) outcome in
      (record (done.0) { flush_in_flight = false }, done.1)

-- `min_by_key` of `created_at`: the first of the oldest entries.
unfoldable pub older_of : Text × SecretEntry → Option (Text × SecretEntry) → Text × SecretEntry
unfolding ltb_ℤ
older_of first none = first
older_of first (some second) =
    if ltb_ℤ (second.1).created_at (first.1).created_at then second else first

unfoldable pub oldest : Map SecretEntry → Option (Text × SecretEntry)
unfolding older_of
oldest [] = none
oldest (e ∷ es) = some (older_of e (oldest es))

-- The loop of `evict_captured_if_needed`; a round removes an entry, so the number of entries bounds
-- the rounds.
unfoldable pub evict : ℕ → ℕ → Map SecretEntry → Map SecretEntry
unfolding oldest remove
evict max_origins zero entries = entries
evict max_origins (suc rounds) entries = elim (oldest entries) [
  | none ↦ entries
  | some (origin, _) ↦
      let rest = evict max_origins rounds (remove origin entries) in
      if ltb max_origins (length entries) then rest else entries
]

unfoldable pub evict_captured_if_needed : ℕ → Map SecretEntry → Map SecretEntry
unfolding evict
evict_captured_if_needed max_origins entries = evict max_origins (length entries) entries

unfoldable pub set_captured_max_origins : CapturedPartition → ℕ → CapturedPartition
set_captured_max_origins p value = record p {
  captured_max_origins = if ltb value 1 then 1 else value;
}

unfoldable pub has_captured : CapturedPartition → Text → Bool
unfolding captured_feature lookup
has_captured p origin = elim (captured_feature p) [
  | some _ ↦ false
  | none ↦ contains_key origin p.captured
]

-- `self.persist_captured()?; Ok(answer)`.
abbrev pub after_persist :
    Bool → CapturedPartition × Option CapturedError → CapturedPartition × Result Bool CapturedError
after_persist answer (q, none) = (q, ok answer)
after_persist answer (q, some e) = (q, err e)

unfoldable pub clear_captured :
    CapturedPartition → Text → DiskWrite → CapturedPartition × Result Bool CapturedError
unfolding captured_feature persist_captured lookup remove
clear_captured p origin outcome = elim (captured_feature p) [
  | some e ↦ (p, err (refused e))
  | none ↦
      if contains_key origin p.captured
      then after_persist true
          (persist_captured (record p { captured = remove origin p.captured }) outcome)
      else (p, ok false)
]

unfoldable pub clear_all_captured :
    CapturedPartition → DiskWrite → CapturedPartition × Option CapturedError
unfolding captured_feature persist_captured
clear_all_captured p outcome = elim (captured_feature p) [
  | some e ↦ (p, some (refused e))
  | none ↦ persist_captured (record p { captured = [] }) outcome
]
