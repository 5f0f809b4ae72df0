-- ===== src/Captured/Leases.antt =====
-- magicvault-core/src/store.rs: the stale marks of captures, by the lease of a session or by origin
-- and generation, and the status of a capture.
use magic_vault.Base.{
  ℕ, Text, text_eq, nat_eq, ◌==◌, Bool, true, false, not, ◌||◌, Option, none, some, if◌then◌else◌,
  List, [], ◌∷◌, Result, ok, err, is_some, is_empty,
}
use magic_vault.Base.Bytes.{strip_prefix}
use magic_vault.Base.Map.{Map, lookup, insert}
use magic_vault.Store.Vault.{SecretEntry, SecretSource, captured}
use magic_vault.Captured.Fields.{
  cookie_prefix, header_prefix, query_param_prefix, local_storage_prefix, session_storage_prefix,
}
use magic_vault.Captured.Session.{
  CapturedSessionTarget, CapturedSessionLease, empty_lease, push_target, any_key,
}
use magic_vault.Captured.Partition.{
  DiskWrite, CapturedPartition, CapturedError, refused, captured_feature, persist_captured,
  after_persist,
}

abbrev pub is_marked : Bool → Bool → Bool
is_marked true stale = stale
is_marked false stale = not stale

-- The entry with the mark `value`, where it is a capture of this generation without that mark.
unfoldable pub marked : Bool → ℕ → SecretEntry → Option SecretEntry
unfolding nat_eq
marked value generation e = elim e.source [
  | captured origin current stale expires_hint ↦
      if not (current == generation) || is_marked value stale
      then none
      else some (record e { source = captured origin current value expires_hint })
  | _ ↦ none
]

-- A round of the loop over the targets, with whether an entry changed.
unfoldable pub mark_target :
    Bool → CapturedSessionTarget → Map SecretEntry × Bool → Map SecretEntry × Bool
unfolding lookup insert marked
mark_target value target (entries, changed) = elim (lookup target.origin entries) [
  | none ↦ (entries, changed)
  | some e ↦ elim (marked value target.generation e) [
    | none ↦ (entries, changed)
    | some f ↦ (insert target.origin f entries, true)
  ]
]

unfoldable pub mark_targets :
    Bool → List CapturedSessionTarget → Map SecretEntry × Bool → Map SecretEntry × Bool
unfolding mark_target
mark_targets value [] s = s
mark_targets value (t ∷ ts) s = mark_targets value ts (mark_target value t s)

-- `mark_stale_lease` and `mark_fresh_lease` differ in the mark.
unfoldable pub mark_lease :
    Bool
    → CapturedPartition
    → CapturedSessionLease
    → DiskWrite
    → CapturedPartition × Result Bool CapturedError
unfolding captured_feature mark_targets persist_captured
mark_lease value p lease outcome = elim (captured_feature p) [
  | some e ↦ (p, err (refused e))
  | none ↦
      let after = mark_targets value lease.stale_mark_targets (p.captured, false) in
      let q = record p { captured = after.0 } in
      if is_empty lease.stale_mark_targets
      then (p, ok false)
      else if after.1
      then after_persist true (persist_captured q outcome)
      else (q, ok false)
]

unfoldable pub mark_stale_lease :
    CapturedPartition
    → CapturedSessionLease
    → DiskWrite
    → CapturedPartition × Result Bool CapturedError
unfolding mark_lease
mark_stale_lease p lease outcome = mark_lease true p lease outcome

unfoldable pub mark_fresh_lease :
    CapturedPartition
    → CapturedSessionLease
    → DiskWrite
    → CapturedPartition × Result Bool CapturedError
unfolding mark_lease
mark_fresh_lease p lease outcome = mark_lease false p lease outcome

unfoldable pub mark_stale :
    CapturedPartition → Text → ℕ → DiskWrite → CapturedPartition × Result Bool CapturedError
unfolding push_target mark_stale_lease
mark_stale p origin generation outcome =
    mark_stale_lease p (push_target empty_lease origin generation) outcome

-- The entry with the mark `value`, where it is a capture of this generation.
unfoldable pub set_mark : Bool → ℕ → SecretEntry → Option SecretEntry
unfolding nat_eq
set_mark value generation e = elim e.source [
  | captured origin current _ expires_hint ↦
      if not (current == generation)
      then none
      else some (record e { source = captured origin current value expires_hint })
  | _ ↦ none
]

unfoldable pub update_captured_state :
    CapturedPartition → Text → ℕ → Bool → DiskWrite → CapturedPartition × Result Bool CapturedError
unfolding lookup insert set_mark persist_captured
update_captured_state p origin generation stale_value outcome = elim (lookup origin p.captured) [
  | none ↦ (p, ok false)
  | some e ↦ elim (set_mark stale_value generation e) [
    | none ↦ (p, ok false)
    | some f ↦
        after_persist true
          (persist_captured (record p { captured = insert origin f p.captured }) outcome)
  ]
]

unfoldable pub mark_fresh :
    CapturedPartition → Text → ℕ → DiskWrite → CapturedPartition × Result Bool CapturedError
unfolding captured_feature update_captured_state
mark_fresh p origin generation outcome = elim (captured_feature p) [
  | some e ↦ (p, err (refused e))
  | none ↦ update_captured_state p origin generation false outcome
]

pub record AuthStatusMetadata : Type 0 where
  pub has_auth : Bool
  pub is_stale : Bool
  pub has_cookies : Bool
  pub has_headers : Bool
  pub has_query_params : Bool
  pub has_storage : Bool

abbrev pub default_status : AuthStatusMetadata
default_status = record {
  has_auth = false;
  is_stale = false;
  has_cookies = false;
  has_headers = false;
  has_query_params = false;
  has_storage = false;
}

abbrev pub is_stale_source : SecretSource → Bool
is_stale_source (captured _ _ stale _) = stale
is_stale_source _ = false

unfoldable pub has_key_with : Text → Map Text → Bool
unfolding any_key strip_prefix
has_key_with prefix fields = any_key (λ k. is_some (strip_prefix prefix k)) fields

unfoldable pub auth_status_for_entry : SecretEntry → AuthStatusMetadata
unfolding has_key_with
auth_status_for_entry e = record {
  has_auth = true;
  is_stale = is_stale_source e.source;
  has_cookies = has_key_with cookie_prefix e.fields;
  has_headers = has_key_with header_prefix e.fields;
  has_query_params = has_key_with query_param_prefix e.fields;
  has_storage =
      any_key
        (λ k.
          is_some (strip_prefix local_storage_prefix k)
          || is_some (strip_prefix session_storage_prefix k))
        e.fields;
}

unfoldable pub captured_status : CapturedPartition → Text → AuthStatusMetadata
unfolding captured_feature lookup auth_status_for_entry
captured_status p origin = elim (captured_feature p) [
  | some _ ↦ default_status
  | none ↦ elim (lookup origin p.captured) [
    | none ↦ default_status
    | some e ↦ auth_status_for_entry e
  ]
]

abbrev pub statuses : Map SecretEntry → Map AuthStatusMetadata
statuses [] = []
statuses ((origin, e) ∷ es) = (origin, auth_status_for_entry e) ∷ statuses es

unfoldable pub all_captured_statuses : CapturedPartition → Map AuthStatusMetadata
unfolding captured_feature auth_status_for_entry
all_captured_statuses p = elim (captured_feature p) [ some _ ↦ [] | none ↦ statuses p.captured ]
