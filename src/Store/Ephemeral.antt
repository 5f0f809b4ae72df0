-- ===== src/Store/Ephemeral.antt =====
-- magicvault-core/src/store.rs: the run-scoped partition, whose entries may have a deadline. The
-- store's clock is the argument `now`; `created_at` is the other clock reading, in seconds.
use magic_vault.Base.{
  ℕ, ◌+◌, ◌-◌, Text, text_eq, ◌==◌, Bool, false, ◌&&◌, ◌||◌, not, Option, none, some, List, [], ◌∷◌,
  ◌++◌, if◌then◌else◌, ascii, length, Result, ok, err,
}
use magic_vault.Base.Map.{Map, lookup, insert, remove, retain, contains_key}
use magic_vault.Base.Time.{ℤ, leb_ℤ}
use magic_vault.Secrets.{InjectionTarget}
use magic_vault.OneTime.Scope.{scope_holds_live, retire_scope}
use magic_vault.Store.Features.{
  SecretSourceKind, SecretStoreError, deadline_passed, refused_feature, status_for, is_available,
}
use magic_vault.Store.Vault.{SecretStore, SecretEntry, SecretSource, SecretRef}

unfoldable pub scoped_ephemeral_key : Text → Text → Text
scoped_ephemeral_key scope_id input_id = scope_id ++ (ascii "::" ++ input_id)

abbrev pub is_due : ℤ → Option ℤ → Bool
is_due now none = false
is_due now (some deadline) = leb_ℤ deadline now

unfoldable pub ephemeral_entry_expired : SecretStore → Text → ℤ → Bool
ephemeral_entry_expired s k now = is_due now (lookup k s.ephemeral_deadlines)

unfoldable pub due_keys : ℤ → Map ℤ → List Text
due_keys now [] = []
due_keys now ((k, deadline) ∷ m) =
    let rest = due_keys now m in if leb_ℤ deadline now then k ∷ rest else rest

unfoldable pub remove_keys {ℓ} : {V : Type ℓ} → List Text → Map V → Map V
remove_keys [] m = m
remove_keys (k ∷ ks) m = remove_keys ks (remove k m)

unfoldable pub reap_expired_ephemeral : SecretStore → ℤ → SecretStore × ℕ
unfolding due_keys remove_keys
reap_expired_ephemeral s now =
    let due = due_keys now s.ephemeral_deadlines in
    (
      record s {
        ephemeral_deadlines = remove_keys due s.ephemeral_deadlines;
        ephemeral = remove_keys due s.ephemeral;
      },
      length due,
    )

abbrev pub put_deadline : Text → Option ℤ → Map ℤ → Map ℤ
put_deadline k none m = remove k m
put_deadline k (some deadline) m = insert k deadline m

-- The entry of a run-scoped value.
unfoldable pub ephemeral_entry : Text → Text → Text → ℤ → SecretEntry
ephemeral_entry task_id input_id value created_at = record {
  id = input_id;
  label = input_id;
  fields = (ascii "value", value) ∷ [];
  source = SecretSource.ephemeral task_id;
  injection = InjectionTarget.inline;
  policy = none;
  created_at = created_at;
}

unfoldable pub register_ephemeral_inner :
    SecretStore
    → Text
    → Text
    → Text
    → Option ℤ
    → ℤ
    → ℤ
    → SecretStore × Result SecretRef SecretStoreError
unfolding reap_expired_ephemeral ephemeral_entry
register_ephemeral_inner s task_id input_id value expires_at_ms now created_at =
    elim (refused_feature s.capabilities SecretSourceKind.ephemeral) [
      | some e ↦ (s, err e)
      | none ↦
          let k = scoped_ephemeral_key task_id input_id in
          let reaped = (reap_expired_ephemeral s now).0 in
          if is_due now expires_at_ms then (s, err deadline_passed) else (
            record reaped {
              ephemeral_deadlines = put_deadline k expires_at_ms reaped.ephemeral_deadlines;
              ephemeral =
                  insert k (ephemeral_entry task_id input_id value created_at) reaped.ephemeral;
            },
            ok (SecretRef.placeholder input_id),
          )
    ]

abbrev pub value_of : Option SecretEntry → Option Text
value_of none = none
value_of (some e) = lookup (ascii "value") e.fields

abbrev pub cons_value : Option Text → List Text → List Text
cons_value none rest = rest
cons_value (some v) rest = v ∷ rest

-- The values of the entries with the input id.
unfoldable pub values_of_input : Text → Map SecretEntry → List Text
values_of_input input_id [] = []
values_of_input input_id ((_, e) ∷ m) =
    let rest = values_of_input input_id m in
    if e.id == input_id then cons_value (value_of (some e)) rest else rest

abbrev pub only_one : List Text → Option Text
only_one (v ∷ []) = some v
only_one _ = none

unfoldable pub get_ephemeral : SecretStore → Text → ℤ → SecretStore × Option Text
unfolding reap_expired_ephemeral
get_ephemeral s input_id now =
    let reaped = (reap_expired_ephemeral s now).0 in
    if not (is_available (status_for s.capabilities SecretSourceKind.ephemeral))
    then (s, none)
    else (reaped, only_one (values_of_input input_id reaped.ephemeral))

unfoldable pub get_ephemeral_scoped : SecretStore → Text → Text → ℤ → SecretStore × Option Text
unfolding reap_expired_ephemeral
get_ephemeral_scoped s task_id input_id now =
    let reaped = (reap_expired_ephemeral s now).0 in
    if not (is_available (status_for s.capabilities SecretSourceKind.ephemeral))
    then (s, none)
    else (reaped, value_of (lookup (scoped_ephemeral_key task_id input_id) reaped.ephemeral))

unfoldable pub sweep_expired_ephemeral : SecretStore → ℤ → SecretStore × ℕ
unfolding reap_expired_ephemeral
sweep_expired_ephemeral s now = reap_expired_ephemeral s now

abbrev pub is_of_task : Text → SecretSource → Bool
is_of_task task_id (SecretSource.ephemeral entry_task_id) = entry_task_id == task_id
is_of_task task_id _ = false

unfoldable pub holds_plain : SecretStore → Text → ℤ → Map SecretEntry → Bool
unfolding ephemeral_entry_expired
holds_plain s task_id now [] = false
holds_plain s task_id now ((k, e) ∷ m) =
    is_of_task task_id e.source && not (ephemeral_entry_expired s k now)
    || holds_plain s task_id now m

unfoldable pub ephemeral_scope_holds_user_typed_secret : SecretStore → Text → ℤ → Bool
unfolding holds_plain scope_holds_live
ephemeral_scope_holds_user_typed_secret s task_id now =
    holds_plain s task_id now s.ephemeral || scope_holds_live s.one_time task_id now

unfoldable pub clear_ephemeral : SecretStore → Text → SecretStore × ℕ
unfolding retire_scope
clear_ephemeral s task_id =
    let kept = retain (λ _ (e : SecretEntry). not (is_of_task task_id e.source)) s.ephemeral in
    let (one_time, retired) = retire_scope s.one_time task_id in
    if not (is_available (status_for s.capabilities SecretSourceKind.ephemeral)) then (s, 0) else (
      record s {
        ephemeral = kept;
        ephemeral_deadlines = retain (λ k _. contains_key k kept) s.ephemeral_deadlines;
        one_time = one_time;
      },
      length s.ephemeral - length kept + retired,
    )
