-- ===== src/Store/Deadlines.antt =====
-- magicvault-core/src/store.rs: the deadlines of the run-scoped partition.
use mathlib.Core.Path.{subst}
use magic_vault.Base.{
  Text-discrete, ap, ◌∙◌, Text, text_eq, ◌==◌, Bool, true, false, Option, none, some, List, [], ◌∷◌,
  if◌then◌else◌, ok, ◌≡◌, refl, sym, arith,
}
use magic_vault.Base.Bytes.{any_of}
use magic_vault.Base.Map.{
  Map, lookup, insert, remove, lookup-remove, lookup-insert, insert-NodupKeys, remove-NodupKeys,
  NodupKeys,
}
use magic_vault.Base.Time.{ℤ}
use magic_vault.Store.Features.{SecretSourceKind, refused_feature}
use magic_vault.Store.Vault.{SecretStore, SecretRef}
use magic_vault.Store.Ephemeral.{
  scoped_ephemeral_key, is_due, due_keys, remove_keys, reap_expired_ephemeral,
  register_ephemeral_inner, get_ephemeral_scoped, value_of, put_deadline, ephemeral_entry,
}

abbrev has_key : Text → List Text → Bool
has_key k ks = any_of (λ (j : Text). k == j) ks

lookup-remove_keys {ℓ} :
    {V : Type ℓ} (k : Text) (ks : List Text) (m : Map V)
    → lookup k (remove_keys ks m) ≡ (if has_key k ks then none else lookup k m)
unfolding remove_keys any_of
lookup-remove_keys k [] m = refl
lookup-remove_keys k (j ∷ ks) m =
    ground (arith, lookup-remove_keys k ks (remove j m), lookup-remove k j m)

remove_keys-NodupKeys {ℓ} :
    {V : Type ℓ} (ks : List Text) (m : Map V) → NodupKeys m → NodupKeys (remove_keys ks m)
unfolding remove_keys
remove_keys-NodupKeys [] m u = u
remove_keys-NodupKeys (k ∷ ks) m u = remove_keys-NodupKeys ks (remove k m) (remove-NodupKeys k m u)

due_keys-none :
    (k : Text) (now : ℤ) (m : Map ℤ) → lookup k m ≡ none → has_key k (due_keys now m) ≡ false
unfolding due_keys any_of lookup
due_keys-none k now [] h = refl
due_keys-none k now ((j, d) ∷ m) h = ground (arith, due_keys-none k now m)

-- A key is due exactly when it has a deadline that has passed.
due_keys-lookup :
    (k : Text) (now : ℤ) (m : Map ℤ)
    → NodupKeys m
    → has_key k (due_keys now m) ≡ is_due now (lookup k m)
unfolding due_keys any_of lookup
due_keys-lookup k now [] u = refl
due_keys-lookup k now ((j, d) ∷ m) (fresh, u) =
    ground (arith, due_keys-lookup k now m u, due_keys-none k now m)

lookup-reaped :
    (s : SecretStore) (k : Text) (now : ℤ)
    → NodupKeys s.ephemeral_deadlines
    → lookup k (reap_expired_ephemeral s now).0.ephemeral
      ≡ (if is_due now (lookup k s.ephemeral_deadlines) then none else lookup k s.ephemeral)
unfolding reap_expired_ephemeral
lookup-reaped s k now u = ground (
  arith,
  lookup-remove_keys k (due_keys now s.ephemeral_deadlines) s.ephemeral,
  due_keys-lookup k now s.ephemeral_deadlines u,
)

reaped-NodupKeys :
    (s : SecretStore) (now : ℤ)
    → NodupKeys s.ephemeral_deadlines
    → NodupKeys (reap_expired_ephemeral s now).0.ephemeral_deadlines
unfolding reap_expired_ephemeral
reaped-NodupKeys s now u =
    remove_keys-NodupKeys (due_keys now s.ephemeral_deadlines) s.ephemeral_deadlines u

put_deadline-NodupKeys :
    (k : Text) (d : Option ℤ) (m : Map ℤ) → NodupKeys m → NodupKeys (put_deadline k d m)
put_deadline-NodupKeys k none m u = remove-NodupKeys k m u
put_deadline-NodupKeys k (some d) m u = insert-NodupKeys k d m u

lookup-put_deadline : (k : Text) (d : Option ℤ) (m : Map ℤ) → lookup k (put_deadline k d m) ≡ d
lookup-put_deadline k none m = ground (arith, lookup-remove k k m)
lookup-put_deadline k (some d) m = ground (arith, lookup-insert k k d m)

-- What a registration that returns a placeholder did.
registered :
    (s : SecretStore) (task_id input_id value : Text) (d : Option ℤ) (now created_at : ℤ)
    → (register_ephemeral_inner s task_id input_id value d now created_at).1
      ≡ ok (SecretRef.placeholder input_id)
    → let u = (register_ephemeral_inner s task_id input_id value d now created_at).0 in
      let reaped = (reap_expired_ephemeral s now).0 in
      let k = scoped_ephemeral_key task_id input_id in
      (u.capabilities ≡ s.capabilities)
      × (refused_feature s.capabilities SecretSourceKind.ephemeral ≡ none)
      × (u.ephemeral_deadlines ≡ put_deadline k d reaped.ephemeral_deadlines)
      × (u.ephemeral
          ≡ insert k (ephemeral_entry task_id input_id value created_at) reaped.ephemeral)
unfolding register_ephemeral_inner reap_expired_ephemeral
registered s task_id input_id value d now created_at h = ground arith

get_ephemeral_scoped-lookup :
    (s : SecretStore) (task_id input_id : Text) (now : ℤ)
    → refused_feature s.capabilities SecretSourceKind.ephemeral ≡ none
    → (get_ephemeral_scoped s task_id input_id now).1
      ≡ value_of (
          lookup (scoped_ephemeral_key task_id input_id) (reap_expired_ephemeral s now).0.ephemeral)
unfolding get_ephemeral_scoped refused_feature
get_ephemeral_scoped-lookup s task_id input_id now h = ground arith

value_of-entry :
    (task_id input_id value : Text) (created_at : ℤ) (gone : Bool)
    → value_of (if gone then none else some (ephemeral_entry task_id input_id value created_at))
      ≡ (if gone then none else some value)
unfolding ephemeral_entry lookup text_eq Text-discrete
value_of-entry task_id input_id value created_at true = refl
value_of-entry task_id input_id value created_at false = ground arith

-- In a store where no key has two deadlines, a value that was registered, with a deadline or
-- none, is what a read of its scope and input returns at any time before the deadline; at or past
-- the deadline the read returns nothing.
pub register_ephemeral-get :
    (s : SecretStore) (task_id input_id value : Text) (d : Option ℤ) (now created_at later : ℤ)
    → NodupKeys s.ephemeral_deadlines
    → (register_ephemeral_inner s task_id input_id value d now created_at).1
      ≡ ok (SecretRef.placeholder input_id)
    → let u = (register_ephemeral_inner s task_id input_id value d now created_at).0 in
      (get_ephemeral_scoped u task_id input_id later).1
      ≡ (if is_due later d then none else some value)
register_ephemeral-get s task_id input_id value d now created_at later nodup done =
    let (same, feature, deadlines, entries) =
      registered s task_id input_id value d now created_at done in
    let u = (register_ephemeral_inner s task_id input_id value d now created_at).0 in
    let k = scoped_ephemeral_key task_id input_id in
    let reaped = (reap_expired_ephemeral s now).0 in
    let distinct : NodupKeys u.ephemeral_deadlines =
      subst (λ m. NodupKeys m) (sym deadlines)
        (put_deadline-NodupKeys k d reaped.ephemeral_deadlines (reaped-NodupKeys s now nodup)) in
    let found : lookup k u.ephemeral ≡ some (ephemeral_entry task_id input_id value created_at) =
      ap (lookup k) entries
      ∙ ground (
        arith,
        lookup-insert k k (ephemeral_entry task_id input_id value created_at) reaped.ephemeral,
      ) in
    let due : lookup k u.ephemeral_deadlines ≡ d =
      ap (lookup k) deadlines ∙ lookup-put_deadline k d reaped.ephemeral_deadlines in
    get_ephemeral_scoped-lookup u task_id input_id later
      (ap (λ c. refused_feature c SecretSourceKind.ephemeral) same ∙ feature)
    ∙ (ap value_of (rw (lookup-reaped u k later distinct, due, found) refl)
        ∙ value_of-entry task_id input_id value created_at (is_due later d))
