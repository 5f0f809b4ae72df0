-- ===== src/Store/Clearing.antt =====
-- magicvault-core/src/store.rs: `clear_ephemeral`.
use magic_vault.Base.{
  ap, ◌∙◌, Text, text_eq, Bool, true, false, not, [], ◌∷◌, ◌≡◌, ◌≢◌, refl, arith,
}
use magic_vault.Base.Map.{Map, lookup, retain, lookup-retain, NodupKeys, contains_key}
use magic_vault.Base.Time.{ℤ}
use magic_vault.OneTime.Entry.{OneTimeEntry}
use magic_vault.OneTime.Scope.{any_live, outside, retire_scope, scope_holds_live}
use magic_vault.Store.Features.{SecretSourceKind, status_for, is_available}
use magic_vault.Store.Vault.{SecretStore, SecretEntry, SecretSource}
use magic_vault.Store.Ephemeral.{
  is_of_task, is_due, ephemeral_entry_expired, holds_plain, ephemeral_scope_holds_user_typed_secret,
  clear_ephemeral,
}

abbrev keeps : Text → Text → SecretEntry → Bool
keeps task_id _ e = not (is_of_task task_id e.source)

holds_plain-retain :
    (s : SecretStore) (task_id : Text) (now : ℤ) (m : Map SecretEntry)
    → holds_plain s task_id now (retain (keeps task_id) m) ≡ false
unfolding holds_plain retain
holds_plain-retain s task_id now [] = refl
holds_plain-retain s task_id now ((k, e) ∷ m) = ground (arith, holds_plain-retain s task_id now m)

any_live-retain :
    (s : Text) (now : ℤ) (m : Map OneTimeEntry) → any_live s now (retain (outside s) m) ≡ false
unfolding any_live retain
any_live-retain s now [] = refl
any_live-retain s now ((k, e) ∷ m) = ground (arith, any_live-retain s now m)

any_live-retain_other :
    (s other : Text) (now : ℤ) (m : Map OneTimeEntry)
    → other ≢ s
    → any_live other now (retain (outside s) m) ≡ any_live other now m
unfolding any_live retain
any_live-retain_other s other now [] d = refl
any_live-retain_other s other now ((k, e) ∷ m) d =
    ground (arith, any_live-retain_other s other now m d)

of_task_unique :
    (s other : Text) (source : SecretSource)
    → other ≢ s
    → is_of_task other source ≡ true
    → is_of_task s source ≡ false
of_task_unique s other SecretSource.provisioned d h = refl
of_task_unique s other (SecretSource.captured _ _ _ _) d h = refl
of_task_unique s other (SecretSource.ephemeral t) d h = ground arith

holds_plain-retain_other :
    (s : SecretStore) (task_id other : Text) (now : ℤ) (m : Map SecretEntry)
    → other ≢ task_id
    → holds_plain s other now (retain (keeps task_id) m) ≡ holds_plain s other now m
unfolding holds_plain retain
holds_plain-retain_other s task_id other now [] d = refl
holds_plain-retain_other s task_id other now ((k, e) ∷ m) d = ground (
  arith,
  holds_plain-retain_other s task_id other now m d,
  of_task_unique task_id other e.source d,
)

-- What is read of the entries depends on the deadlines of their keys only.
holds_plain-same :
    (s u : SecretStore) (scope : Text) (now : ℤ) (m : Map SecretEntry)
    → ((k : Text)
        → contains_key k m ≡ true
        → ephemeral_entry_expired u k now ≡ ephemeral_entry_expired s k now)
    → holds_plain u scope now m ≡ holds_plain s scope now m
unfolding holds_plain lookup
holds_plain-same s u scope now [] same = refl
holds_plain-same s u scope now ((k, e) ∷ m) same =
    let rest = holds_plain-same s u scope now m (λ j h. same j (ground arith)) in
    let head = same k (ground arith) in ground (arith, rest, head)

cleared_deadline :
    (entries : Map SecretEntry) (deadlines : Map ℤ) (k : Text)
    → NodupKeys deadlines
    → contains_key k entries ≡ true
    → lookup k (retain (λ j _. contains_key j entries) deadlines) ≡ lookup k deadlines
cleared_deadline entries deadlines k nodup there =
    ground (arith, lookup-retain (λ (j : Text) (_ : ℤ). contains_key j entries) k deadlines nodup)

-- What a cleared store is made of.
cleared :
    (s : SecretStore) (task_id : Text)
    → is_available (status_for s.capabilities SecretSourceKind.ephemeral) ≡ true
    → let u = (clear_ephemeral s task_id).0 in
      let left = retain (keeps task_id) s.ephemeral in
      (u.ephemeral ≡ left)
      × (u.ephemeral_deadlines ≡ retain (λ k _. contains_key k left) s.ephemeral_deadlines)
      × (u.one_time ≡ (retire_scope s.one_time task_id).0)
unfolding clear_ephemeral
cleared s task_id on = ground arith

cleared-expired :
    (s : SecretStore) (task_id k : Text) (now : ℤ)
    → is_available (status_for s.capabilities SecretSourceKind.ephemeral) ≡ true
    → NodupKeys s.ephemeral_deadlines
    → contains_key k (retain (keeps task_id) s.ephemeral) ≡ true
    → ephemeral_entry_expired (clear_ephemeral s task_id).0 k now ≡ ephemeral_entry_expired s k now
unfolding ephemeral_entry_expired
cleared-expired s task_id k now on nodup there =
    let (_, deadlines, _) = cleared s task_id on in
    ap (λ m. is_due now (lookup k m)) deadlines
    ∙ ap (is_due now)
        (cleared_deadline (retain (keeps task_id) s.ephemeral) s.ephemeral_deadlines k nodup there)

retired-holds :
    (s : SecretStore) (task_id other : Text) (now : ℤ)
    → (scope_holds_live (retire_scope s.one_time task_id).0 task_id now ≡ false)
      × (other ≢ task_id
          → scope_holds_live (retire_scope s.one_time task_id).0 other now
            ≡ scope_holds_live s.one_time other now)
unfolding scope_holds_live retire_scope
retired-holds s task_id other now = (
  any_live-retain task_id now s.one_time.entries,
  any_live-retain_other task_id other now s.one_time.entries,
)

-- Where the run-scoped partition is enabled and no key has two deadlines: after a scope is
-- cleared it holds no secret, neither a plain nor a one-time one, at any time; another scope
-- holds one exactly when it did before.
pub clear_ephemeral-holds :
    (s : SecretStore) (task_id other : Text) (now : ℤ)
    → is_available (status_for s.capabilities SecretSourceKind.ephemeral) ≡ true
    → NodupKeys s.ephemeral_deadlines
    → other ≢ task_id
    → let u = (clear_ephemeral s task_id).0 in
      (ephemeral_scope_holds_user_typed_secret u task_id now ≡ false)
      × (ephemeral_scope_holds_user_typed_secret u other now
          ≡ ephemeral_scope_holds_user_typed_secret s other now)
unfolding ephemeral_scope_holds_user_typed_secret
clear_ephemeral-holds s task_id other now on nodup d =
    let u = (clear_ephemeral s task_id).0 in
    let left = retain (keeps task_id) s.ephemeral in
    let (entries, _, codes) = cleared s task_id on in
    let (none_live, others_live) = retired-holds s task_id other now in
    (
      rw (entries, codes, holds_plain-retain u task_id now s.ephemeral, none_live) refl,
      rw
          (
            entries,
            codes,
            others_live d,
            holds_plain-same s u other now left (λ k. cleared-expired s task_id k now on nodup),
            holds_plain-retain_other s task_id other now s.ephemeral d,
          )
          refl,
    )
