-- ===== src/Policy/Grants.antt =====
-- magicvault-core/src/policy.rs: `GrantTable` and the redemption of single-use grants. A method is one
-- step under the table's lock; the clock reading is `now`, the id of `Uuid::new_v4` is `fresh`.
use magic_vault.Base.{
  ℕ, Text, text_eq, ◌==◌, Bool, false, ◌||◌, not, Option, none, some, List, [], ◌∷◌, ◌++◌,
  if◌then◌else◌, ascii, is_empty, length, ltb, Result, ok, err,
}
use magic_vault.Base.Bytes.{any_of, take}
use magic_vault.Base.Map.{Map, lookup, insert, remove, retain}
use magic_vault.Base.Time.{ℤ, add_i64, ltb_ℤ, leb_ℤ}
use magic_vault.Secrets.{InjectionTarget}
use magic_vault.Policy.Domains.{RequestedDomains, from_legacy}
use magic_vault.Policy.Requests.{
  GrantBinding, DelegatedGrantAuthority, matches_secret_exact, matches_delegated,
  matches_delegated_domains,
}

pub record RedemptionPayload : Type 0 where
  pub secret_id : Text
  pub fields : Map Text
  pub target : InjectionTarget
  pub binding : GrantBinding

-- The text that `with_canonical_value` hands to its consumer.
unfoldable pub canonical_value : RedemptionPayload → Option Text
canonical_value p = elim p.fields [
  | [] ↦ none
  | (f ∷ more) ↦ if is_empty more then lookup (ascii "value") p.fields else none
]

pub record GrantRecord : Type 0 where
  pub payload : RedemptionPayload
  pub expires_at : ℤ

abbrev pub GrantTable : Type 0
GrantTable = Map GrantRecord

abbrev pub max_atomic_grant_redemptions : ℕ
max_atomic_grant_redemptions = 64

pub data GrantBindingExpectation : Type 0 where
  secret : Text → Text → Option Text → GrantBindingExpectation
  delegated_to : Text → Text → Option Text → DelegatedGrantAuthority → GrantBindingExpectation
  secret_scoped : Text → Text → RequestedDomains → GrantBindingExpectation
  delegated_scoped :
      Text → Text → RequestedDomains → DelegatedGrantAuthority → GrantBindingExpectation

pub record BoundGrantRedemption : Type 0 where
  pub token : Text
  pub expected : GrantBindingExpectation

pub data BoundGrantRedemptionError : Type 0 where
  empty_batch batch_too_large duplicate_token expired : BoundGrantRedemptionError
  missing_or_already_redeemed binding_mismatch internal : BoundGrantRedemptionError

abbrev pub live_grant : ℤ → Text → GrantRecord → Bool
live_grant now _ r = ltb_ℤ now r.expires_at

unfoldable pub reap_expired : GrantTable → ℤ → GrantTable
reap_expired t now = retain (live_grant now) t

unfoldable pub issue_grant :
    GrantTable
    → Text
    → Map Text
    → InjectionTarget
    → GrantBinding
    → ℤ
    → Text
    → ℤ
    → ℤ
    → GrantTable × Text
unfolding reap_expired
issue_grant t secret_id fields target binding ttl_secs fresh now later = (
  insert fresh
      (record {
        payload = record {
          secret_id = secret_id;
          fields = fields;
          target = target;
          binding = binding;
        };
        expires_at = add_i64 later ttl_secs;
      })
      (reap_expired t now),
  fresh,
)

abbrev pub payload_of : Option GrantRecord → Option RedemptionPayload
payload_of none = none
payload_of (some r) = some r.payload

unfoldable pub redeem_grant : GrantTable → Text → ℤ → GrantTable × Option RedemptionPayload
unfolding reap_expired
redeem_grant t grant_id now =
    let reaped = reap_expired t now in (remove grant_id reaped, payload_of (lookup grant_id reaped))

unfoldable pub is_expected : GrantBinding → GrantBindingExpectation → Bool
is_expected b (secret tool action domain) = matches_secret_exact b tool action (from_legacy domain)
is_expected b (delegated_to tool action domain authority) =
    matches_delegated b tool action domain authority
is_expected b (secret_scoped tool action domains) = matches_secret_exact b tool action domains
is_expected b (delegated_scoped tool action domains authority) =
    matches_delegated_domains b tool action domains authority

-- Whether some token comes twice: `any(|request| !unique_tokens.insert(request.token))`.
unfoldable pub has_duplicate : List BoundGrantRedemption → Bool
unfolding any_of
has_duplicate [] = false
has_duplicate (r ∷ rs) = any_of (λ other. other.token == r.token) rs || has_duplicate rs

-- The loop that looks at every request before any is taken: the table, which an expired grant reaps,
-- and the error that ended the loop.
unfoldable pub validate :
    GrantTable → List BoundGrantRedemption → ℤ → GrantTable × Option BoundGrantRedemptionError
validate t [] now = (t, none)
validate t (r ∷ rs) now =
    let rest = validate t rs now in
    elim (lookup r.token t) [
      | none ↦ (t, some missing_or_already_redeemed)
      | some g ↦
          if leb_ℤ g.expires_at now
          then (retain (live_grant now) t, some expired)
          else if not (is_expected g.payload.binding r.expected)
          then (t, some binding_mismatch)
          else rest
    ]

-- The grants that were taken go back.
unfoldable pub put_back : List (Text × GrantRecord) → GrantTable → GrantTable
put_back [] t = t
put_back ((token, g) ∷ removed) t = put_back removed (insert token g t)

unfoldable pub payloads : List (Text × GrantRecord) → List RedemptionPayload
payloads [] = []
payloads ((_, g) ∷ removed) = g.payload ∷ payloads removed

-- The loop that takes the grants, with those taken so far.
unfoldable pub take_grants :
    GrantTable
    → List BoundGrantRedemption
    → List (Text × GrantRecord)
    → GrantTable × Result (List RedemptionPayload) BoundGrantRedemptionError
take_grants t [] removed = (t, ok (payloads removed))
take_grants t (r ∷ rs) removed = elim (lookup r.token t) [
  | none ↦ (put_back removed t, err internal)
  | some g ↦ take_grants (remove r.token t) rs (removed ++ ((r.token, g) ∷ []))
]

unfoldable pub redeem_bound_batch :
    GrantTable
    → List BoundGrantRedemption
    → ℤ
    → GrantTable × Result (List RedemptionPayload) BoundGrantRedemptionError
redeem_bound_batch t requests now =
    if is_empty requests
    then (t, err empty_batch)
    else if ltb max_atomic_grant_redemptions (length requests)
    then (t, err batch_too_large)
    else if has_duplicate requests
    then (t, err duplicate_token)
    else let (checked, failure) = validate t requests now in
      elim failure [ some e ↦ (checked, err e) | none ↦ take_grants checked requests [] ]

unfoldable pub remove_all : List Text → GrantTable → GrantTable
remove_all [] t = t
remove_all (id ∷ ids) t = remove_all ids (remove id t)

unfoldable pub discard_grants : GrantTable → List Text → GrantTable
unfolding remove_all
discard_grants t grant_ids = remove_all (take max_atomic_grant_redemptions grant_ids) t
