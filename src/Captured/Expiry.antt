-- ===== src/Captured/Expiry.antt =====
-- magicvault-core/src/injection.rs: `detect_jwt_expiry`. What base64 decodes and the `exp` that
-- serde_json reads in the claims (`none` for claims that it refuses or that have none) are functions
-- of those crates, which the definition takes.
use Prim.Native.Nat.{◌%◌}
use magic_vault.Base.{
  ℕ, Text, ascii, nat_eq, ◌==◌, ltb, if◌then◌else◌, not, ◌||◌, is_some, List, [], ◌∷◌, ◌++◌, length,
  Option, none, some,
}
use magic_vault.Base.Bytes.{split, strip_prefix}
use magic_vault.Base.Time.{ℤ}
use magic_vault.Json.Scan.{json_bytes_depth_is_bounded}
use magic_vault.Json.Scan.Nodes.{json_bytes_nodes_are_bounded, max_retained_json_depth}

abbrev pub max_jwt_token_bytes : ℕ
max_jwt_token_bytes = 524288

abbrev pub max_jwt_payload_b64_bytes : ℕ
max_jwt_payload_b64_bytes = 262144

abbrev pub max_jwt_claims_nodes : ℕ
max_jwt_claims_nodes = 16384

-- The second of exactly three parts.
abbrev pub payload_part : List Text → Option Text
payload_part (_ ∷ payload ∷ _ ∷ []) = some payload
payload_part _ = none

-- `replace('-', "+").replace('_', "/")`.
unfoldable pub standard_alphabet : Text → Text
unfolding nat_eq
standard_alphabet [] = []
standard_alphabet (c ∷ s) =
    (if c == b'-' then b'+' else if c == b'_' then b'/' else c) ∷ standard_alphabet s

unfoldable pub padded : Text → Text
unfolding nat_eq
padded standard =
    if length standard % 4 == 2
    then standard ++ ascii "=="
    else if length standard % 4 == 3
    then standard ++ ascii "="
    else standard

abbrev pub and_then {ℓ κ} : {A : Type ℓ} {B : Type κ} → Option A → (A → Option B) → Option B
and_then none f = none
and_then (some a) f = f a

module _ (decode : Text → Option Text) (read_exp : Text → Option ℤ) where
  unfoldable pub expiry_of_claims : Text → Option ℤ
  unfolding json_bytes_depth_is_bounded json_bytes_nodes_are_bounded
  expiry_of_claims decoded =
      if ltb max_jwt_payload_b64_bytes (length decoded)
        || (not (json_bytes_depth_is_bounded decoded max_retained_json_depth)
            || not (json_bytes_nodes_are_bounded decoded max_jwt_claims_nodes))
      then none
      else read_exp decoded

  unfoldable pub detect_jwt_expiry : Text → Option ℤ
  unfolding split strip_prefix standard_alphabet padded expiry_of_claims
  detect_jwt_expiry token =
      if ltb max_jwt_token_bytes (length token) || not (is_some (strip_prefix (ascii "eyJ") token))
      then none
      else and_then (payload_part (split b'.' token)) (λ payload.
        if ltb max_jwt_payload_b64_bytes (length payload)
        then none
        else and_then (decode (padded (standard_alphabet payload))) expiry_of_claims)
