-- ===== src/Captured/Fields.antt =====
-- magicvault-core/src/store.rs: how a captured session is kept in the fields of an entry, and how
-- two captures of one origin are merged.
use magic_vault.Base.{
  ℕ, suc, Text, ascii, nat_eq, text_eq, ◌==◌, if◌then◌else◌, Bool, ◌&&◌, List, [], ◌∷◌, ◌++◌,
  Option, none, some,
}
use magic_vault.Base.Bytes.{strip_prefix, to_ascii_lowercase}
use magic_vault.Base.Map.{Map, lookup, insert, remove}
use magic_vault.Secrets.{SameSite, CookieSpec, cookies}
use magic_vault.Store.Vault.{SecretEntry}
use magic_vault.Captured.Cookies.{CookieWithMetadata}
use magic_vault.Base.Decimal.{decimal}

-- `HashMap::extend`, and `collect` into an empty map.
unfoldable pub extend : Map Text → Map Text → Map Text
unfolding insert
extend m [] = m
extend m ((k, v) ∷ rest) = extend (insert k v m) rest

unfoldable pub extract_prefixed_fields : Text → Map Text → Map Text
unfolding strip_prefix insert
extract_prefixed_fields prefix [] = []
extract_prefixed_fields prefix ((k, v) ∷ fields) =
    let rest = extract_prefixed_fields prefix fields in
    elim (strip_prefix prefix k) [ some stripped ↦ insert stripped v rest | none ↦ rest ]

abbrev pub header_prefix : Text
header_prefix = ascii "header:"

abbrev pub query_param_prefix : Text
query_param_prefix = ascii "query_param:"

abbrev pub local_storage_prefix : Text
local_storage_prefix = ascii "local_storage:"

abbrev pub session_storage_prefix : Text
session_storage_prefix = ascii "session_storage:"

abbrev pub cookie_prefix : Text
cookie_prefix = ascii "cookie:"

unfoldable pub extract_captured_headers : SecretEntry → Map Text
unfolding extract_prefixed_fields
extract_captured_headers e = extract_prefixed_fields header_prefix e.fields

unfoldable pub extract_captured_query_params : SecretEntry → Map Text
unfolding extract_prefixed_fields
extract_captured_query_params e = extract_prefixed_fields query_param_prefix e.fields

unfoldable pub extract_captured_local_storage : SecretEntry → Map Text
unfolding extract_prefixed_fields
extract_captured_local_storage e = extract_prefixed_fields local_storage_prefix e.fields

unfoldable pub extract_captured_session_storage : SecretEntry → Map Text
unfolding extract_prefixed_fields
extract_captured_session_storage e = extract_prefixed_fields session_storage_prefix e.fields

-- `format!("cookie:{index}:{name}")`.
unfoldable pub cookie_key : ℕ → Text → Text
unfolding decimal
cookie_key index name = cookie_prefix ++ (decimal index ++ (b':' ∷ name))

unfoldable pub cookie_field_value : Map Text → ℕ → Text → Option Text
unfolding lookup cookie_key
cookie_field_value fields index name = lookup (cookie_key index name) fields

abbrev pub or_lax : Option SameSite → SameSite
or_lax none = SameSite.lax
or_lax (some s) = s

unfoldable pub cookies_from : Map Text → ℕ → List CookieSpec → List CookieWithMetadata
unfolding cookie_field_value
cookies_from fields index [] = []
cookies_from fields index (spec ∷ specs) =
    let rest = cookies_from fields (suc index) specs in
    elim (cookie_field_value fields index spec.name) [
      | none ↦ rest
      | some value ↦
          record {
            name = spec.name;
            value = value;
            domain = spec.domain;
            path = spec.path;
            secure = spec.secure;
            http_only = spec.http_only;
            same_site = or_lax spec.same_site;
            expires = spec.expires;
          }
          ∷ rest
    ]

unfoldable pub extract_captured_cookies : SecretEntry → List CookieWithMetadata
unfolding cookies_from
extract_captured_cookies e = elim e.injection [
  | cookies specs ↦ cookies_from e.fields 0 specs
  | _ ↦ []
]

-- `fields.insert(format!("{prefix}{name}"), value.clone())` for each entry.
unfoldable pub insert_prefixed : Text → Map Text → Map Text → Map Text
unfolding insert
insert_prefixed prefix [] fields = fields
insert_prefixed prefix ((name, value) ∷ rest) fields =
    insert_prefixed prefix rest (insert (prefix ++ name) value fields)

unfoldable pub insert_cookies : ℕ → List CookieWithMetadata → Map Text → Map Text
unfolding insert cookie_key
insert_cookies index [] fields = fields
insert_cookies index (c ∷ cs) fields =
    insert_cookies (suc index) cs (insert (cookie_key index c.name) c.value fields)

unfoldable pub flatten_captured_fields :
    Map Text → Map Text → List CookieWithMetadata → Map Text → Map Text → Map Text
unfolding insert_prefixed insert_cookies
flatten_captured_fields headers auth_query_params session_cookies local session =
    insert_prefixed session_storage_prefix session (
      insert_prefixed local_storage_prefix local (
        insert_cookies 0 session_cookies (
          insert_prefixed query_param_prefix auth_query_params
            (insert_prefixed header_prefix headers []))))

-- `existing.keys().find(|k| k.eq_ignore_ascii_case(key))`.
unfoldable pub find_ignoring_case : Text → Map Text → Option Text
unfolding to_ascii_lowercase text_eq
find_ignoring_case key [] = none
find_ignoring_case key ((k, _) ∷ m) =
    let rest = find_ignoring_case key m in
    if to_ascii_lowercase k == to_ascii_lowercase key then some k else rest

unfoldable pub merge_captured_headers : Map Text → Map Text → Map Text
unfolding insert remove find_ignoring_case
merge_captured_headers existing [] = existing
merge_captured_headers existing ((key, value) ∷ incoming) =
    merge_captured_headers
      (elim (find_ignoring_case key existing) [
        | some existing_key ↦ insert key value (remove existing_key existing)
        | none ↦ insert key value existing
      ])
      incoming

abbrev pub same_cookie : CookieWithMetadata → CookieWithMetadata → Bool
same_cookie c d = c.name == d.name && (c.domain == d.domain && c.path == d.path)

-- The first cookie of the same name, domain and path is replaced, or the cookie is pushed.
unfoldable pub put_cookie : CookieWithMetadata → List CookieWithMetadata → List CookieWithMetadata
unfolding text_eq
put_cookie c [] = c ∷ []
put_cookie c (d ∷ ds) = let rest = put_cookie c ds in if same_cookie d c then c ∷ ds else d ∷ rest

unfoldable pub merge_captured_cookies :
    List CookieWithMetadata → List CookieWithMetadata → List CookieWithMetadata
unfolding put_cookie
merge_captured_cookies existing [] = existing
merge_captured_cookies existing (c ∷ incoming) =
    merge_captured_cookies (put_cookie c existing) incoming

unfoldable pub merge_named_values : Map Text → Map Text → Map Text
unfolding extend
merge_named_values existing incoming = extend existing incoming

unfoldable pub cookies_to_specs : List CookieWithMetadata → List CookieSpec
cookies_to_specs [] = []
cookies_to_specs (c ∷ cs) =
    record {
      name = c.name;
      domain = c.domain;
      path = c.path;
      secure = c.secure;
      http_only = c.http_only;
      same_site = some c.same_site;
      expires = c.expires;
    }
    ∷ cookies_to_specs cs
