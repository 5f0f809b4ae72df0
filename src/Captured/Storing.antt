-- ===== src/Captured/Storing.antt =====
-- magicvault-core/src/store.rs: what a capture stores. The expiry that `detect_jwt_expiry` reads in a
-- token is a function that the operations take.
use magic_vault.Base.{ℕ, Text, ascii, true, false, Option, none, some, List, [], ◌∷◌, ◌++◌, text_eq}
use magic_vault.Base.Bytes.{strip_prefix}
use magic_vault.Base.Map.{Map, lookup, insert, values}
use magic_vault.Base.Time.{ℤ, min_ℤ}
use magic_vault.Secrets.{InjectionTarget}
use magic_vault.OneTime.Table.{next_u64}
use magic_vault.Store.Vault.{SecretEntry, SecretSource, captured}
use magic_vault.Captured.Cookies.{CookieWithMetadata}
use magic_vault.Captured.Fields.{
  extract_captured_headers, extract_captured_query_params, extract_captured_cookies,
  extract_captured_local_storage, extract_captured_session_storage, merge_captured_headers,
  merge_named_values, merge_captured_cookies, flatten_captured_fields, cookies_to_specs,
}
use magic_vault.Captured.Partition.{
  DiskWrite, CapturedPartition, CapturedError, refused, captured_feature, persist_captured,
  evict_captured_if_needed,
}

unfoldable pub captured_generation : SecretEntry → Option ℕ
captured_generation e = elim e.source [ captured _ generation _ _ ↦ some generation | _ ↦ none ]

abbrev pub or_zero : Option ℕ → ℕ
or_zero none = 0
or_zero (some n) = n

unfoldable pub next_generation : Option SecretEntry → ℕ
unfolding captured_generation next_u64
next_generation none = 1
next_generation (some e) = next_u64 (or_zero (captured_generation e))

-- What a capture holds, and what is kept of an origin.
pub record Capture : Type 0 where
  pub headers : Map Text
  pub auth_query_params : Map Text
  pub cookies : List CookieWithMetadata
  pub local_storage : Map Text
  pub session_storage : Map Text

unfoldable pub existing_capture : Option SecretEntry → Capture
unfolding extract_captured_headers extract_captured_query_params extract_captured_cookies
existing_capture none = record {
  headers = [];
  auth_query_params = [];
  cookies = [];
  local_storage = [];
  session_storage = [];
}
existing_capture (some e) = record {
  headers = extract_captured_headers e;
  auth_query_params = extract_captured_query_params e;
  cookies = extract_captured_cookies e;
  local_storage = extract_captured_local_storage e;
  session_storage = extract_captured_session_storage e;
}

unfoldable pub merged : Capture → Capture → Capture
unfolding merge_captured_headers merge_named_values merge_captured_cookies
merged existing incoming = record {
  headers = merge_captured_headers existing.headers incoming.headers;
  auth_query_params = merge_named_values existing.auth_query_params incoming.auth_query_params;
  cookies = merge_captured_cookies existing.cookies incoming.cookies;
  local_storage = merge_named_values existing.local_storage incoming.local_storage;
  session_storage = merge_named_values existing.session_storage incoming.session_storage;
}

abbrev pub unwrap_or : Map Text → Option (Map Text) → Map Text
unwrap_or d none = d
unwrap_or d (some m) = m

-- A snapshot of the browser: its cookies replace those kept, its storage where it is given.
unfoldable pub browser_state :
    Capture → List CookieWithMetadata → Option (Map Text) → Option (Map Text) → Capture
unfolding merge_captured_cookies
browser_state existing cookies local_storage_tokens session_storage_tokens = record existing {
  cookies = merge_captured_cookies [] cookies;
  local_storage = unwrap_or existing.local_storage local_storage_tokens;
  session_storage = unwrap_or existing.session_storage session_storage_tokens;
}

-- `value.strip_prefix("Bearer ").unwrap_or(value)`.
unfoldable pub bearer_token : Text → Text
unfolding strip_prefix
bearer_token value = elim (strip_prefix (ascii "Bearer ") value) [ some t ↦ t | none ↦ value ]

module _ (detect_jwt_expiry : Text → Option ℤ) where
  -- `filter_map` of the expiry and `min`.
  unfoldable pub earliest_expiry : List Text → Option ℤ
  unfolding bearer_token min_ℤ
  earliest_expiry [] = none
  earliest_expiry (v ∷ vs) =
      let rest = earliest_expiry vs in
      elim (detect_jwt_expiry (bearer_token v)) [
        | none ↦ rest
        | some t ↦ elim rest [ none ↦ some t | some u ↦ some (min_ℤ t u) ]
      ]

  unfoldable pub expires_hint : Capture → Option ℤ
  unfolding values earliest_expiry
  expires_hint c = earliest_expiry (
      values c.headers
      ++ (values c.auth_query_params ++ (values c.local_storage ++ values c.session_storage)))

  unfoldable pub captured_entry : Text → ℕ → Capture → ℤ → SecretEntry
  unfolding flatten_captured_fields cookies_to_specs expires_hint
  captured_entry origin generation c created_at = record {
    id = origin;
    label = origin;
    fields =
        flatten_captured_fields c.headers c.auth_query_params c.cookies c.local_storage
          c.session_storage;
    source = SecretSource.captured origin generation false (expires_hint c);
    injection = InjectionTarget.cookies (cookies_to_specs c.cookies);
    policy = none;
    created_at = created_at;
  }

  -- The insertion and the eviction under the write lock, and the dirty flag.
  unfoldable pub put_captured : CapturedPartition → Text → Capture → ℤ → CapturedPartition
  unfolding captured_entry insert evict_captured_if_needed lookup next_generation
  put_captured p origin c now = record p {
    captured = evict_captured_if_needed p.captured_max_origins (
        insert origin (captured_entry origin (next_generation (lookup origin p.captured)) c now)
          p.captured);
    captured_dirty = true;
  }

  unfoldable pub store_captured_inner :
      CapturedPartition → Text → Capture → ℤ → CapturedPartition × Option CapturedError
  unfolding captured_feature existing_capture merged put_captured lookup
  store_captured_inner p origin incoming now = elim (captured_feature p) [
    | some e ↦ (p, some (refused e))
    | none ↦ (
      put_captured p origin (merged (existing_capture (lookup origin p.captured)) incoming) now,
      none,
    )
  ]

  unfoldable pub store_captured :
      CapturedPartition
      → Text
      → Map Text
      → List CookieWithMetadata
      → Map Text
      → Map Text
      → ℤ
      → DiskWrite
      → CapturedPartition × Option CapturedError
  unfolding store_captured_inner persist_captured
  store_captured p origin headers cookies local session now outcome =
      let incoming : Capture = record {
        headers = headers;
        auth_query_params = [];
        cookies = cookies;
        local_storage = local;
        session_storage = session;
      } in
      let stored = store_captured_inner p origin incoming now in
      elim (stored.1) [ some e ↦ (stored.0, some e) | none ↦ persist_captured (stored.0) outcome ]

  unfoldable pub store_captured_deferred :
      CapturedPartition
      → Text
      → Map Text
      → List CookieWithMetadata
      → Map Text
      → Map Text
      → ℤ
      → CapturedPartition × Option CapturedError
  unfolding store_captured_inner
  store_captured_deferred p origin headers cookies local session now =
      store_captured_inner p origin
        (record {
          headers = headers;
          auth_query_params = [];
          cookies = cookies;
          local_storage = local;
          session_storage = session;
        })
        now

  unfoldable pub store_captured_deferred_with_query_params :
      CapturedPartition
      → Text
      → Map Text
      → Map Text
      → List CookieWithMetadata
      → Map Text
      → Map Text
      → ℤ
      → CapturedPartition × Option CapturedError
  unfolding store_captured_inner
  store_captured_deferred_with_query_params p origin headers auth_query_params cookies local session
        now =
      store_captured_inner p origin
        (record {
          headers = headers;
          auth_query_params = auth_query_params;
          cookies = cookies;
          local_storage = local;
          session_storage = session;
        })
        now

  unfoldable pub store_captured_browser_state_deferred :
      CapturedPartition
      → Text
      → List CookieWithMetadata
      → Option (Map Text)
      → Option (Map Text)
      → ℤ
      → CapturedPartition × Option CapturedError
  unfolding captured_feature existing_capture browser_state put_captured lookup
  store_captured_browser_state_deferred p origin cookies local session now =
      elim (captured_feature p) [
        | some e ↦ (p, some (refused e))
        | none ↦ (
          put_captured p origin
              (browser_state (existing_capture (lookup origin p.captured)) cookies local session)
              now,
          none,
        )
      ]
