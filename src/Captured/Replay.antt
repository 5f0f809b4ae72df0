-- ===== src/Captured/Replay.antt =====
-- magicvault-core/src/store.rs: `get_session`. What `url::Url` parses and the time are arguments.
use magic_vault.Base.{
  ℕ, Text, text_eq, ◌==◌, Option, none, some, if◌then◌else◌, List, [], ◌∷◌, is_empty,
}
use magic_vault.Base.Map.{Map, lookup}
use magic_vault.Base.Time.{ℤ}
use magic_vault.Store.Vault.{SecretEntry, captured}
use magic_vault.Captured.Cookies.{CookieWithMetadata, Url, filter_cookies_for_url}
use magic_vault.Captured.Fields.{
  extract_captured_headers, extract_captured_query_params, extract_captured_cookies,
  extract_captured_local_storage, extract_captured_session_storage, merge_captured_cookies,
}
use magic_vault.Captured.Session.{
  SessionContext, CapturedSessionLease, empty_lease, push_target, build_session_cookies,
}
use magic_vault.Captured.Partition.{CapturedPartition, captured_feature}

-- The generation of a capture that is not stale.
unfoldable pub fresh_generation : SecretEntry → Option ℕ
fresh_generation e = elim e.source [
  | captured _ generation stale _ ↦ if stale then none else some generation
  | _ ↦ none
]

unfoldable pub entry_cookies : Url → ℤ → SecretEntry → List CookieWithMetadata
unfolding extract_captured_cookies filter_cookies_for_url
entry_cookies url now e = filter_cookies_for_url (extract_captured_cookies e) url now

-- The cookies and the lease of a session so far.
abbrev pub Gathered : Type 0
Gathered = List CookieWithMetadata × CapturedSessionLease

-- A round of the loop over the captures.
unfoldable pub gather : Text → Url → ℤ → Text × SecretEntry → Gathered → Gathered
unfolding fresh_generation entry_cookies push_target merge_captured_cookies text_eq
gather origin url now (candidate_origin, e) (cookies, lease) =
    if candidate_origin == origin then (cookies, lease) else elim (fresh_generation e) [
      | none ↦ (cookies, lease)
      | some generation ↦ if is_empty (entry_cookies url now e) then (cookies, lease) else (
        merge_captured_cookies cookies (entry_cookies url now e),
        push_target lease candidate_origin generation,
      )
    ]

unfoldable pub gather_all : Text → Url → ℤ → Map SecretEntry → Gathered → Gathered
unfolding gather
gather_all origin url now [] g = g
gather_all origin url now (e ∷ es) g = gather_all origin url now es (gather origin url now e g)

unfoldable pub session_context : Option SecretEntry → List CookieWithMetadata → SessionContext
unfolding build_session_cookies extract_captured_headers extract_captured_query_params
session_context none cookies = record {
  cookie_metadata = cookies;
  cookie_header_values = (build_session_cookies cookies).0;
  cookies = (build_session_cookies cookies).1;
  auth_headers = [];
  auth_query_params = [];
  local_storage = [];
  session_storage = [];
}
session_context (some e) cookies = record {
  cookie_metadata = cookies;
  cookie_header_values = (build_session_cookies cookies).0;
  cookies = (build_session_cookies cookies).1;
  auth_headers = extract_captured_headers e;
  auth_query_params = extract_captured_query_params e;
  local_storage = extract_captured_local_storage e;
  session_storage = extract_captured_session_storage e;
}

-- The session with the entry of the origin, after the loop.
unfoldable pub assembled :
    Option SecretEntry → Gathered → Option (SessionContext × CapturedSessionLease)
unfolding session_context
assembled none (cookies, lease) =
    if is_empty cookies then none else some (session_context none cookies, lease)
assembled (some e) (cookies, lease) = some (session_context (some e) cookies, lease)

unfoldable pub get_session :
    CapturedPartition → Text → Option Url → ℤ → Option (SessionContext × CapturedSessionLease)
unfolding captured_feature lookup fresh_generation entry_cookies gather_all push_target assembled
get_session p origin none now = none
get_session p origin (some url) now = elim (captured_feature p) [
  | some _ ↦ none
  | none ↦ elim (lookup origin p.captured) [
    | none ↦ assembled none (gather_all origin url now p.captured ([], empty_lease))
    | some e ↦ elim (fresh_generation e) [
      | none ↦ none
      | some generation ↦ assembled (some e) (
          gather_all origin url now p.captured
            (entry_cookies url now e, push_target empty_lease origin generation))
    ]
  ]
]
