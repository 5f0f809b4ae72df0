-- ===== src/Tests/Sessions.antt =====
-- Captures of store.rs and their sessions at one origin.
use native.Mathlib.Decide.{ℕ_discrete}
use magic_vault.Base.{
  ◌≤◌, ◌≡◌, refl, Text, ascii, nat_eq, text_eq, ◌==◌, if◌then◌else◌, true, false, [], ◌∷◌, length,
  Option, some, none,
}
use magic_vault.Base.Bytes.{
  any_of, split, strip_prefix, to_ascii_lowercase, ends_with, ends_with_byte, lower_byte,
}
use magic_vault.Base.Decimal.{decimal, digits_of}
use magic_vault.Base.Map.{Map, lookup, insert, remove}
use magic_vault.Base.Time.{ℤ, pos, ltb_ℤ, ◌≤ℤ◌}
use magic_vault.Secrets.{SameSite, InjectionTarget}
use magic_vault.Store.Features.{fully_available, refused_feature}
use magic_vault.Store.Vault.{SecretEntry, SecretSource}
use magic_vault.Captured.Cookies.{
  CookieWithMetadata, Url, filter_cookies_for_url, is_applicable, applicable, sort_cookies,
  insert_cookie, cookie_domain_matches_host, cookie_path_matches_request, trim_start, trim_end,
  trim_end_matches, is_blank,
}
use magic_vault.Captured.Fields.{
  extract_captured_headers, extract_captured_query_params, extract_captured_cookies,
  extract_captured_local_storage, extract_captured_session_storage, extract_prefixed_fields,
  cookies_from, cookie_field_value, cookie_key, cookies_to_specs, merge_captured_cookies,
}
use magic_vault.Captured.Session.{
  SessionContext, CapturedSessionLease, push_target, build_session_cookies, index_cookies,
  header_values,
}
use magic_vault.Captured.Partition.{
  DiskWrite, CapturedPartition, captured_feature, evict_captured_if_needed, evict, oldest, older_of,
  flush_captured, persist_captured,
}
use magic_vault.Captured.Storing.{Capture, put_captured}
use magic_vault.Captured.Leases.{mark_stale_lease, mark_lease, mark_targets, mark_target, marked}
use magic_vault.Captured.Replay.{
  get_session, fresh_generation, entry_cookies, gather, gather_all, assembled, session_context,
}
use magic_vault.Captured.Expiry.{detect_jwt_expiry, expiry_of_claims, standard_alphabet, padded}
use magic_vault.Json.Scan.{json_bytes_depth_is_bounded, depth_step, scan}
use magic_vault.Json.Scan.Nodes.{json_bytes_nodes_are_bounded, node_step, structural, admit_value}
use magic_vault.Json.Buffers.{saturating_add}
use magic_vault.Captured.Publication.{CapturedStep, idle, then_step, CapturedSteps-flush}
use magic_vault.Captured.Stale.{get_session-mark_stale_lease}
use magic_vault.Captured.Kept.{existing_capture-captured_entry, recaptured, EntryOf}
use magic_vault.Captured.Eviction.{evict_captured_if_needed-order, put_captured-IsWithin}

abbrev no_expiry : Text → Option ℤ
no_expiry _ = none

abbrev cookie : CookieWithMetadata
cookie = record {
  name = ascii "s";
  value = ascii "v";
  domain = ascii ".a.b";
  path = ascii "/";
  secure = true;
  http_only = true;
  same_site = SameSite.lax;
  expires = some (pos 100);
}

abbrev page : Url
page = record { host = ascii "x.a.b"; path = ascii "/p"; is_secure = true }

abbrev capture : Capture
capture = record {
  headers = (ascii "h", ascii "t") ∷ [];
  auth_query_params = [];
  cookies = cookie ∷ [];
  local_storage = [];
  session_storage = (ascii "k", ascii "w") ∷ [];
}

abbrev entry : SecretEntry
entry = record {
  id = ascii "o";
  label = ascii "o";
  fields =
      (ascii "header:h", ascii "t")
      ∷ (ascii "cookie:0:s", ascii "v")
      ∷ (ascii "session_storage:k", ascii "w")
      ∷ [];
  source = SecretSource.captured (ascii "o") 1 false none;
  injection = InjectionTarget.cookies (cookies_to_specs (cookie ∷ []));
  policy = none;
  created_at = pos 5;
}

abbrev older : SecretEntry
older = record entry { created_at = pos 3 }

abbrev partition : CapturedPartition
partition = record {
  capabilities = fully_available (ascii "memory");
  captured_max_origins = 2;
  captured = (ascii "o", entry) ∷ [];
  captured_file = (ascii "o", entry) ∷ [];
  captured_dirty = false;
  flush_in_flight = false;
}

abbrev context : SessionContext
context = record {
  cookie_metadata = cookie ∷ [];
  cookie_header_values = record { name = ascii "s"; value = ascii "v" } ∷ [];
  cookies = (ascii "s", ascii "v") ∷ [];
  auth_headers = (ascii "h", ascii "t") ∷ [];
  auth_query_params = [];
  local_storage = [];
  session_storage = (ascii "k", ascii "w") ∷ [];
}

abbrev lease : CapturedSessionLease
lease = record { stale_mark_targets = record { origin = ascii "o"; generation = 1 } ∷ [] }

applicable_example : is_applicable page (pos 7) cookie ≡ true
unfolding is_applicable cookie_domain_matches_host cookie_path_matches_request ltb_ℤ text_eq nat_eq
    strip_prefix ends_with ends_with_byte to_ascii_lowercase lower_byte trim_start trim_end
    trim_end_matches is_blank ℕ_discrete
applicable_example = refl

found : get_session partition (ascii "o") (some page) (pos 7) ≡ some (context, lease)
unfolding get_session captured_feature refused_feature lookup fresh_generation entry_cookies
    gather_all gather push_target any_of assembled session_context build_session_cookies
    index_cookies header_values insert extract_captured_headers extract_captured_query_params
    extract_captured_cookies extract_captured_local_storage extract_captured_session_storage
    extract_prefixed_fields cookies_from cookie_field_value cookie_key decimal digits_of
    cookies_to_specs filter_cookies_for_url applicable sort_cookies insert_cookie
    merge_captured_cookies is_applicable cookie_domain_matches_host cookie_path_matches_request
    ltb_ℤ text_eq nat_eq strip_prefix ends_with ends_with_byte to_ascii_lowercase lower_byte
    trim_start trim_end trim_end_matches is_blank ℕ_discrete
found = refl

get_session-mark_stale_lease_example :
    get_session (mark_stale_lease partition lease DiskWrite.kept).0 (ascii "o") (some page) (pos 8)
    ≡ none
unfolding lookup text_eq ℕ_discrete
get_session-mark_stale_lease_example =
    get_session-mark_stale_lease partition (ascii "o") page (pos 7) entry context lease
      DiskWrite.kept (some page) (pos 8) refl found

-- The mark is not published, and the flush that follows is.
CapturedSteps-flush_example :
    (flush_captured
      (mark_stale_lease partition lease DiskWrite.kept).0
      DiskWrite.replaced).0.captured_file
    ≡ (mark_stale_lease partition lease DiskWrite.kept).0.captured
unfolding mark_stale_lease mark_lease mark_targets mark_target marked insert lookup persist_captured
    captured_feature refused_feature text_eq nat_eq ℕ_discrete
CapturedSteps-flush_example =
    CapturedSteps-flush no_expiry partition (mark_stale_lease partition lease DiskWrite.kept).0
      (λ _. refl) (then_step idle (CapturedStep.marks true partition lease DiskWrite.kept)) refl
      refl

existing_capture-captured_entry_example :
    ((recaptured no_expiry (ascii "o") 1 capture (pos 5)).cookies ≡ cookie ∷ [])
    × (EntryOf
          (ascii "k")
          (recaptured no_expiry (ascii "o") 1 capture (pos 5)).headers
          capture.headers
        × (EntryOf
              (ascii "k")
              (recaptured no_expiry (ascii "o") 1 capture (pos 5)).auth_query_params
              []
            × (EntryOf
                  (ascii "k")
                  (recaptured no_expiry (ascii "o") 1 capture (pos 5)).local_storage
                  []
                × EntryOf
                    (ascii "k")
                    (recaptured no_expiry (ascii "o") 1 capture (pos 5)).session_storage
                    capture.session_storage)))
unfolding lookup
existing_capture-captured_entry_example =
    existing_capture-captured_entry no_expiry (ascii "o") 1 capture (pos 5) (ascii "k") (refl, tt)
      tt tt (refl, tt)

abbrev two_captures : Map SecretEntry
two_captures = (ascii "o", entry) ∷ (ascii "p", older) ∷ []

evict_captured_if_needed-order_example : older.created_at ≤ℤ entry.created_at
unfolding evict_captured_if_needed evict oldest older_of ltb_ℤ lookup remove text_eq ℕ_discrete
evict_captured_if_needed-order_example =
    evict_captured_if_needed-order 1 two_captures (ascii "p") (ascii "o") older entry
      (refl, (refl, tt)) refl refl refl

put_captured-IsWithin_example :
    length
      (put_captured no_expiry
        (record partition { captured_max_origins = 1 })
        (ascii "p")
        capture
        (pos 9)).captured
    ≤ 1
put_captured-IsWithin_example =
    put_captured-IsWithin no_expiry (record partition { captured_max_origins = 1 }) (ascii "p")
      capture (pos 9)

-- A token whose payload decodes to an empty object.
abbrev decode_empty : Text → Option Text
decode_empty t = if t == ascii "e30=" then some (ascii "{}") else none

detected : detect_jwt_expiry decode_empty (λ _. some (pos 4)) (ascii "eyJ.e30.x") ≡ some (pos 4)
unfolding detect_jwt_expiry expiry_of_claims split strip_prefix standard_alphabet padded
    json_bytes_depth_is_bounded json_bytes_nodes_are_bounded node_step structural admit_value
    depth_step scan saturating_add text_eq nat_eq ℕ_discrete
detected = refl

undetected : detect_jwt_expiry decode_empty (λ _. some (pos 4)) (ascii "eyJ.e30") ≡ none
unfolding detect_jwt_expiry split strip_prefix text_eq nat_eq ℕ_discrete
undetected = refl
