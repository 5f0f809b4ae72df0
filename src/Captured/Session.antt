-- ===== src/Captured/Session.antt =====
-- magicvault-core/src/session.rs, and store.rs for the leases: the context of a replayed request and
-- the captures that contributed to it.
use Prim.Native.Nat.{Ordering}
use magic_vault.Base.{
  ℕ, Text, ascii, text_eq, nat_eq, ◌==◌, Bool, false, not, ◌&&◌, ◌||◌, Option, none, some,
  if◌then◌else◌, List, [], ◌∷◌, ◌++◌, is_empty,
}
use magic_vault.Base.Bytes.{any_of, compare_text, to_ascii_lowercase}
use magic_vault.Base.Map.{Map, lookup, insert, contains_key}
use magic_vault.Captured.Cookies.{CookieWithMetadata}

pub record SessionCookie : Type 0 where
  pub name : Text
  pub value : Text

pub record SessionContext : Type 0 where
  pub cookie_metadata : List CookieWithMetadata
  pub cookie_header_values : List SessionCookie
  pub cookies : Map Text
  pub auth_headers : Map Text
  pub auth_query_params : Map Text
  pub local_storage : Map Text
  pub session_storage : Map Text

pub record CapturedSessionTarget : Type 0 where
  pub origin : Text
  pub generation : ℕ

pub record CapturedSessionLease : Type 0 where
  pub stale_mark_targets : List CapturedSessionTarget

abbrev pub empty_lease : CapturedSessionLease
empty_lease = record { stale_mark_targets = [] }

unfoldable pub push_target : CapturedSessionLease → Text → ℕ → CapturedSessionLease
unfolding any_of text_eq nat_eq
push_target lease origin generation =
    if any_of (λ t. t.origin == origin && t.generation == generation) lease.stale_mark_targets
    then lease
    else record {
      stale_mark_targets =
          lease.stale_mark_targets ++ (record { origin = origin; generation = generation } ∷ []);
    }

abbrev pub or_insert : Text → Text → Map Text → Map Text
or_insert k v m = if contains_key k m then m else insert k v m

-- The loop of `build_session_cookies` with the index so far.
unfoldable pub index_cookies : List CookieWithMetadata → Map Text → Map Text
unfolding lookup insert
index_cookies [] m = m
index_cookies (c ∷ cs) m = index_cookies cs (or_insert c.name c.value m)

unfoldable pub header_values : List CookieWithMetadata → List SessionCookie
header_values [] = []
header_values (c ∷ cs) = record { name = c.name; value = c.value } ∷ header_values cs

unfoldable pub build_session_cookies : List CookieWithMetadata → List SessionCookie × Map Text
unfolding header_values index_cookies
build_session_cookies cookies = (header_values cookies, index_cookies cookies [])

-- `keys().cloned().collect()` and `sort()`.
unfoldable pub insert_key : Text → List Text → List Text
unfolding compare_text
insert_key k [] = k ∷ []
insert_key k (j ∷ js) =
    let rest = insert_key k js in
    elim (compare_text k j) [ Ordering.gt ↦ j ∷ rest | _ ↦ k ∷ j ∷ js ]

unfoldable pub sorted_keys : Map Text → List Text
unfolding insert_key
sorted_keys [] = []
sorted_keys ((k, _) ∷ m) = insert_key k (sorted_keys m)

unfoldable pub has_cookie_name : SessionContext → Text → Bool
unfolding any_of text_eq lookup
has_cookie_name s name =
    if not (is_empty s.cookie_header_values)
    then any_of (λ c. c.name == name) s.cookie_header_values
    else contains_key name s.cookies

-- The names in order, each at its first place; `names` are those so far.
unfoldable pub distinct_names : List Text → List SessionCookie → List Text
unfolding any_of text_eq
distinct_names names [] = names
distinct_names names (c ∷ cs) =
    distinct_names (if any_of (λ n. n == c.name) names then names else names ++ (c.name ∷ [])) cs

unfoldable pub available_cookie_names : SessionContext → List Text
unfolding distinct_names sorted_keys
available_cookie_names s =
    if not (is_empty s.cookie_header_values)
    then distinct_names [] s.cookie_header_values
    else sorted_keys s.cookies

unfoldable pub any_key : (Text → Bool) → Map Text → Bool
any_key p [] = false
any_key p ((k, _) ∷ m) = p k || any_key p m

unfoldable pub has_auth_query_param : SessionContext → Text → Bool
unfolding any_key to_ascii_lowercase text_eq
has_auth_query_param s name =
    any_key (λ k. to_ascii_lowercase k == to_ascii_lowercase name) s.auth_query_params

unfoldable pub available_auth_query_param_names : SessionContext → List Text
unfolding sorted_keys
available_auth_query_param_names s = sorted_keys s.auth_query_params

unfoldable pub cookie_pairs : List SessionCookie → List Text
cookie_pairs [] = []
cookie_pairs (c ∷ cs) = (c.name ++ (b'=' ∷ c.value)) ∷ cookie_pairs cs

-- The entries in the order of their keys; a map has a key once.
unfoldable pub insert_entry : Text → Text → List SessionCookie → List SessionCookie
unfolding compare_text
insert_entry k v [] = record { name = k; value = v } ∷ []
insert_entry k v (c ∷ cs) =
    let rest = insert_entry k v cs in
    elim (compare_text k c.name) [
      | Ordering.gt ↦ c ∷ rest
      | _ ↦ record { name = k; value = v } ∷ c ∷ cs
    ]

unfoldable pub sorted_entries : Map Text → List SessionCookie
unfolding insert_entry
sorted_entries [] = []
sorted_entries ((k, v) ∷ m) = insert_entry k v (sorted_entries m)

abbrev pub join : Text → List Text → Text
join separator [] = []
join separator (t ∷ []) = t
join separator (t ∷ u ∷ ts) = t ++ (separator ++ join separator (u ∷ ts))

unfoldable pub cookie_header_string : SessionContext → Option Text
unfolding cookie_pairs sorted_entries
cookie_header_string s =
    if not (is_empty s.cookie_header_values)
    then some (join (ascii "; ") (cookie_pairs s.cookie_header_values))
    else if not (is_empty s.cookies)
    then some (join (ascii "; ") (cookie_pairs (sorted_entries s.cookies)))
    else none

unfoldable pub has_local_storage_key : SessionContext → Text → Bool
unfolding lookup
has_local_storage_key s key = contains_key key s.local_storage

unfoldable pub has_session_storage_key : SessionContext → Text → Bool
unfolding lookup
has_session_storage_key s key = contains_key key s.session_storage

unfoldable pub available_local_storage_keys : SessionContext → List Text
unfolding sorted_keys
available_local_storage_keys s = sorted_keys s.local_storage

unfoldable pub available_session_storage_keys : SessionContext → List Text
unfolding sorted_keys
available_session_storage_keys s = sorted_keys s.session_storage
