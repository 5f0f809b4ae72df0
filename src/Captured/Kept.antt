-- ===== src/Captured/Kept.antt =====
-- magicvault-core/src/store.rs: the fields of a captured entry give back what it was made of.
use magic_vault.Base.{ℕ, Text, nat_eq, Option, none, ◌≡◌, refl, ◌∙◌, [], ◌++◌}
use magic_vault.Base.Bytes.{strip_prefix}
use magic_vault.Base.Map.{Map, lookup, NodupKeys}
use magic_vault.Base.Time.{ℤ}
use magic_vault.Captured.Prefixes.{
  lookup-extract_prefixed_fields, lookup-insert_prefixed, lookup-insert_prefixed_apart, or_below,
}
use magic_vault.Captured.CookieKeys.{lookup-insert_cookies_apart, cookies_from-insert_cookies}
use magic_vault.Captured.Fields.{
  extract_captured_headers, extract_captured_query_params, extract_captured_cookies,
  extract_captured_local_storage, extract_captured_session_storage, insert_prefixed, insert_cookies,
  flatten_captured_fields, header_prefix, query_param_prefix, local_storage_prefix,
  session_storage_prefix, cookie_key,
}
use magic_vault.Captured.Storing.{Capture, captured_entry, existing_capture}

or_below-none : (o p : Option Text) → p ≡ none → or_below o p ≡ o
or_below-none none p h = h
or_below-none (Option.some _) p h = refl

-- The fields after each of the five loops.
module _ (c : Capture) where
  abbrev with_headers : Map Text
  with_headers = insert_prefixed header_prefix c.headers []

  abbrev with_query_params : Map Text
  with_query_params = insert_prefixed query_param_prefix c.auth_query_params with_headers

  abbrev with_cookies : Map Text
  with_cookies = insert_cookies 0 c.cookies with_query_params

  abbrev with_local_storage : Map Text
  with_local_storage = insert_prefixed local_storage_prefix c.local_storage with_cookies

  abbrev with_session_storage : Map Text
  with_session_storage = insert_prefixed session_storage_prefix c.session_storage with_local_storage

  lookup-header :
      (name : Text)
      → NodupKeys c.headers
      → lookup (header_prefix ++ name) with_session_storage ≡ lookup name c.headers
  unfolding strip_prefix nat_eq lookup
  lookup-header name u =
      let k = header_prefix ++ name in
      lookup-insert_prefixed_apart session_storage_prefix k c.session_storage with_local_storage
        refl
      ∙ (lookup-insert_prefixed_apart local_storage_prefix k c.local_storage with_cookies refl
          ∙ (lookup-insert_cookies_apart 0 k c.cookies with_query_params refl
              ∙ (lookup-insert_prefixed_apart query_param_prefix k c.auth_query_params with_headers
                    refl
                  ∙ (lookup-insert_prefixed header_prefix name c.headers [] u
                      ∙ or_below-none (lookup name c.headers) none refl))))

  lookup-query_param :
      (name : Text)
      → NodupKeys c.auth_query_params
      → lookup (query_param_prefix ++ name) with_session_storage ≡ lookup name c.auth_query_params
  unfolding strip_prefix nat_eq lookup
  lookup-query_param name u =
      let k = query_param_prefix ++ name in
      lookup-insert_prefixed_apart session_storage_prefix k c.session_storage with_local_storage
        refl
      ∙ (lookup-insert_prefixed_apart local_storage_prefix k c.local_storage with_cookies refl
          ∙ (lookup-insert_cookies_apart 0 k c.cookies with_query_params refl
              ∙ (lookup-insert_prefixed query_param_prefix name c.auth_query_params with_headers u
                  ∙ or_below-none (lookup name c.auth_query_params) (lookup k with_headers)
                      (lookup-insert_prefixed_apart header_prefix k c.headers [] refl))))

  lookup-local_storage :
      (name : Text)
      → NodupKeys c.local_storage
      → lookup (local_storage_prefix ++ name) with_session_storage ≡ lookup name c.local_storage
  unfolding strip_prefix nat_eq lookup
  lookup-local_storage name u =
      let k = local_storage_prefix ++ name in
      lookup-insert_prefixed_apart session_storage_prefix k c.session_storage with_local_storage
        refl
      ∙ (lookup-insert_prefixed local_storage_prefix name c.local_storage with_cookies u
          ∙ or_below-none (lookup name c.local_storage) (lookup k with_cookies) (
              lookup-insert_cookies_apart 0 k c.cookies with_query_params refl
              ∙ (lookup-insert_prefixed_apart query_param_prefix k c.auth_query_params with_headers
                    refl
                  ∙ lookup-insert_prefixed_apart header_prefix k c.headers [] refl)))

  lookup-session_storage :
      (name : Text)
      → NodupKeys c.session_storage
      → lookup (session_storage_prefix ++ name) with_session_storage ≡ lookup name c.session_storage
  unfolding strip_prefix nat_eq lookup
  lookup-session_storage name u =
      let k = session_storage_prefix ++ name in
      lookup-insert_prefixed session_storage_prefix name c.session_storage with_local_storage u
      ∙ or_below-none (lookup name c.session_storage) (lookup k with_local_storage) (
          lookup-insert_prefixed_apart local_storage_prefix k c.local_storage with_cookies refl
          ∙ (lookup-insert_cookies_apart 0 k c.cookies with_query_params refl
              ∙ (lookup-insert_prefixed_apart query_param_prefix k c.auth_query_params with_headers
                    refl
                  ∙ lookup-insert_prefixed_apart header_prefix k c.headers [] refl)))

  lookup-cookie :
      (j : ℕ) (n : Text)
      → lookup (cookie_key j n) with_session_storage ≡ lookup (cookie_key j n) with_cookies
  unfolding strip_prefix nat_eq cookie_key
  lookup-cookie j n =
      let k = cookie_key j n in
      lookup-insert_prefixed_apart session_storage_prefix k c.session_storage with_local_storage
        refl
      ∙ lookup-insert_prefixed_apart local_storage_prefix k c.local_storage with_cookies refl

-- What the next capture of the origin finds.
abbrev pub recaptured : (Text → Option ℤ) → Text → ℕ → Capture → ℤ → Capture
recaptured d origin generation c created_at =
    existing_capture (Option.some (captured_entry d origin generation c created_at))

-- The two maps agree on the name.
abbrev pub EntryOf : Text → Map Text → Map Text → Type 0
EntryOf name m n = lookup name m ≡ lookup name n

-- A capture in which no name comes twice is read back from the entry that is made of it: the cookies
-- are those of the capture in their order, and each header, query parameter and stored item has its
-- value, where a name that was not captured has none.
pub existing_capture-captured_entry :
    (d : Text → Option ℤ) (origin : Text) (generation : ℕ) (c : Capture) (created_at : ℤ)
    (name : Text)
    → NodupKeys c.headers
    → NodupKeys c.auth_query_params
    → NodupKeys c.local_storage
    → NodupKeys c.session_storage
    → ((recaptured d origin generation c created_at).cookies ≡ c.cookies)
      × (EntryOf name (recaptured d origin generation c created_at).headers c.headers
          × (EntryOf name
                (recaptured d origin generation c created_at).auth_query_params
                c.auth_query_params
              × (EntryOf name
                    (recaptured d origin generation c created_at).local_storage
                    c.local_storage
                  × EntryOf name
                      (recaptured d origin generation c created_at).session_storage
                      c.session_storage)))
unfolding captured_entry existing_capture extract_captured_cookies extract_captured_headers
    extract_captured_query_params extract_captured_local_storage extract_captured_session_storage
    flatten_captured_fields
existing_capture-captured_entry d origin generation c created_at name uh uq ul us =
    let all = with_session_storage c in
    (
      cookies_from-insert_cookies all (with_query_params c) 0 c.cookies (lookup-cookie c),
      (
        lookup-extract_prefixed_fields header_prefix name all ∙ lookup-header c name uh,
        (
          lookup-extract_prefixed_fields query_param_prefix name all ∙ lookup-query_param c name uq,
          (
            lookup-extract_prefixed_fields local_storage_prefix name all
                ∙ lookup-local_storage c name ul,
            lookup-extract_prefixed_fields session_storage_prefix name all
                ∙ lookup-session_storage c name us,
          ),
        ),
      ),
    )
