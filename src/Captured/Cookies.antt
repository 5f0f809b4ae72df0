-- ===== src/Captured/Cookies.antt =====
-- magicvault-core/src/injection.rs: which cookies go to a URL. What `url::Url` parses of the URL is
-- a record; a text is trimmed of the characters with the property `White_Space`, in UTF-8.
use Prim.Native.Nat.{Ordering, compare}
use magic_vault.Base.{
  ℕ, Text, ascii, nat_eq, text_eq, ◌==◌, leb, if◌then◌else◌, Bool, true, false, not, ◌&&◌, ◌||◌,
  List, [], ◌∷◌, length, is_empty, Option, none, some,
}
use magic_vault.Base.Bytes.{
  to_ascii_lowercase, strip_prefix, ends_with, ends_with_byte, starts_with_byte,
}
use magic_vault.Base.Time.{ℤ, ltb_ℤ}
use magic_vault.Secrets.{SameSite}

pub record CookieWithMetadata : Type 0 where
  pub name : Text
  pub value : Text
  pub domain : Text
  pub path : Text
  pub secure : Bool
  pub http_only : Bool
  pub same_site : SameSite
  pub expires : Option ℤ

-- `url.host_str().unwrap_or("")`, `url.path()` and `url.scheme() == "https"`.
pub record Url : Type 0 where
  pub host : Text
  pub path : Text
  pub is_secure : Bool

-- White space of one, two and three bytes.
abbrev pub is_space_byte : ℕ → Bool
is_space_byte a = (leb 9 a && leb a 13) || a == 32

abbrev pub is_space_pair : ℕ → ℕ → Bool
is_space_pair a b = a == 194 && (b == 133 || b == 160)

abbrev pub is_space_triple : ℕ → ℕ → ℕ → Bool
is_space_triple a b c =
    (a == 225 && (b == 154 && c == 128))
    || ((a == 226
          && ((b == 128 && ((leb 128 c && leb c 138) || (c == 168 || (c == 169 || c == 175))))
              || (b == 129 && c == 159)))
        || (a == 227 && (b == 128 && c == 128)))

-- The whole text is white space.
unfoldable pub is_blank : Text → Bool
unfolding nat_eq
is_blank [] = true
is_blank (a ∷ []) = is_space_byte a
is_blank (a ∷ b ∷ []) =
    let rest = is_blank (b ∷ []) in is_space_pair a b || (is_space_byte a && rest)
is_blank (a ∷ b ∷ c ∷ s) =
    let one = is_blank (b ∷ c ∷ s) in
    let two = is_blank (c ∷ s) in
    let three = is_blank s in
    (is_space_byte a && one) || ((is_space_pair a b && two) || (is_space_triple a b c && three))

unfoldable pub trim_start : Text → Text
unfolding nat_eq
trim_start [] = []
trim_start (a ∷ []) = if is_space_byte a then [] else a ∷ []
trim_start (a ∷ b ∷ []) =
    let rest = trim_start (b ∷ []) in
    if is_space_pair a b then [] else if is_space_byte a then rest else a ∷ b ∷ []
trim_start (a ∷ b ∷ c ∷ s) =
    let one = trim_start (b ∷ c ∷ s) in
    let two = trim_start (c ∷ s) in
    let three = trim_start s in
    if is_space_byte a
    then one
    else if is_space_pair a b
    then two
    else if is_space_triple a b c
    then three
    else a ∷ b ∷ c ∷ s

unfoldable pub trim_end : Text → Text
unfolding is_blank
trim_end [] = []
trim_end (c ∷ s) = let rest = trim_end s in if is_blank (c ∷ s) then [] else c ∷ rest

abbrev pub all_are : ℕ → Text → Bool
all_are b [] = true
all_are b (c ∷ s) = c == b && all_are b s

-- `trim_end_matches` and `trim_start_matches` of a byte.
unfoldable pub trim_end_matches : ℕ → Text → Text
unfolding nat_eq
trim_end_matches b [] = []
trim_end_matches b (c ∷ s) =
    let rest = trim_end_matches b s in if all_are b (c ∷ s) then [] else c ∷ rest

unfoldable pub trim_start_matches : ℕ → Text → Text
unfolding nat_eq
trim_start_matches b [] = []
trim_start_matches b (c ∷ s) = let rest = trim_start_matches b s in if c == b then rest else c ∷ s

abbrev pub normalized : Text → Text
normalized t = to_ascii_lowercase (trim_end_matches b'.' (trim_end (trim_start t)))

unfoldable pub cookie_domain_matches_host : Text → Text → Bool
unfolding trim_start trim_end trim_end_matches to_ascii_lowercase strip_prefix ends_with text_eq
cookie_domain_matches_host cookie_domain host =
    if is_empty (normalized cookie_domain) || is_empty (normalized host)
    then false
    else elim (strip_prefix (ascii ".") (normalized cookie_domain)) [
      | some bare ↦
          not (is_empty bare)
          && (normalized host == bare || ends_with (normalized host) (b'.' ∷ bare))
      | none ↦ normalized host == normalized cookie_domain
    ]

abbrev pub rooted : Text → Text
rooted [] = ascii "/"
rooted (c ∷ s) = if c == b'/' then c ∷ s else ascii "/"

abbrev pub or_root : Text → Text
or_root [] = ascii "/"
or_root (c ∷ s) = c ∷ s

unfoldable pub cookie_path_matches_request : Text → Text → Bool
unfolding strip_prefix ends_with_byte nat_eq text_eq
cookie_path_matches_request request_path cookie_path =
    or_root request_path == rooted cookie_path
    || elim (strip_prefix (rooted cookie_path) (or_root request_path)) [
      | some remaining ↦ ends_with_byte b'/' (rooted cookie_path) || starts_with_byte b'/' remaining
      | none ↦ false
    ]

abbrev pub is_past : ℤ → Option ℤ → Bool
is_past now none = false
is_past now (some exp) = ltb_ℤ exp now

-- The four tests of the loop.
unfoldable pub is_applicable : Url → ℤ → CookieWithMetadata → Bool
unfolding cookie_domain_matches_host cookie_path_matches_request
is_applicable url now cookie =
    not (is_past now cookie.expires)
    && (not (cookie.secure && not url.is_secure)
        && (cookie_domain_matches_host cookie.domain url.host
            && cookie_path_matches_request url.path cookie.path))

unfoldable pub applicable : Url → ℤ → List CookieWithMetadata → List CookieWithMetadata
unfolding is_applicable
applicable url now [] = []
applicable url now (c ∷ cs) =
    let rest = applicable url now cs in if is_applicable url now c then c ∷ rest else rest

-- The order of the header: the longer path first, then the longer domain. The sort is stable, and
-- the index that the source compares last is the place in the list.
unfoldable pub comes_before : CookieWithMetadata → CookieWithMetadata → Bool
unfolding trim_start_matches
comes_before left right = elim (compare (length right.path) (length left.path)) [
  | Ordering.lt ↦ true
  | Ordering.gt ↦ false
  | Ordering.eq ↦
      leb (length (trim_start_matches b'.' right.domain))
        (length (trim_start_matches b'.' left.domain))
]

unfoldable pub insert_cookie :
    CookieWithMetadata → List CookieWithMetadata → List CookieWithMetadata
unfolding comes_before
insert_cookie c [] = c ∷ []
insert_cookie c (d ∷ ds) =
    let rest = insert_cookie c ds in if comes_before c d then c ∷ d ∷ ds else d ∷ rest

unfoldable pub sort_cookies : List CookieWithMetadata → List CookieWithMetadata
unfolding insert_cookie
sort_cookies [] = []
sort_cookies (c ∷ cs) = insert_cookie c (sort_cookies cs)

unfoldable pub filter_cookies_for_url : List CookieWithMetadata → Url → ℤ → List CookieWithMetadata
unfolding applicable sort_cookies
filter_cookies_for_url cookies url now = sort_cookies (applicable url now cookies)
