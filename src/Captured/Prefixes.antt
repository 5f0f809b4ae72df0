-- ===== src/Captured/Prefixes.antt =====
-- magicvault-core/src/store.rs: maps that are kept under prefixed keys, and read from them.
use magic_vault.Base.{
  Text, text_eq, nat_eq, Option, none, some, ◌≡◌, refl, [], ◌∷◌, ◌++◌, arith, inl, inr,
  Option-cases,
}
use magic_vault.Base.Bytes.{strip_prefix}
use magic_vault.Base.Affixes.{strip_prefix-some, strip_prefix-append, append_cancel}
use magic_vault.Base.Map.{Map, lookup, insert, NodupKeys, lookup-insert}
use magic_vault.Captured.Fields.{extract_prefixed_fields, insert_prefixed}

pub lookup-extract_prefixed_fields :
    (prefix name : Text) (m : Map Text)
    → lookup name (extract_prefixed_fields prefix m) ≡ lookup (prefix ++ name) m
unfolding extract_prefixed_fields lookup
lookup-extract_prefixed_fields prefix name [] = refl
lookup-extract_prefixed_fields prefix name ((k, v) ∷ m) =
    let rest = extract_prefixed_fields prefix m in
    elim (Option-cases (strip_prefix prefix k)) [
      | inl h ↦
          ground (
            arith,
            h,
            strip_prefix-append prefix name,
            lookup-extract_prefixed_fields prefix name m,
          )
      | inr (s, h) ↦ ground (
        arith,
        h,
        strip_prefix-some prefix k s h,
        append_cancel prefix name s,
        lookup-insert name s v rest,
        lookup-extract_prefixed_fields prefix name m,
      )
    ]

abbrev pub or_below : Option Text → Option Text → Option Text
or_below none o = o
or_below (some t) o = some t

pub lookup-insert_prefixed :
    (prefix name : Text) (m fields : Map Text)
    → NodupKeys m
    → lookup (prefix ++ name) (insert_prefixed prefix m fields)
      ≡ or_below (lookup name m) (lookup (prefix ++ name) fields)
unfolding insert_prefixed lookup
lookup-insert_prefixed prefix name [] fields u = refl
lookup-insert_prefixed prefix name ((n, v) ∷ m) fields (fresh, u) = ground (
  arith,
  lookup-insert_prefixed prefix name m (insert (prefix ++ n) v fields) u,
  lookup-insert (prefix ++ name) (prefix ++ n) v fields,
  append_cancel prefix name n,
  fresh,
)

pub lookup-insert_prefixed_apart :
    (prefix k : Text) (m fields : Map Text)
    → strip_prefix prefix k ≡ none
    → lookup k (insert_prefixed prefix m fields) ≡ lookup k fields
unfolding insert_prefixed
lookup-insert_prefixed_apart prefix k [] fields h = refl
lookup-insert_prefixed_apart prefix k ((n, v) ∷ m) fields h = ground (
  arith,
  lookup-insert_prefixed_apart prefix k m (insert (prefix ++ n) v fields) h,
  lookup-insert k (prefix ++ n) v fields,
  strip_prefix-append prefix n,
  h,
)
