-- ===== src/Secrets.antt =====
-- magicvault-core/src/types.rs: where a secret's values go.
use magic_vault.Base.{Text, Bool, Option, List}
use magic_vault.Base.Map.{Map}
use magic_vault.Base.Time.{ℤ}

pub data SameSite : Type 0 where
  strict lax none_site : SameSite

pub record CookieSpec : Type 0 where
  pub name : Text
  pub domain : Text
  pub path : Text
  pub secure : Bool
  pub http_only : Bool
  pub same_site : Option SameSite
  pub expires : Option ℤ

pub data InjectionTarget : Type 0 where
  header : Text → Option Text → InjectionTarget
  form_fields : Map Text → InjectionTarget
  cookies : List CookieSpec → InjectionTarget
  inline : InjectionTarget
