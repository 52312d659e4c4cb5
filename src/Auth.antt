-- ===== src/Auth.antt =====
-- Identities and accounts (src/auth). The types are those of
-- src/auth/identity/identity-provider.port.ts and src/auth/dto.
pub mod Claims
pub mod Config
pub mod Users
pub mod Provisioning
pub mod Token
pub mod Bootstrap
pub mod Strategy
use nocodb_middleware.Prelude.{Bool, Option, List, Text}
use nocodb_middleware.Js.{Num, Value}

pub data Provider : Type 0 where
  local external : Provider

pub record IdentityClaims : Type 0 where
  pub subject : Text
  pub provider : Provider
  pub email : Option Text
  pub username : Option Text
  pub roles : List Text
  pub scope : List Text

pub record ResolvedIdentity : Type 0 where
  pub user_id : Num
  pub username : Value
  pub email : Value
  pub roles : List Text
  pub active : Bool

pub record NewUser : Type 0 where
  pub username : Text
  pub email : Text
  pub password : Text
  pub roles : Option (List Text)
  pub is_active : Option Bool

pub record BootstrapAdmin : Type 0 where
  pub username : Text
  pub email : Text
  pub password : Text
