-- ===== src/Auth/Strategy.antt =====
-- JwtStrategy.validate (src/auth/strategies/jwt.strategy.ts): the user of a request, from the
-- payload of a token whose signature passport has checked.
pub mod Admission
use nocodb_middleware.Prelude.{
  Bool, true, false, not, ◌&&◌, Option, none, some, List, [], ◌∷◌, Text, codes, if◌then◌else◌,
}
use nocodb_middleware.Js.{Num, Value, num, text, or_default, is_integer, is_positive}
use nocodb_middleware.Result.{Error, unauthorized, guard}
use nocodb_middleware.Effects.{Exec, pure, raise, lift, ◌>>=◌, ◌>>◌}
use nocodb_middleware.Types.{NocoRecord, NocoTableMeta, get, users}
use nocodb_middleware.Outside.{Outside, App}
use nocodb_middleware.Nocodb.Meta.{get_table_by_name}
use nocodb_middleware.Nocodb.Records
use nocodb_middleware.Auth.{Provider, local, external, IdentityClaims, ResolvedIdentity}
use nocodb_middleware.Auth.Claims.{TokenPayload, normalize}
use nocodb_middleware.Auth.Config.{Settings, get_provider}
use nocodb_middleware.Auth.Users.{text_or_undefined, is_not_false}
use nocodb_middleware.Auth.Provisioning.{resolve_identity}

pub record AuthenticatedUser : Type 0 where
  pub user_id : Num
  pub username : Value
  pub email : Value
  pub roles : List Text
  pub scope : List Text

unfoldable pub local_user : Num → IdentityClaims → NocoRecord → AuthenticatedUser
local_user user_id claims user = record {
  user_id = user_id;
  username =
      or_default (or_default (get (codes "username") user) (text_or_undefined claims.username))
        (text (codes "unknown"));
  email = or_default (get (codes "email") user) (text_or_undefined claims.email);
  roles = claims.roles;
  scope = claims.scope;
}

unfoldable pub external_user : IdentityClaims → ResolvedIdentity → AuthenticatedUser
external_user claims identity = record {
  user_id = identity.user_id;
  username = identity.username;
  email = identity.email;
  roles = identity.roles;
  scope = claims.scope;
}

module _ (out : Outside) where
  open out use {World, parse_number}

  unfoldable pub admit_local :
      Num → IdentityClaims → Option NocoRecord → Exec (App World) AuthenticatedUser
  admit_local user_id claims none = raise unauthorized
  admit_local user_id claims (some user) =
      if is_not_false (get (codes "is_active") user)
      then pure (local_user user_id claims user)
      else raise unauthorized

  unfoldable pub read_local :
      Num → IdentityClaims → Option NocoTableMeta → Exec (App World) AuthenticatedUser
  unfolding admit_local
  read_local user_id claims none = raise unauthorized
  read_local user_id claims (some table) = do
    user ← Records.read out table.id user_id none
    admit_local user_id claims user

  unfoldable pub validate_local : IdentityClaims → Exec (App World) AuthenticatedUser
  unfolding read_local
  validate_local claims = do
    let user_id = parse_number claims.subject
    lift (guard (is_integer user_id && is_positive user_id) unauthorized)
    users_table ← get_table_by_name out users
    read_local user_id claims users_table

  unfoldable pub admit_identity :
      IdentityClaims → ResolvedIdentity → Exec (App World) AuthenticatedUser
  admit_identity claims identity =
      if identity.active then pure (external_user claims identity) else raise unauthorized

  unfoldable pub validate_external : IdentityClaims → Exec (App World) AuthenticatedUser
  unfolding admit_identity
  validate_external claims = do
    identity ← resolve_identity out external claims
    admit_identity claims identity

  unfoldable pub validate_claims : IdentityClaims → Provider → Exec (App World) AuthenticatedUser
  validate_claims claims local = validate_local claims
  validate_claims claims external = validate_external claims

  unfoldable pub validate : Settings → TokenPayload → Exec (App World) AuthenticatedUser
  unfolding validate_claims
  validate settings payload = do
    provider ← lift (get_provider settings)
    claims ← lift (normalize payload provider)
    validate_claims claims provider
