-- ===== src/Auth/Bootstrap.antt =====
-- BootstrapAdminService (src/auth/bootstrap-admin.service.ts).
pub mod Access
use nocodb_middleware.Prelude.{
  Bool, true, false, not, Option, none, some, List, [], ◌∷◌, ◌++◌, Text, codes, same,
}
use nocodb_middleware.Js.{Num, Value, undefined, null, bool, num, text, structured, num_text}
use nocodb_middleware.Result.{guard, conflict, not_found}
use nocodb_middleware.Effects.{Exec, pure, raise, lift, ◌>>=◌, ◌>>◌}
use nocodb_middleware.Filter
use nocodb_middleware.Types.{NocoRecord, get, users, roles, user_roles}
use nocodb_middleware.Outside.{Outside, App}
use nocodb_middleware.Nocodb.Records
use nocodb_middleware.Auth.{BootstrapAdmin}
use nocodb_middleware.Auth.Token.{assert_bootstrap_allowed}
use nocodb_middleware.Auth.Users.{
  Crypto, required_table, id_of, find_by, find_by_both, hash_password,
}

pub record Bootstrapped : Type 0 where
  pub user_id : Num
  pub username : Text
  pub created : Bool

-- `String(value ?? '')`
unfoldable pub value_text : Value → Text
value_text undefined = []
value_text null = []
value_text (bool true) = codes "true"
value_text (bool false) = codes "false"
value_text (num n) = num_text n
value_text (text t) = t
value_text (structured t) = t

-- The email belongs to an account of another name.
unfoldable pub email_taken : Text → Option NocoRecord → Option NocoRecord → Bool
email_taken username none (some by_email) =
    not (same (value_text (get (codes "username") by_email)) username)
email_taken username _ _ = false

module _ (out : Outside) (crypto : Crypto (Outside.World out)) where
  open out use {World}

  make_admin : Text → Num → Num → Exec (App World) (Unit {0})
  make_admin table_id user_id role_id = do
    _ ←
        Records.create out table_id
          ((codes "user_id", num user_id) ∷ (codes "role_id", num role_id) ∷ [])
    pure tt

  make_admin_unless : Text → Num → Num → Option NocoRecord → Exec (App World) (Unit {0})
  unfolding make_admin
  make_admin_unless table_id user_id role_id none = make_admin table_id user_id role_id
  make_admin_unless table_id user_id role_id (some existing) = pure tt

  -- `if (!adminRole) throw new NotFoundException(…)`
  unfoldable pub required_role : Option NocoRecord → Exec (App World) Num
  required_role none = raise not_found
  required_role (some r) = id_of out r

  unfoldable pub grant_admin :
      Text → Text → Num → BootstrapAdmin → Option NocoRecord → Exec (App World) Bootstrapped
  unfolding make_admin_unless make_admin
  grant_admin users_id table_id role_id dto (some existing) = do
    user_id ← id_of out existing
    assigned ←
        find_by_both out table_id (codes "user_id") (Filter.number user_id) (codes "role_id")
          (Filter.number role_id)
    make_admin_unless table_id user_id role_id assigned
    pure (record { user_id = user_id; username = dto.username; created = false })
  grant_admin users_id table_id role_id dto none = do
    hash ← hash_password out crypto dto.password
    made ← Records.create out users_id (
        (codes "username", text dto.username)
        ∷ (codes "email", text dto.email)
        ∷ (codes "password_hash", text hash)
        ∷ (codes "is_active", bool true)
        ∷ [])
    user_id ← id_of out made
    make_admin table_id user_id role_id
    pure (record { user_id = user_id; username = dto.username; created = true })

  unfoldable pub bootstrap : BootstrapAdmin → Exec (App World) Bootstrapped
  bootstrap dto = do
    users_id ← required_table out users
    roles_id ← required_table out roles
    table_id ← required_table out user_roles
    by_username ← find_by out users_id (codes "username") (Filter.text dto.username)
    by_email ← find_by out users_id (codes "email") (Filter.text dto.email)
    lift (guard (not (email_taken dto.username by_username by_email)) conflict)
    admin_role ← find_by out roles_id (codes "role_name") (Filter.text (codes "admin"))
    role_id ← required_role admin_role
    grant_admin users_id table_id role_id dto by_username

  -- `configured` is the setting `BOOTSTRAP_ADMIN_TOKEN`.
  unfoldable pub bootstrap_admin :
      Option Text → BootstrapAdmin → Option Text → Exec (App World) Bootstrapped
  unfolding bootstrap
  bootstrap_admin configured dto provided = do
    lift (assert_bootstrap_allowed configured provided)
    bootstrap dto
