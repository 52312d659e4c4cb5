-- ===== src/Permissions/Guards.antt =====
-- The guards (src/data/table-permissions.guard.ts, src/permissions/permissions.guard.ts,
-- src/auth/guards/roles.guard.ts, src/auth/guards/jwt-auth.guard.ts). The audit log line of a
-- denial is left out.
pub mod Denial
pub mod Reading
use nocodb_middleware.Prelude.{
  ℕ, ◌-◌, Bool, true, false, not, ◌&&◌, ◌||◌, Option, none, some, List, [], ◌∷◌, map, Text, codes,
  same, any, leb, if◌then◌else◌,
}
use nocodb_middleware.Js.{Value, undefined, truthy, to_number}
use nocodb_middleware.Result.{forbidden, not_found}
use nocodb_middleware.Effects.{Exec, pure, raise, ◌>>=◌, ◌>>◌}
use nocodb_middleware.Types.{CrudAction, create, read, update, delete, system_table_names}
use nocodb_middleware.Outside.{Outside, App}
use nocodb_middleware.TableName.{is_valid_table_name}
use nocodb_middleware.Permissions.Scope.{has_scope_permission}
use nocodb_middleware.Permissions.Service.{can_user_perform_action}

-- `request.user`; a scope that is no array is `none`.
pub record RequestUser : Type 0 where
  pub user_id : Value
  pub scope : Option (List Value)

pub record DataRequest : Type 0 where
  pub method : Text
  pub table : Option Text
  pub user : Option RequestUser

-- HTTP methods are ASCII.
unfoldable pub to_upper_case : Text → Text
to_upper_case = map (λ c. if leb b'a' c && leb c b'z' then c - 32 else c)

unfoldable pub method_action : Text → Option CrudAction
method_action method =
    if same method (codes "GET")
    then some read
    else if same method (codes "POST")
    then some create
    else if same method (codes "PATCH")
    then some update
    else if same method (codes "DELETE")
    then some delete
    else none

unfoldable pub is_system_table : Text → Bool
is_system_table table = any (same table) system_table_names

table_or_empty : Option Text → Text
table_or_empty none = []
table_or_empty (some t) = t

module _ (out : Outside) where
  open out use {World, is_letter_or_number}

  -- A scope, or else the user's roles.
  unfoldable pub is_allowed : RequestUser → Text → CrudAction → Exec (App World) Bool
  is_allowed user table action =
      if has_scope_permission user.scope table action
      then pure true
      else can_user_perform_action out (to_number out.parse_number user.user_id) table action

  -- `if (!allowed) throw new ForbiddenException(…)`
  unfoldable pub require : Bool → Exec (App World) (Unit {0})
  require true = pure tt
  require false = raise forbidden

  unfoldable pub check_user : Text → Option CrudAction → Option RequestUser → Exec (App World) Bool
  unfolding require
  check_user table (some action) (some user) =
      if not (truthy user.user_id)
      then raise forbidden
      else do allowed ← is_allowed user table action; require allowed; pure true
  check_user table _ _ = raise forbidden

  unfoldable pub check_table : Text → DataRequest → Exec (App World) Bool
  check_table table request =
      if not (is_valid_table_name is_letter_or_number table) || is_system_table table
      then raise not_found
      else check_user table (method_action (to_upper_case request.method)) request.user

  -- TablePermissionsGuard.canActivate
  unfoldable pub can_activate_table : DataRequest → Exec (App World) Bool
  unfolding table_or_empty
  can_activate_table request = check_table (table_or_empty request.table) request

  unfoldable pub check_all : RequestUser → List (Text × CrudAction) → Exec (App World) Bool
  unfolding require
  check_all user [] = pure true
  check_all user ((table, action) ∷ rest) = do
    allowed ← is_allowed user table action
    require allowed
    check_all user rest

  -- PermissionsGuard.canActivate; `none` is a route with no permissions in its metadata.
  unfoldable pub can_activate_permissions :
      Option (List (Text × CrudAction)) → Option RequestUser → Exec (App World) Bool
  can_activate_permissions none user = pure true
  can_activate_permissions (some []) user = pure true
  can_activate_permissions (some (p ∷ ps)) none = raise forbidden
  can_activate_permissions (some (p ∷ ps)) (some user) =
      if not (truthy user.user_id) then raise forbidden else check_all user (p ∷ ps)

unfoldable pub match_roles : List Text → List Text → Bool
match_roles roles user_roles = any (λ role. any (same role) roles) user_roles

-- RolesGuard.canActivate; `none` is absent metadata, and roles of the user that are no array.
unfoldable pub can_activate_roles : Option (List Text) → Option (List Text) → Bool
can_activate_roles none user_roles = true
can_activate_roles (some []) user_roles = true
can_activate_roles (some (r ∷ rs)) none = false
can_activate_roles (some (r ∷ rs)) (some user_roles) = match_roles (r ∷ rs) user_roles

-- JwtAuthGuard.canActivate: `verified` is the answer of passport's guard.
unfoldable pub can_activate_jwt : Bool → Bool → Bool
can_activate_jwt is_public verified = if is_public then true else verified
