-- ===== src/Roles/Freshness.antt =====
-- Changes of roles and permissions against the permission cache (src/permissions, src/roles,
-- src/users/user-roles.service.ts).
use nocodb_middleware.Prelude.{◌≡◌, ap}
use nocodb_middleware.Js.{Num}
use nocodb_middleware.Result.{ok}
use nocodb_middleware.Effects.{Exec, pure, ◌>>=◌, >>=-ok}
use nocodb_middleware.Outside.{Outside, App}
use nocodb_middleware.Permissions.Service.{get_user_permissions, load_permissions}
use nocodb_middleware.Permissions.Service.Forgetting.{Forgotten, get_user_permissions_of_Forgotten}
use nocodb_middleware.Permissions.Management.{
  TablePermissions, set_table_permissions, delete_role_permissions,
}
use nocodb_middleware.Permissions.Management.Clearing.{
  set_table_permissions-Forgotten, delete_role_permissions-Forgotten,
}
use nocodb_middleware.Roles.Catalog.{delete_role}
use nocodb_middleware.Roles.Catalog.Clearing.{delete_role-Forgotten}
use nocodb_middleware.Roles.Assignments.{assign_role, remove_role}
use nocodb_middleware.Roles.Assignments.Clearing.{assign_role-Forgotten, remove_role-Forgotten}

-- Operations that change the permissions of users and clear the cache; bootstrapAdmin assigns a role
-- without that.
pub data Change : Type 0 where
  permission_set : TablePermissions → Change
  role_permissions_deleted : Num → Change
  role_deleted : Num → Change
  role_assigned : Num → Num → Change
  role_removed : Num → Num → Change

-- A change of the assignments is one of a single user, the others are changes of every user that has
-- the role.
abbrev pub Affects : Change → Num → Type 0
Affects (role_assigned user_id role_id) u = user_id ≡ u
Affects (role_removed user_id role_id) u = user_id ≡ u
Affects _ u = Unit

module _ (out : Outside) where
  open out use {World}

  unfoldable pub change : Change → Exec (App World) (Unit {0})
  change (permission_set p) = do _ ← set_table_permissions out p; pure tt
  change (role_permissions_deleted role_id) = delete_role_permissions out role_id
  change (role_deleted role_id) = delete_role out role_id
  change (role_assigned user_id role_id) = do _ ← assign_role out user_id role_id; pure tt
  change (role_removed user_id role_id) = remove_role out user_id role_id

  forgotten :
      (c : Change) (u : Num) (s t : App World)
      → change c s ≡ (ok tt, t)
      → Affects c u
      → Forgotten out u t
  unfolding change
  forgotten (permission_set p) u s t h a =
      let (r, s₁, set, rest) = >>=-ok (set_table_permissions out p) _ s h in
      rw (← ap (λ x. x.1) rest) (set_table_permissions-Forgotten out u p s s₁ set)
  forgotten (role_permissions_deleted role_id) u s t h a =
      delete_role_permissions-Forgotten out u role_id s t h
  forgotten (role_deleted role_id) u s t h a = delete_role-Forgotten out u role_id s t h
  forgotten (role_assigned user_id role_id) u s t h a =
      let (r, s₁, assigned, rest) = >>=-ok (assign_role out user_id role_id) _ s h in
      rw (← ap (λ x. x.1) rest, ← a) (assign_role-Forgotten out user_id role_id s s₁ assigned)
  forgotten (role_removed user_id role_id) u s t h a =
      rw (← a) (remove_role-Forgotten out user_id role_id s t h)

  -- Behind a successful call of setTablePermissions, deleteRolePermissions or deleteRole, the next
  -- request for the permissions of any user asks NocoDB, whatever was cached before; behind one of
  -- assignRole or removeRole, that for the permissions of the user that it names.
  pub change-not_stale :
      (c : Change) (u : Num) (s t : App World)
      → change c s ≡ (ok tt, t)
      → Affects c u
      → get_user_permissions out u t ≡ load_permissions out u t
  change-not_stale c u s t h a = get_user_permissions_of_Forgotten out u t (forgotten c u s t h a)
