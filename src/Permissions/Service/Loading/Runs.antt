-- ===== src/Permissions/Service/Loading/Runs.antt =====
-- The runs that load permissions, as records of what was read (src/permissions/permissions.service.ts).
use nocodb_middleware.Prelude.{◌≡◌, ◌⊎◌, Option, none, some, List, [], ◌∷◌, Text, codes, Any}
use nocodb_middleware.Js.{Num}
use nocodb_middleware.Result.{ok}
use nocodb_middleware.Filter.{filter_eq, filter_in}
use nocodb_middleware.Types.{NocoRecord, NocoTableMeta, CrudAction, UserPermissions}
use nocodb_middleware.Outside.{Outside, App}
use nocodb_middleware.Nocodb.Meta.{get_table_by_name}
use nocodb_middleware.Nocodb.Records
use nocodb_middleware.Nocodb.Records.{FilterOptions, list_all, no_options}
use nocodb_middleware.Permissions.Service.{
  active_ids, existing_ids, role_ids_of, grants_from, numbers, store_permissions,
}
use nocodb_middleware.Permissions.Service.Granting.{Grants}
use nocodb_middleware.Filter

module _ (out : Outside) where
  open out use {World}

  -- The rows are what `listAll` answers for the options in the table that NocoDB has under the
  -- name, in a run from `s` to `t`.
  pub record Listed (name : Text) (o : FilterOptions) (rows : List NocoRecord) (s t : App World)
      : Type 0 where
    pub table : NocoTableMeta
    pub found : App World
    pub named : get_table_by_name out name s ≡ (ok (some table), found)
    pub listed : list_all out table.id o found ≡ (ok rows, t)

  -- From the records of the roles on: the permissions of the active ones are listed, computed from
  -- that, and stored in the cache.
  pub record FromGrants (user_id : Num) (role_records : List NocoRecord) (active : List Num)
      (v : UserPermissions) (s t : App World) : Type 0 where
    pub filter : Text
    pub perms : List NocoRecord
    pub after : App World
    pub of_roles : filter_in (codes "role_id") (numbers out active) ≡ ok filter
    pub perms_listed :
        Listed
          (codes "table_permissions")
          (record no_options { filter = some filter })
          perms
          s
          after
    pub computed : v.permissions ≡ grants_from out (existing_ids out role_records) [] perms
    pub stored : store_permissions out user_id v after ≡ (ok tt, t)

  -- From the ids of the assigned roles on.
  pub record FromRoles (user_id : Num) (ids : List Num) (v : UserPermissions) (s t : App World)
      : Type 0 where
    pub filter : Text
    pub role_records : List NocoRecord
    pub after : App World
    pub of_assigned : filter_in (codes "id") (numbers out ids) ≡ ok filter
    pub roles_listed :
        Listed (codes "roles") (record no_options { filter = some filter }) role_records s after
    pub grants : FromGrants user_id role_records (active_ids out ids role_records) v after t

  -- From the assignments of the user on.
  pub record FromAssignments (user_id : Num) (v : UserPermissions) (s t : App World) : Type 0 where
    pub filter : Text
    pub assignments : List NocoRecord
    pub after : App World
    pub of_user : filter_eq (codes "user_id") (Filter.number user_id) ≡ ok filter
    pub assignments_listed :
        Listed
          (codes "user_roles")
          (record no_options { filter = some filter; fields = some (codes "role_id" ∷ []) })
          assignments
          s
          after
    pub role_grants : FromRoles user_id (role_ids_of out assignments) v after t

  -- The whole run: the user is read, and then the assignments, roles and permissions.
  pub record Loaded (user_id : Num) (v : UserPermissions) (s t : App World) : Type 0 where
    pub users_table : NocoTableMeta
    pub found : App World
    pub user : Option NocoRecord
    pub after : App World
    pub named : get_table_by_name out (codes "users") s ≡ (ok (some users_table), found)
    pub read : Records.read out users_table.id user_id none found ≡ (ok user, after)
    pub of_assignments : FromAssignments user_id v after t

  -- Permissions that allow nothing, or that the run computed from records.
  abbrev pub Justified : Num → UserPermissions → App World → App World → Type 0
  Justified user_id v s t = (v.permissions ≡ []) ⊎ Loaded user_id v s t

  -- What a loaded permission for an action on a table rests on.
  pub record Evidence (user_id : Num) (v : UserPermissions) (table : Text) (action : CrudAction)
      (s t : App World) : Type 0 where
    pub loaded : Loaded user_id v s t
    pub granted :
        Any
          (Grants out
            (existing_ids out loaded.of_assignments.role_grants.role_records)
            table
            action)
          loaded.of_assignments.role_grants.grants.perms
