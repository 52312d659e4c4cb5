-- ===== src/Permissions/Management.antt =====
-- Writing permissions (src/permissions/permissions-management.service.ts, `setTablePermissions` and
-- `initializePermissionsForRole` of src/permissions/permissions.service.ts, `extractNumericId` of
-- src/common/utils/nocodb-utils.ts).
pub mod Clearing
pub mod Ids
use nocodb_middleware.Prelude.{
  ℕ, Bool, true, false, Option, none, some, List, [], ◌∷◌, map, Text, codes, length, strip_prefix,
}
use nocodb_middleware.Js.{Num, nan, Value, undefined, null, bool, num, text, structured, truthy}
use nocodb_middleware.Result.{Result, ok, err, failure, not_found}
use nocodb_middleware.Effects.{Exec, pure, raise, lift, traverse, ◌>>=◌, ◌>>◌}
use nocodb_middleware.Filter
use nocodb_middleware.Filter.{FilterValue, filter_eq, and_filters}
use nocodb_middleware.Types.{
  NocoRecord, NocoTableMeta, get, CrudAction, create, read, update, delete, table_permissions,
}
use nocodb_middleware.Outside.{Outside, App}
use nocodb_middleware.Nocodb.Meta.{get_table_by_name, list_base_tables}
use nocodb_middleware.Nocodb.Records
use nocodb_middleware.Nocodb.Records.{RecordList, PageInfo, list_all, find_one, no_options}
use nocodb_middleware.Page.{Page, PageOptions, empty_page, page_of, limit_of, offset_of}
use nocodb_middleware.Permissions.Service.{clear_permissions}

pub record TablePermissions : Type 0 where
  pub role_id : Num
  pub table_name : Value
  pub can_create : Bool
  pub can_read : Bool
  pub can_update : Bool
  pub can_delete : Bool

-- The role is one for all; see `BatchSetPermissionsDto`.
pub record BatchPermissions : Type 0 where
  pub role_id : Num
  pub permissions : List TablePermissions

parsed_id : Num → Result Num
parsed_id nan = err not_found
parsed_id n = ok n

module _ (parse_number : Text → Num) where
  unfoldable pub extract_numeric_id : NocoRecord → Result Num
  unfolding parsed_id
  extract_numeric_id r = elim (get (codes "id") r) [
    | num n ↦ ok n
    | text (c ∷ t) ↦ parsed_id (parse_number (c ∷ t))
    | _ ↦ err not_found
  ]

-- A value that is no number, boolean or string has no `trim`.
unfoldable pub filter_value : Value → Result FilterValue
filter_value (bool b) = ok (FilterValue.boolean b)
filter_value (num n) = ok (FilterValue.number n)
filter_value (text t) = ok (FilterValue.text t)
filter_value _ = err failure

unfoldable pub permission_data : TablePermissions → NocoRecord
permission_data p =
    (codes "role_id", num p.role_id)
    ∷ (codes "table_name", p.table_name)
    ∷ (codes "can_create", bool p.can_create)
    ∷ (codes "can_read", bool p.can_read)
    ∷ (codes "can_update", bool p.can_update)
    ∷ (codes "can_delete", bool p.can_delete)
    ∷ []

-- `Boolean(p.can_…)` of a stored permission, for another role.
unfoldable pub copied : Num → NocoRecord → TablePermissions
copied role_id p = record {
  role_id = role_id;
  table_name = get (codes "table_name") p;
  can_create = truthy (get (codes "can_create") p);
  can_read = truthy (get (codes "can_read") p);
  can_update = truthy (get (codes "can_update") p);
  can_delete = truthy (get (codes "can_delete") p);
}

total_of : Option PageInfo → Option ℕ
total_of none = none
total_of (some i) = some i.total_rows

-- `b ?? false`
given : Option Bool → Bool
given none = false
given (some b) = b

kept : List (Option Text) → List Text
kept [] = []
kept (none ∷ ts) = kept ts
kept (some t ∷ ts) = t ∷ kept ts

module _ (out : Outside) where
  open out use {World, parse_number, base_id, table_prefix}

  -- The existing record is changed, or a new one is made.
  save_permission : Text → TablePermissions → Option NocoRecord → Exec (App World) NocoRecord
  save_permission table_id p none = Records.create out table_id (permission_data p)
  save_permission table_id p (some existing) = do
    id ← lift (extract_numeric_id parse_number existing)
    Records.update out table_id id (permission_data p)

  store_permission : Text → TablePermissions → Exec (App World) NocoRecord
  unfolding save_permission
  store_permission table_id p = do
    of_role ← lift (filter_eq (codes "role_id") (Filter.number p.role_id))
    name ← lift (filter_value p.table_name)
    of_table ← lift (filter_eq (codes "table_name") name)
    filter ← lift (and_filters (of_role ∷ of_table ∷ []))
    existing ← find_one out table_id filter
    save_permission table_id p existing

  set_in : Option NocoTableMeta → TablePermissions → Exec (App World) NocoRecord
  unfolding store_permission
  set_in none p = raise not_found
  set_in (some t) p = do result ← store_permission t.id p; clear_permissions out none; pure result

  unfoldable pub set_table_permissions : TablePermissions → Exec (App World) NocoRecord
  unfolding set_in
  set_table_permissions p = do
    permissions_table ← get_table_by_name out table_permissions
    set_in permissions_table p

  unfoldable pub batch_set_permissions : BatchPermissions → Exec (App World) (List NocoRecord)
  batch_set_permissions dto =
      traverse (λ p. set_table_permissions (record p { role_id = dto.role_id })) dto.permissions

  copy_from : Num → Num → Option NocoTableMeta → Exec (App World) ℕ
  copy_from source target none = raise not_found
  copy_from source target (some t) = do
    filter ← lift (filter_eq (codes "role_id") (Filter.number source))
    perms ← list_all out t.id (record no_options { filter = some filter })
    _ ← traverse (λ p. set_table_permissions (copied target p)) perms
    pure (length perms)

  -- The number of permissions copied.
  unfoldable pub copy_permissions : Num → Num → Exec (App World) ℕ
  unfolding copy_from
  copy_permissions source target = do
    permissions_table ← get_table_by_name out table_permissions
    copy_from source target permissions_table

  delete_record : Text → NocoRecord → Exec (App World) (Unit {0})
  delete_record table_id r = do
    id ← lift (extract_numeric_id parse_number r)
    Records.delete out table_id id

  delete_from : Num → Option NocoTableMeta → Exec (App World) (Unit {0})
  unfolding delete_record
  delete_from role_id none = raise not_found
  delete_from role_id (some t) = do
    filter ← lift (filter_eq (codes "role_id") (Filter.number role_id))
    perms ← list_all out t.id (record no_options { filter = some filter })
    _ ← traverse (delete_record t.id) perms
    clear_permissions out none

  unfoldable pub delete_role_permissions : Num → Exec (App World) (Unit {0})
  unfolding delete_from
  delete_role_permissions role_id = do
    permissions_table ← get_table_by_name out table_permissions
    delete_from role_id permissions_table

  role_page : Num → Option PageOptions → Option NocoTableMeta → Exec (App World) (Page NocoRecord)
  unfolding total_of
  role_page role_id o none = pure (empty_page o)
  role_page role_id o (some t) = do
    filter ← lift (filter_eq (codes "role_id") (Filter.number role_id))
    result ← Records.list out t.id (record {
      filter = some filter;
      sort = some (codes "table_name");
      fields = none;
      limit = some (limit_of o);
      offset = some (offset_of o);
      with_count = true;
    })
    pure (page_of o (total_of result.page_info) result.list)

  unfoldable pub get_role_permissions :
      Num → Option PageOptions → Exec (App World) (Page NocoRecord)
  unfolding role_page
  get_role_permissions role_id o = do
    permissions_table ← get_table_by_name out table_permissions
    role_page role_id o permissions_table

  -- `setTablePermissions` of PermissionsService: an absent action is not allowed.
  set_for : Option NocoTableMeta → TablePermissions → Exec (App World) (Unit {0})
  unfolding store_permission
  set_for none p = raise failure
  set_for (some t) p = do _ ← store_permission t.id p; clear_permissions out none

  unfoldable pub set_permissions :
      Num → Text → (CrudAction → Option Bool) → Exec (App World) (Unit {0})
  unfolding set_for given
  set_permissions role_id table_name permissions = do
    permissions_table ← get_table_by_name out table_permissions
    set_for permissions_table (record {
      role_id = role_id;
      table_name = text table_name;
      can_create = given (permissions create);
      can_read = given (permissions read);
      can_update = given (permissions update);
      can_delete = given (permissions delete);
    })

  -- Logical names of the tables that carry the prefix.
  unfoldable pub get_all_workspace_tables : Exec (App World) (List Text)
  unfolding kept
  get_all_workspace_tables = do
    tables ← list_base_tables out base_id
    pure (kept (map (λ t. strip_prefix table_prefix t.title) tables))

  unfoldable pub initialize_permissions_for_role :
      Num → (CrudAction → Option Bool) → Exec (App World) (Unit {0})
  initialize_permissions_for_role role_id permissions = do
    tables ← get_all_workspace_tables
    _ ← traverse (λ name. set_permissions role_id name permissions) tables
    pure tt
