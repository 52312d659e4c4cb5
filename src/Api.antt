-- ===== src/Api.antt =====
-- The controllers of the data API and of the administration of permissions behind their guards
-- (src/data/data.controller.ts, src/permissions/permissions-management.controller.ts and
-- permissions.decorator.ts). `parse` is the ParseIntPipe of NestJS, which runs behind the guards
-- and throws for a path parameter that is no integer; payloads and queries are valid ones.
pub mod Authorized
use nocodb_middleware.Prelude.{ℕ, Option, none, some, List, [], ◌∷◌, Text, codes}
use nocodb_middleware.Js.{Num}
use nocodb_middleware.Result.{Result}
use nocodb_middleware.Effects.{Exec, pure, lift, ◌>>=◌, ◌>>◌}
use nocodb_middleware.Types.{NocoRecord, CrudAction, roles, user_roles, table_permissions}
use nocodb_middleware.Outside.{Outside, App}
use nocodb_middleware.Page.{Page, PageOptions}
use nocodb_middleware.Data
use nocodb_middleware.Data.{BodyInput, ListRecordsOptions, RecordPage}
use nocodb_middleware.Roles.Catalog
use nocodb_middleware.Roles.Catalog.{NewRole}
use nocodb_middleware.Roles.Assignments
use nocodb_middleware.Permissions.Management
use nocodb_middleware.Permissions.Management.{TablePermissions, BatchPermissions}
use nocodb_middleware.Permissions.Guards.{
  RequestUser, DataRequest, can_activate_table, can_activate_permissions,
}

-- The handlers of DataController with what their decorators take from the request.
pub data DataRoute : Type 0 where
  list_records : ListRecordsOptions → DataRoute
  read_record : Text → DataRoute
  create_record : BodyInput → DataRoute
  update_record : Text → BodyInput → DataRoute
  delete_record : Text → DataRoute

-- `@Get`, `@Post`, `@Patch`, `@Delete`
unfoldable pub data_method : DataRoute → Text
data_method (list_records o) = codes "GET"
data_method (read_record id) = codes "GET"
data_method (create_record body) = codes "POST"
data_method (update_record id body) = codes "PATCH"
data_method (delete_record id) = codes "DELETE"

pub data DataAnswer : Type 0 where
  page_of : RecordPage → DataAnswer
  one : NocoRecord → DataAnswer
  no_content : DataAnswer

-- The request as the guard sees it.
unfoldable pub data_request : DataRoute → Text → Option RequestUser → DataRequest
data_request r table user = record { method = data_method r; table = some table; user = user }

-- The handlers of PermissionsManagementController.
pub data AdminRoute : Type 0 where
  create_role : NewRole → AdminRoute
  get_all_roles : PageOptions → AdminRoute
  delete_role : Text → AdminRoute
  set_table_permissions : TablePermissions → AdminRoute
  batch_set_permissions : BatchPermissions → AdminRoute
  get_role_permissions : Text → PageOptions → AdminRoute
  delete_role_permissions : Text → AdminRoute
  copy_permissions : Text → Text → AdminRoute
  assign_role : Num → Num → AdminRoute
  assign_multiple_roles : Num → List Num → AdminRoute
  remove_role : Text → Text → AdminRoute
  get_user_roles : Text → PageOptions → AdminRoute

-- `@RequireCreate(table)`, `@RequireRead(table)` and `@RequireDelete(table)`
unfoldable pub required_permission : AdminRoute → Text × CrudAction
required_permission (create_role dto) = (roles, CrudAction.create)
required_permission (get_all_roles o) = (roles, CrudAction.read)
required_permission (delete_role id) = (roles, CrudAction.delete)
required_permission (set_table_permissions dto) = (table_permissions, CrudAction.create)
required_permission (batch_set_permissions dto) = (table_permissions, CrudAction.create)
required_permission (get_role_permissions id o) = (table_permissions, CrudAction.read)
required_permission (delete_role_permissions id) = (table_permissions, CrudAction.delete)
required_permission (copy_permissions source target) = (table_permissions, CrudAction.create)
required_permission (assign_role user_id role_id) = (user_roles, CrudAction.create)
required_permission (assign_multiple_roles user_id role_ids) = (user_roles, CrudAction.create)
required_permission (remove_role user_id role_id) = (user_roles, CrudAction.delete)
required_permission (get_user_roles user_id o) = (user_roles, CrudAction.read)

pub data AdminAnswer : Type 0 where
  page : Page NocoRecord → AdminAnswer
  one : NocoRecord → AdminAnswer
  several : List NocoRecord → AdminAnswer
  counted : ℕ → AdminAnswer
  no_content : AdminAnswer

module _ (out : Outside) (parse : Text → Result Num) where
  open out use {World}

  unfoldable pub handle_data : DataRoute → Text → Exec (App World) DataAnswer
  handle_data (list_records o) table = do rows ← Data.list out table o; pure (page_of rows)
  handle_data (read_record id) table = do
    n ← lift (parse id)
    r ← Data.read out table n
    pure (DataAnswer.one r)
  handle_data (create_record body) table = do
    r ← Data.create out table body
    pure (DataAnswer.one r)
  handle_data (update_record id body) table = do
    n ← lift (parse id)
    r ← Data.update out table n body
    pure (DataAnswer.one r)
  handle_data (delete_record id) table = do
    n ← lift (parse id)
    _ ← Data.delete out table n
    pure DataAnswer.no_content

  unfoldable pub serve_data : DataRoute → Text → Option RequestUser → Exec (App World) DataAnswer
  serve_data r table user = do
    _ ← can_activate_table out (data_request r table user)
    handle_data r table

  unfoldable pub handle_admin : AdminRoute → Exec (App World) AdminAnswer
  handle_admin (create_role dto) = do r ← Catalog.create_role out dto; pure (AdminAnswer.one r)
  handle_admin (get_all_roles o) = do rows ← Catalog.get_all_roles out (some o); pure (page rows)
  handle_admin (delete_role id) = do
    n ← lift (parse id)
    _ ← Catalog.delete_role out n
    pure AdminAnswer.no_content
  handle_admin (set_table_permissions dto) = do
    r ← Management.set_table_permissions out dto
    pure (AdminAnswer.one r)
  handle_admin (batch_set_permissions dto) = do
    rs ← Management.batch_set_permissions out dto
    pure (several rs)
  handle_admin (get_role_permissions id o) = do
    n ← lift (parse id)
    rows ← Management.get_role_permissions out n (some o)
    pure (page rows)
  handle_admin (delete_role_permissions id) = do
    n ← lift (parse id)
    _ ← Management.delete_role_permissions out n
    pure AdminAnswer.no_content
  handle_admin (copy_permissions source target) = do
    m ← lift (parse source)
    n ← lift (parse target)
    k ← Management.copy_permissions out m n
    pure (counted k)
  handle_admin (assign_role user_id role_id) = do
    r ← Assignments.assign_role out user_id role_id
    pure (AdminAnswer.one r)
  handle_admin (assign_multiple_roles user_id role_ids) = do
    rs ← Assignments.assign_multiple_roles out user_id role_ids
    pure (several rs)
  handle_admin (remove_role user_id role_id) = do
    m ← lift (parse user_id)
    n ← lift (parse role_id)
    _ ← Assignments.remove_role out m n
    pure AdminAnswer.no_content
  handle_admin (get_user_roles user_id o) = do
    n ← lift (parse user_id)
    rows ← Assignments.get_user_roles out n (some o)
    pure (page rows)

  -- The guard of the whole controller, with the metadata of the handler.
  unfoldable pub serve_admin : AdminRoute → Option RequestUser → Exec (App World) AdminAnswer
  serve_admin r user = do
    _ ← can_activate_permissions out (some (required_permission r ∷ [])) user
    handle_admin r
