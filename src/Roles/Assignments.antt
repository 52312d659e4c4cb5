-- ===== src/Roles/Assignments.antt =====
-- UserRolesService (src/users/user-roles.service.ts).
pub mod Clearing
pub mod Order
use nocodb_middleware.Prelude.{
  ℕ, Bool, true, false, ◌&&◌, Option, none, some, List, [], ◌∷◌, ◌++◌, map, filter, Text, codes,
  if◌then◌else◌,
}
use nocodb_middleware.Js.{Num, num, text, is_integer, is_positive, same_num, to_number}
use nocodb_middleware.Result.{Error, conflict, not_found}
use nocodb_middleware.Effects.{Exec, pure, raise, lift, catch, ◌>>=◌, ◌>>◌}
use nocodb_middleware.Filter
use nocodb_middleware.Filter.{filter_eq, filter_in, and_filters}
use nocodb_middleware.Types.{NocoRecord, NocoTableMeta, get, roles, user_roles}
use nocodb_middleware.Outside.{Outside, App}
use nocodb_middleware.Nocodb.Requests.{date_now}
use nocodb_middleware.Nocodb.Meta.{get_table_by_name}
use nocodb_middleware.Nocodb.Records
use nocodb_middleware.Nocodb.Records.{find_one, list_all, no_options}
use nocodb_middleware.Page.{Page, PageOptions, empty_page, page_of, limit_of, offset_of}
use nocodb_middleware.Permissions.Service.{clear_permissions}
use nocodb_middleware.Permissions.Management.{extract_numeric_id}
use nocodb_middleware.Roles.Catalog.{total_rows}

-- `byId.get(id)`, of the last role with that id.
unfoldable pub role_with : (NocoRecord → Num) → Num → List NocoRecord → Option NocoRecord
role_with key id [] = none
role_with key id (r ∷ rs) = elim (role_with key id rs) [
  | some later ↦ some later
  | none ↦ if same_num (key r) id then some r else none
]

-- `roleIds.map((id) => byId.get(id)).filter((role) => role !== undefined)`
unfoldable pub ordered_roles : (NocoRecord → Num) → List Num → List NocoRecord → List NocoRecord
ordered_roles key [] rs = []
ordered_roles key (id ∷ ids) rs = elim (role_with key id rs) [
  | some r ↦ r ∷ ordered_roles key ids rs
  | none ↦ ordered_roles key ids rs
]

is_conflict : Error → Bool
is_conflict conflict = true
is_conflict _ = false

module _ (out : Outside) where
  open out use {World, parse_number, iso_date}

  find_assignment : Text → Num → Num → Exec (App World) (Option NocoRecord)
  find_assignment table_id user_id role_id = do
    of_user ← lift (filter_eq (codes "user_id") (Filter.number user_id))
    of_role ← lift (filter_eq (codes "role_id") (Filter.number role_id))
    filter ← lift (and_filters (of_user ∷ of_role ∷ []))
    find_one out table_id filter

  assign_unless : Text → Num → Num → Option NocoRecord → Exec (App World) NocoRecord
  assign_unless table_id user_id role_id (some existing) = raise conflict
  assign_unless table_id user_id role_id none = do
    now ← date_now out
    result ← Records.create out table_id (
        (codes "user_id", num user_id)
        ∷ (codes "role_id", num role_id)
        ∷ (codes "assigned_at", text (iso_date now))
        ∷ [])
    clear_permissions out (some user_id)
    pure result

  assign_in : Num → Num → Option NocoTableMeta → Exec (App World) NocoRecord
  unfolding find_assignment assign_unless
  assign_in user_id role_id none = raise not_found
  assign_in user_id role_id (some t) = do
    existing ← find_assignment t.id user_id role_id
    assign_unless t.id user_id role_id existing

  unfoldable pub assign_role : Num → Num → Exec (App World) NocoRecord
  unfolding assign_in
  assign_role user_id role_id = do
    user_roles_table ← get_table_by_name out user_roles
    assign_in user_id role_id user_roles_table

  -- Nothing is added for a role that the user has.
  assign_or_skip : Num → Num → Exec (App World) (List NocoRecord)
  unfolding is_conflict
  assign_or_skip user_id role_id =
      catch (do result ← assign_role user_id role_id; pure (result ∷ []))
        (λ e. if is_conflict e then pure [] else raise e)

  unfoldable pub assign_multiple_roles : Num → List Num → Exec (App World) (List NocoRecord)
  unfolding assign_or_skip
  assign_multiple_roles user_id [] = pure []
  assign_multiple_roles user_id (role_id ∷ ids) = do
    made ← assign_or_skip user_id role_id
    rest ← assign_multiple_roles user_id ids
    pure (made ++ rest)

  remove_found : Text → Num → Option NocoRecord → Exec (App World) (Unit {0})
  remove_found table_id user_id none = raise not_found
  remove_found table_id user_id (some assignment) = do
    id ← lift (extract_numeric_id parse_number assignment)
    Records.delete out table_id id
    clear_permissions out (some user_id)

  remove_in : Num → Num → Option NocoTableMeta → Exec (App World) (Unit {0})
  unfolding find_assignment remove_found
  remove_in user_id role_id none = raise not_found
  remove_in user_id role_id (some t) = do
    assignment ← find_assignment t.id user_id role_id
    remove_found t.id user_id assignment

  unfoldable pub remove_role : Num → Num → Exec (App World) (Unit {0})
  unfolding remove_in
  remove_role user_id role_id = do
    user_roles_table ← get_table_by_name out user_roles
    remove_in user_id role_id user_roles_table

  record_number : NocoRecord → Num
  record_number r = to_number parse_number (get (codes "id") r)

  load_roles_in : List Num → Option NocoTableMeta → Exec (App World) (List NocoRecord)
  unfolding record_number
  load_roles_in role_ids none = pure []
  load_roles_in role_ids (some t) = do
    filter ← lift (filter_in (codes "id") (map Filter.number role_ids))
    records ← list_all out t.id (record no_options { filter = some filter })
    pure (ordered_roles record_number role_ids records)

  unfoldable pub load_roles : List Num → Exec (App World) (List NocoRecord)
  unfolding load_roles_in
  load_roles [] = pure []
  load_roles (id ∷ ids) = do
    roles_table ← get_table_by_name out roles
    load_roles_in (id ∷ ids) roles_table

  assigned_ids : List NocoRecord → List Num
  assigned_ids rs =
      filter (λ id. is_integer id && is_positive id)
        (map (λ ur. to_number parse_number (get (codes "role_id") ur)) rs)

  user_roles_page :
      Num → Option PageOptions → Option NocoTableMeta → Exec (App World) (Page NocoRecord)
  unfolding assigned_ids
  user_roles_page user_id o none = pure (empty_page o)
  user_roles_page user_id o (some t) = do
    of_user ← lift (filter_eq (codes "user_id") (Filter.number user_id))
    response ← Records.list out t.id (record {
      filter = some of_user;
      sort = some (codes "role_id");
      fields = some (codes "role_id" ∷ []);
      limit = some (limit_of o);
      offset = some (offset_of o);
      with_count = true;
    })
    found ← load_roles (assigned_ids response.list)
    pure (page_of o (total_rows response.page_info) found)

  unfoldable pub get_user_roles : Num → Option PageOptions → Exec (App World) (Page NocoRecord)
  unfolding user_roles_page
  get_user_roles user_id o = do
    user_roles_table ← get_table_by_name out user_roles
    user_roles_page user_id o user_roles_table
