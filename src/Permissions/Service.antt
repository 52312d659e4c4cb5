-- ===== src/Permissions/Service.antt =====
-- PermissionsService (src/permissions/permissions.service.ts).
pub mod Granting
pub mod Loading
pub mod Forgetting
pub mod Reading
use nocodb_middleware.Prelude.{
  ℕ, Bool, true, false, not, ◌&&◌, ◌||◌, Option, none, some, List, [], ◌∷◌, ◌++◌, map, Text, codes,
  same, any, filter, starts_with, strip_prefix, if◌then◌else◌,
}
use nocodb_middleware.Js.{
  Num, Value, undefined, null, bool, num, text, structured, is_integer, is_positive, same_num,
  truthy, or_default, to_number,
}
use nocodb_middleware.Result.{Error, Result, ok, err, failure, not_found, nocodb_exception}
use nocodb_middleware.Effects.{Exec, pure, raise, lift, ◌>>=◌, ◌>>◌}
use nocodb_middleware.Filter
use nocodb_middleware.Filter.{FilterValue, filter_eq, filter_in, and_filters}
use nocodb_middleware.Types.{
  NocoRecord, NocoTableMeta, get, CrudAction, create, read, update, delete, Actions, no_actions,
  has_action, UserPermissions, users, roles, user_roles, table_permissions,
}
use nocodb_middleware.Outside.{Outside, App, CachedPermissions}
use nocodb_middleware.Nocodb.Requests.{date_now}
use nocodb_middleware.Nocodb.Meta.{get_table_by_name, list_base_tables}
use nocodb_middleware.Nocodb.Records
use nocodb_middleware.Nocodb.Records.{FilterOptions, list_all, no_options}
use nocodb_middleware.Permissions.Cache.{get_entry, cache_permissions, fresh_value, clear_cache}

-- `[...new Set(ids)]`
unfoldable pub unique : List Num → List Num → List Num
unique seen [] = []
unique seen (n ∷ ns) =
    let rest = unique seen ns in
    let added = n ∷ unique (n ∷ seen) ns in if any (same_num n) seen then rest else added

-- Keys of a `Map`; two objects are never the same key.
unfoldable pub same_key : Value → Value → Bool
same_key undefined undefined = true
same_key null null = true
same_key (bool true) (bool true) = true
same_key (bool false) (bool false) = true
same_key (num m) (num n) = same_num m n
same_key (text s) (text t) = same s t
same_key _ _ = false

abbrev pub PermissionsMap : Type 0
PermissionsMap = List (Value × Actions)

-- `permissionsMap.get(table)`
unfoldable pub actions_of : Value → PermissionsMap → Option Actions
actions_of key [] = none
actions_of key ((k, a) ∷ m) = if same_key key k then some a else actions_of key m

-- The `if (perm.can_…) actions.add(…)` lines on one set.
unfoldable pub add_actions : NocoRecord → Actions → Actions
add_actions perm a = record {
  has_create = truthy (get (codes "can_create") perm) || a.has_create;
  has_read = truthy (get (codes "can_read") perm) || a.has_read;
  has_update = truthy (get (codes "can_update") perm) || a.has_update;
  has_delete = truthy (get (codes "can_delete") perm) || a.has_delete;
}

-- The set for the table is made if there is none, and the actions are added to it in place.
unfoldable pub add_permission : Value → NocoRecord → PermissionsMap → PermissionsMap
add_permission key perm [] = (key, add_actions perm no_actions) ∷ []
add_permission key perm ((k, a) ∷ m) =
    if same_key key k then (k, add_actions perm a) ∷ m else (k, a) ∷ add_permission key perm m

-- `tablePermissions ? tablePermissions.has(action) : false`
unfoldable pub permits : CrudAction → Option Actions → Bool
permits action none = false
permits action (some actions) = has_action action actions

module _ (out : Outside) where
  open out use {World, base_id, table_prefix}

  number_of : Value → Num
  number_of = to_number out.parse_number

  unfoldable pub role_ids_of : List NocoRecord → List Num
  unfolding number_of
  role_ids_of user_role_records = unique [] (
      filter (λ id. is_integer id && is_positive id)
        (map (λ ur. number_of (get (codes "role_id") ur)) user_role_records))

  unfoldable pub existing_ids : List NocoRecord → List Num
  unfolding number_of
  existing_ids = map (λ r. number_of (get (codes "id") r))

  -- One round of the loop over the permission records.
  unfoldable pub grant : List Num → NocoRecord → PermissionsMap → PermissionsMap
  unfolding number_of
  grant existing perm m =
      let table = get (codes "table_name") perm in
      if not (truthy table)
        || not (any (same_num (number_of (get (codes "role_id") perm))) existing)
      then m
      else add_permission table perm m

  unfoldable pub grants_from : List Num → PermissionsMap → List NocoRecord → PermissionsMap
  grants_from existing m [] = m
  grants_from existing m (perm ∷ perms) = grants_from existing (grant existing perm m) perms

  unfoldable pub create_empty_permissions : Num → Value → UserPermissions
  create_empty_permissions user_id username = record {
    user_id = user_id;
    username = username;
    roles = [];
    permissions = [];
  }

  insert_entry : Num → UserPermissions → ℕ → Exec (App World) (Unit {0})
  insert_entry user_id value now s = (
    ok tt,
    record s { permissions_cache = cache_permissions now user_id value s.permissions_cache },
  )

  -- Date.now() is read again when the entry is stored.
  unfoldable pub store_permissions : Num → UserPermissions → Exec (App World) (Unit {0})
  unfolding insert_entry
  store_permissions user_id value = do now ← date_now out; insert_entry user_id value now

  role_names : List NocoRecord → List Value
  role_names records =
      filter truthy (map (λ r. or_default (get (codes "role_name") r) (text [])) records)

  abbrev pub numbers : List Num → List FilterValue
  numbers = map Filter.number

  -- From the permission records on, in the table found for them.
  load_grants_from :
      Num
      → Value
      → List NocoRecord
      → List Num
      → Option NocoTableMeta
      → Exec (App World) UserPermissions
  unfolding role_names
  load_grants_from user_id username role_records active none =
      pure (create_empty_permissions user_id username)
  load_grants_from user_id username role_records active (some t) = do
    filter ← lift (filter_in (codes "role_id") (numbers active))
    perms ← list_all out t.id (record no_options { filter = some filter })
    let value : UserPermissions = record {
      user_id = user_id;
      username = username;
      roles = role_names role_records;
      permissions = grants_from (existing_ids role_records) [] perms;
    }
    store_permissions user_id value
    pure value

  -- Assignments of deleted roles remain in `user_roles`; only roles that exist are kept.
  unfoldable pub active_ids : List Num → List NocoRecord → List Num
  active_ids role_ids role_records =
      filter (λ id. any (same_num id) (existing_ids role_records)) role_ids

  load_grants : Num → Value → List NocoRecord → List Num → Exec (App World) UserPermissions
  unfolding load_grants_from
  load_grants user_id username role_records [] = pure (create_empty_permissions user_id username)
  load_grants user_id username role_records (id ∷ ids) = do
    permissions_table ← get_table_by_name out table_permissions
    load_grants_from user_id username role_records (id ∷ ids) permissions_table

  load_roles_from : Num → Value → List Num → Option NocoTableMeta → Exec (App World) UserPermissions
  unfolding load_grants
  load_roles_from user_id username role_ids none = pure (create_empty_permissions user_id username)
  load_roles_from user_id username role_ids (some t) = do
    filter ← lift (filter_in (codes "id") (numbers role_ids))
    role_records ← list_all out t.id (record no_options { filter = some filter })
    load_grants user_id username role_records (active_ids role_ids role_records)

  load_roles : Num → Value → List Num → Exec (App World) UserPermissions
  unfolding load_roles_from
  load_roles user_id username [] = pure (create_empty_permissions user_id username)
  load_roles user_id username (id ∷ ids) = do
    roles_table ← get_table_by_name out roles
    load_roles_from user_id username (id ∷ ids) roles_table

  abbrev assignment_options : Text → FilterOptions
  assignment_options filter = record no_options {
    filter = some filter;
    fields = some (codes "role_id" ∷ []);
  }

  load_assignments : Num → Value → Option NocoTableMeta → Exec (App World) UserPermissions
  unfolding load_roles
  load_assignments user_id username none = pure (create_empty_permissions user_id username)
  load_assignments user_id username (some t) = do
    filter ← lift (filter_eq (codes "user_id") (Filter.number user_id))
    assignments ← list_all out t.id (assignment_options filter)
    load_roles user_id username (role_ids_of assignments)

  username_of : Option NocoRecord → Value
  username_of none = text (codes "unknown")
  username_of (some user) = or_default (get (codes "username") user) (text (codes "unknown"))

  load_user : Num → Option NocoTableMeta → Exec (App World) UserPermissions
  unfolding load_assignments username_of
  load_user user_id none = pure (create_empty_permissions user_id (text (codes "unknown")))
  load_user user_id (some t) = do
    user ← Records.read out t.id user_id none
    user_roles_table ← get_table_by_name out user_roles
    load_assignments user_id (username_of user) user_roles_table

  unfoldable pub load_permissions : Num → Exec (App World) UserPermissions
  unfolding load_user
  load_permissions user_id = do
    users_table ← get_table_by_name out users
    load_user user_id users_table

  -- The clock is read only when there is an entry.
  read_cache : Option CachedPermissions → Exec (App World) (Option UserPermissions)
  read_cache none = pure none
  read_cache (some e) = do now ← date_now out; pure (fresh_value now (some e))

  unfoldable pub cached_permissions : Num → Exec (App World) (Option UserPermissions)
  unfolding read_cache
  cached_permissions user_id s = read_cache (get_entry user_id s.permissions_cache) s

  unfoldable pub get_user_permissions : Num → Exec (App World) UserPermissions
  get_user_permissions user_id = do
    cached ← cached_permissions user_id
    elim cached [ some value ↦ pure value | none ↦ load_permissions user_id ]

  unfoldable pub allows : UserPermissions → Text → CrudAction → Bool
  allows user_permissions table_name action =
      permits action (actions_of (text table_name) user_permissions.permissions)

  unfoldable pub can_user_perform_action : Num → Text → CrudAction → Exec (App World) Bool
  can_user_perform_action user_id table_name action = do
    user_permissions ← get_user_permissions user_id
    pure (allows user_permissions table_name action)

  unfoldable pub clear_permissions : Option Num → Exec (App World) (Unit {0})
  clear_permissions user s =
      (ok tt, record s { permissions_cache = clear_cache user s.permissions_cache })
