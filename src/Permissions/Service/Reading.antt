-- ===== src/Permissions/Service/Reading.antt =====
-- What the checks of permissions ask of NocoDB (src/permissions/permissions.service.ts).
use nocodb_middleware.Prelude.{refl, Option, none, some, List, [], ◌∷◌, Text, codes}
use nocodb_middleware.Js.{Num, Value}
use nocodb_middleware.Effects.{pure, lift}
use nocodb_middleware.Effects.Keeps.{Keeps, >>=-Keeps}
use nocodb_middleware.Filter
use nocodb_middleware.Filter.{filter_eq, filter_in}
use nocodb_middleware.Types.{
  NocoRecord, NocoTableMeta, UserPermissions, CrudAction, users, roles, user_roles,
  table_permissions,
}
use nocodb_middleware.Outside.{Outside, App, CachedPermissions}
use nocodb_middleware.Nocodb.Requests.{date_now}
use nocodb_middleware.Nocodb.Meta.{get_table_by_name}
use nocodb_middleware.Nocodb.Records
use nocodb_middleware.Nocodb.Records.{list_all}
use nocodb_middleware.Nocodb.Reading.{
  KeptBy, Holds, only_reads, date_now-Keeps, get_table_by_name-Keeps, list_all-Keeps, read-Keeps,
}
use nocodb_middleware.Permissions.Cache.{get_entry}
use nocodb_middleware.Permissions.Service.{
  insert_entry, store_permissions, numbers, load_grants_from, active_ids, load_grants,
  load_roles_from, load_roles, assignment_options, load_assignments, role_ids_of, username_of,
  load_user, load_permissions, read_cache, cached_permissions, get_user_permissions,
  can_user_perform_action,
}

module _ (out : Outside) (P : Outside.World out → Type 0) (kept : KeptBy out only_reads P) where
  open out use {World}

  abbrev In : App World → Type 0
  In = Holds out P

  table-Keeps : (name : Text) → Keeps In (get_table_by_name out name)
  unfolding only_reads
  table-Keeps name = get_table_by_name-Keeps out only_reads P kept refl name

  all-Keeps : (id : Text) (o : Records.FilterOptions) → Keeps In (list_all out id o)
  unfolding only_reads
  all-Keeps id o = list_all-Keeps out only_reads P kept refl id o

  store_permissions-Keeps :
      (user_id : Num) (value : UserPermissions) → Keeps In (store_permissions out user_id value)
  unfolding store_permissions insert_entry
  store_permissions-Keeps user_id value =
      >>=-Keeps In (date_now out) (insert_entry out user_id value)
        (date_now-Keeps out only_reads P kept) (λ now s h. h)

  load_grants_from-Keeps :
      (user_id : Num) (username : Value) (rs : List NocoRecord) (ids : List Num)
      (t : Option NocoTableMeta)
      → Keeps In (load_grants_from out user_id username rs ids t)
  unfolding load_grants_from
  load_grants_from-Keeps user_id username rs ids none = λ s h. h
  load_grants_from-Keeps user_id username rs ids (some t) =
      >>=-Keeps In (lift (filter_in (codes "role_id") (numbers out ids))) _ (λ s h. h)
        (λ filter. >>=-Keeps In (list_all out t.id _) _ (all-Keeps t.id _) (λ perms.
          >>=-Keeps In (store_permissions out user_id _) _ (store_permissions-Keeps user_id _)
            (λ _ s h. h)))

  load_grants-Keeps :
      (user_id : Num) (username : Value) (rs : List NocoRecord) (ids : List Num)
      → Keeps In (load_grants out user_id username rs ids)
  unfolding load_grants
  load_grants-Keeps user_id username rs [] = λ s h. h
  load_grants-Keeps user_id username rs (id ∷ ids) =
      >>=-Keeps In (get_table_by_name out table_permissions) _ (table-Keeps table_permissions)
        (load_grants_from-Keeps user_id username rs (id ∷ ids))

  load_roles_from-Keeps :
      (user_id : Num) (username : Value) (ids : List Num) (t : Option NocoTableMeta)
      → Keeps In (load_roles_from out user_id username ids t)
  unfolding load_roles_from
  load_roles_from-Keeps user_id username ids none = λ s h. h
  load_roles_from-Keeps user_id username ids (some t) =
      >>=-Keeps In (lift (filter_in (codes "id") (numbers out ids))) _ (λ s h. h)
        (λ filter.
          >>=-Keeps In (list_all out t.id _) _ (all-Keeps t.id _)
            (λ rs. load_grants-Keeps user_id username rs (active_ids out ids rs)))

  load_roles-Keeps :
      (user_id : Num) (username : Value) (ids : List Num)
      → Keeps In (load_roles out user_id username ids)
  unfolding load_roles
  load_roles-Keeps user_id username [] = λ s h. h
  load_roles-Keeps user_id username (id ∷ ids) =
      >>=-Keeps In (get_table_by_name out roles) _ (table-Keeps roles)
        (load_roles_from-Keeps user_id username (id ∷ ids))

  load_assignments-Keeps :
      (user_id : Num) (username : Value) (t : Option NocoTableMeta)
      → Keeps In (load_assignments out user_id username t)
  unfolding load_assignments
  load_assignments-Keeps user_id username none = λ s h. h
  load_assignments-Keeps user_id username (some t) =
      >>=-Keeps In (lift (filter_eq (codes "user_id") (Filter.number user_id))) _ (λ s h. h)
        (λ filter.
          >>=-Keeps In (list_all out t.id (assignment_options out filter)) _
            (all-Keeps t.id (assignment_options out filter))
            (λ found. load_roles-Keeps user_id username (role_ids_of out found)))

  load_user-Keeps : (user_id : Num) (t : Option NocoTableMeta) → Keeps In (load_user out user_id t)
  unfolding load_user only_reads
  load_user-Keeps user_id none = λ s h. h
  load_user-Keeps user_id (some t) =
      >>=-Keeps In (Records.read out t.id user_id none) _
        (read-Keeps out only_reads P kept refl t.id user_id none)
        (λ user.
          >>=-Keeps In (get_table_by_name out user_roles) _ (table-Keeps user_roles)
            (load_assignments-Keeps user_id (username_of out user)))

  load_permissions-Keeps : (user_id : Num) → Keeps In (load_permissions out user_id)
  unfolding load_permissions
  load_permissions-Keeps user_id =
      >>=-Keeps In (get_table_by_name out users) _ (table-Keeps users) (load_user-Keeps user_id)

  read_cache-Keeps : (o : Option CachedPermissions) → Keeps In (read_cache out o)
  unfolding read_cache
  read_cache-Keeps none = λ s h. h
  read_cache-Keeps (some e) =
      >>=-Keeps In (date_now out) _ (date_now-Keeps out only_reads P kept) (λ now s h. h)

  cached_permissions-Keeps : (user_id : Num) → Keeps In (cached_permissions out user_id)
  unfolding cached_permissions
  cached_permissions-Keeps user_id s h =
      read_cache-Keeps (get_entry user_id s.permissions_cache) s h

  pub can_user_perform_action-Keeps :
      (user_id : Num) (table : Text) (action : CrudAction)
      → Keeps In (can_user_perform_action out user_id table action)
  unfolding can_user_perform_action get_user_permissions
  can_user_perform_action-Keeps user_id table action =
      >>=-Keeps In (get_user_permissions out user_id) _
        (>>=-Keeps In (cached_permissions out user_id) _ (cached_permissions-Keeps user_id)
          by_cache)
        (λ value s h. h)
    where
      by_cache :
          (cached : Option UserPermissions)
          → Keeps In (elim cached [ some value ↦ pure value | none ↦ load_permissions out user_id ])
      by_cache none = load_permissions-Keeps user_id
      by_cache (some value) = λ s h. h
