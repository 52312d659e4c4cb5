-- ===== src/Permissions/Management/Clearing.antt =====
-- Changes of permissions and the cache (src/permissions/permissions-management.service.ts).
use nocodb_middleware.Prelude.{◌≡◌, Option, none, some, codes, arith}
use nocodb_middleware.Js.{Num}
use nocodb_middleware.Result.{ok}
use nocodb_middleware.Effects.{lift, traverse, >>=-ok}
use nocodb_middleware.Filter
use nocodb_middleware.Filter.{filter_eq}
use nocodb_middleware.Types.{NocoRecord, NocoTableMeta, table_permissions}
use nocodb_middleware.Outside.{Outside, App}
use nocodb_middleware.Nocodb.Meta.{get_table_by_name}
use nocodb_middleware.Nocodb.Records.{list_all, no_options}
use nocodb_middleware.Permissions.Service.Forgetting.{
  Forgotten, clear_permissions_all-Forgotten, clear_all_then-Forgotten,
}
use nocodb_middleware.Permissions.Management.{
  TablePermissions, set_in, store_permission, set_table_permissions, delete_record, delete_from,
  delete_role_permissions,
}

module _ (out : Outside) where
  open out use {World}

  set_in-Forgotten :
      (u : Num) (p : TablePermissions) (o : Option NocoTableMeta) (s t : App World) {r : NocoRecord}
      → set_in out o p s ≡ (ok r, t)
      → Forgotten out u t
  unfolding set_in
  set_in-Forgotten u p none s t h = ground arith
  set_in-Forgotten u p (some table) s t {r} h =
      let (made, s₁, _, rest) = >>=-ok (store_permission out table.id p) _ s h in
      clear_all_then-Forgotten out u made r s₁ t rest

  pub set_table_permissions-Forgotten :
      (u : Num) (p : TablePermissions) (s t : App World) {r : NocoRecord}
      → set_table_permissions out p s ≡ (ok r, t)
      → Forgotten out u t
  unfolding set_table_permissions
  set_table_permissions-Forgotten u p s t h =
      let (o, s₁, _, rest) = >>=-ok (get_table_by_name out table_permissions) _ s h in
      set_in-Forgotten u p o s₁ t rest

  delete_from-Forgotten :
      (u role_id : Num) (o : Option NocoTableMeta) (s t : App World)
      → delete_from out role_id o s ≡ (ok tt, t)
      → Forgotten out u t
  unfolding delete_from
  delete_from-Forgotten u role_id none s t h = ground arith
  delete_from-Forgotten u role_id (some table) s t h =
      let (filter, s₁, _, listing) =
        >>=-ok (lift (filter_eq (codes "role_id") (Filter.number role_id))) _ s h in
      let (perms, s₂, _, deleting) =
        >>=-ok (list_all out table.id (record no_options { filter = some filter })) _ s₁ listing in
      let (done, s₃, _, clearing) =
        >>=-ok (traverse (delete_record out table.id) perms) _ s₂ deleting in
      clear_permissions_all-Forgotten out u s₃ t clearing

  pub delete_role_permissions-Forgotten :
      (u role_id : Num) (s t : App World)
      → delete_role_permissions out role_id s ≡ (ok tt, t)
      → Forgotten out u t
  unfolding delete_role_permissions
  delete_role_permissions-Forgotten u role_id s t h =
      let (o, s₁, _, rest) = >>=-ok (get_table_by_name out table_permissions) _ s h in
      delete_from-Forgotten u role_id o s₁ t rest
