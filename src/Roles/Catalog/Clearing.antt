-- ===== src/Roles/Catalog/Clearing.antt =====
-- Deleting a role and the permission cache (src/roles/roles.service.ts).
use nocodb_middleware.Prelude.{◌≡◌, Option, none, some, arith}
use nocodb_middleware.Js.{Num}
use nocodb_middleware.Result.{ok}
use nocodb_middleware.Effects.{>>=-ok}
use nocodb_middleware.Types.{NocoTableMeta, roles}
use nocodb_middleware.Outside.{Outside, App}
use nocodb_middleware.Nocodb.Meta.{get_table_by_name}
use nocodb_middleware.Nocodb.Records
use nocodb_middleware.Permissions.Service.Forgetting.{Forgotten, clear_permissions_all-Forgotten}
use nocodb_middleware.Roles.Catalog.{delete_role_in, delete_role}

module _ (out : Outside) where
  open out use {World}

  delete_role_in-Forgotten :
      (u role_id : Num) (o : Option NocoTableMeta) (s t : App World)
      → delete_role_in out role_id o s ≡ (ok tt, t)
      → Forgotten out u t
  unfolding delete_role_in
  delete_role_in-Forgotten u role_id none s t h = ground arith
  delete_role_in-Forgotten u role_id (some table) s t h =
      let (done, s₁, _, rest) = >>=-ok (Records.delete out table.id role_id) _ s h in
      clear_permissions_all-Forgotten out u s₁ t rest

  pub delete_role-Forgotten :
      (u role_id : Num) (s t : App World)
      → delete_role out role_id s ≡ (ok tt, t)
      → Forgotten out u t
  unfolding delete_role
  delete_role-Forgotten u role_id s t h =
      let (o, s₁, _, rest) = >>=-ok (get_table_by_name out roles) _ s h in
      delete_role_in-Forgotten u role_id o s₁ t rest
