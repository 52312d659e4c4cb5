-- ===== src/Roles/Assignments/Clearing.antt =====
-- Assignments and the user's cached permissions
-- (src/users/user-roles.service.ts).
use nocodb_middleware.Prelude.{◌≡◌, Option, none, some, Text, arith}
use nocodb_middleware.Js.{Num}
use nocodb_middleware.Result.{ok}
use nocodb_middleware.Effects.{lift, >>=-ok}
use nocodb_middleware.Types.{NocoRecord, NocoTableMeta, user_roles}
use nocodb_middleware.Outside.{Outside, App}
use nocodb_middleware.Nocodb.Requests.{date_now}
use nocodb_middleware.Nocodb.Meta.{get_table_by_name}
use nocodb_middleware.Nocodb.Records
use nocodb_middleware.Permissions.Service.Forgetting.{
  Forgotten, clear_permissions-Forgotten, clear_then-Forgotten,
}
use nocodb_middleware.Permissions.Management.{extract_numeric_id}
use nocodb_middleware.Roles.Assignments.{
  find_assignment, assign_unless, assign_in, assign_role, remove_found, remove_in, remove_role,
}

module _ (out : Outside) where
  open out use {World, iso_date, parse_number}

  assign_unless-Forgotten :
      (table_id : Text) (u role_id : Num) (o : Option NocoRecord) (s t : App World) {r : NocoRecord}
      → assign_unless out table_id u role_id o s ≡ (ok r, t)
      → Forgotten out u t
  unfolding assign_unless
  assign_unless-Forgotten table_id u role_id (some existing) s t h = ground arith
  assign_unless-Forgotten table_id u role_id none s t {r} h =
      let (now, s₁, _, creating) = >>=-ok (date_now out) _ s h in
      let (made, s₂, _, rest) = >>=-ok (Records.create out table_id _) _ s₁ creating in
      clear_then-Forgotten out u made r s₂ t rest

  assign_in-Forgotten :
      (u role_id : Num) (o : Option NocoTableMeta) (s t : App World) {r : NocoRecord}
      → assign_in out u role_id o s ≡ (ok r, t)
      → Forgotten out u t
  unfolding assign_in
  assign_in-Forgotten u role_id none s t h = ground arith
  assign_in-Forgotten u role_id (some table) s t h =
      let (o, s₁, _, rest) = >>=-ok (find_assignment out table.id u role_id) _ s h in
      assign_unless-Forgotten table.id u role_id o s₁ t rest

  pub assign_role-Forgotten :
      (u role_id : Num) (s t : App World) {r : NocoRecord}
      → assign_role out u role_id s ≡ (ok r, t)
      → Forgotten out u t
  unfolding assign_role
  assign_role-Forgotten u role_id s t h =
      let (o, s₁, _, rest) = >>=-ok (get_table_by_name out user_roles) _ s h in
      assign_in-Forgotten u role_id o s₁ t rest

  remove_found-Forgotten :
      (table_id : Text) (u : Num) (o : Option NocoRecord) (s t : App World)
      → remove_found out table_id u o s ≡ (ok tt, t)
      → Forgotten out u t
  unfolding remove_found
  remove_found-Forgotten table_id u none s t h = ground arith
  remove_found-Forgotten table_id u (some assignment) s t h =
      let (id, s₁, _, deleting) =
        >>=-ok (lift (extract_numeric_id parse_number assignment)) _ s h in
      let (done, s₂, _, rest) = >>=-ok (Records.delete out table_id id) _ s₁ deleting in
      clear_permissions-Forgotten out u s₂ t rest

  remove_in-Forgotten :
      (u role_id : Num) (o : Option NocoTableMeta) (s t : App World)
      → remove_in out u role_id o s ≡ (ok tt, t)
      → Forgotten out u t
  unfolding remove_in
  remove_in-Forgotten u role_id none s t h = ground arith
  remove_in-Forgotten u role_id (some table) s t h =
      let (o, s₁, _, rest) = >>=-ok (find_assignment out table.id u role_id) _ s h in
      remove_found-Forgotten table.id u o s₁ t rest

  pub remove_role-Forgotten :
      (u role_id : Num) (s t : App World)
      → remove_role out u role_id s ≡ (ok tt, t)
      → Forgotten out u t
  unfolding remove_role
  remove_role-Forgotten u role_id s t h =
      let (o, s₁, _, rest) = >>=-ok (get_table_by_name out user_roles) _ s h in
      remove_in-Forgotten u role_id o s₁ t rest
