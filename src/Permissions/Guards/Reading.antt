-- ===== src/Permissions/Guards/Reading.antt =====
-- What the guards do to NocoDB (src/data/table-permissions.guard.ts,
-- src/permissions/permissions.guard.ts).
use nocodb_middleware.Prelude.{
  Bool, true, false, not, ◌||◌, Option, none, some, List, [], ◌∷◌, Text,
}
use nocodb_middleware.Js.{truthy, to_number}
use nocodb_middleware.Result.{forbidden, not_found}
use nocodb_middleware.Effects.{pure, raise, ◌>>=◌, ◌>>◌}
use nocodb_middleware.Effects.Keeps.{Keeps, >>=-Keeps, if-Keeps}
use nocodb_middleware.Types.{CrudAction}
use nocodb_middleware.Outside.{Outside, App}
use nocodb_middleware.Nocodb.Reading.{KeptBy, Holds, only_reads}
use nocodb_middleware.TableName.{is_valid_table_name}
use nocodb_middleware.Permissions.Scope.{has_scope_permission}
use nocodb_middleware.Permissions.Service.Reading.{can_user_perform_action-Keeps}
use nocodb_middleware.Permissions.Guards.{
  RequestUser, DataRequest, to_upper_case, method_action, is_system_table, table_or_empty,
  is_allowed, require, check_user, check_table, can_activate_table, check_all,
  can_activate_permissions,
}

module _ (out : Outside) (P : Outside.World out → Type 0) (kept : KeptBy out only_reads P) where
  open out use {World}

  abbrev In : App World → Type 0
  In = Holds out P

  is_allowed-Keeps :
      (user : RequestUser) (table : Text) (action : CrudAction)
      → Keeps In (is_allowed out user table action)
  unfolding is_allowed
  is_allowed-Keeps user table action =
      if-Keeps In (has_scope_permission user.scope table action) (pure true) _ (λ s h. h)
        (can_user_perform_action-Keeps out P kept (to_number out.parse_number user.user_id) table
          action)

  require-Keeps : (b : Bool) → Keeps In (require out b)
  unfolding require
  require-Keeps true s h = h
  require-Keeps false s h = h

  check_user-Keeps :
      (table : Text) (action : Option CrudAction) (user : Option RequestUser)
      → Keeps In (check_user out table action user)
  unfolding check_user
  check_user-Keeps table none user = λ s h. h
  check_user-Keeps table (some action) none = λ s h. h
  check_user-Keeps table (some action) (some user) =
      if-Keeps In (not (truthy user.user_id)) (raise forbidden)
        (is_allowed out user table action >>= λ allowed. require out allowed >> pure true)
        (λ s h. h)
        (>>=-Keeps In (is_allowed out user table action) _ (is_allowed-Keeps user table action)
          (λ b. >>=-Keeps In (require out b) _ (require-Keeps b) (λ _ s h. h)))

  pub check_table-Keeps :
      (table : Text) (request : DataRequest) → Keeps In (check_table out table request)
  unfolding check_table
  check_table-Keeps table request =
      if-Keeps In (not (is_valid_table_name out.is_letter_or_number table) || is_system_table table)
        (raise not_found) _ (λ s h. h)
        (check_user-Keeps table (method_action (to_upper_case request.method)) request.user)

  check_all-Keeps :
      (user : RequestUser) (needed : List (Text × CrudAction))
      → Keeps In (check_all out user needed)
  unfolding check_all
  check_all-Keeps user [] = λ s h. h
  check_all-Keeps user ((table, action) ∷ rest) =
      >>=-Keeps In (is_allowed out user table action) _ (is_allowed-Keeps user table action)
        (λ b. >>=-Keeps In (require out b) _ (require-Keeps b) (λ _. check_all-Keeps user rest))

  pub permissions-Keeps :
      (needed : Option (List (Text × CrudAction))) (user : Option RequestUser)
      → Keeps In (can_activate_permissions out needed user)
  unfolding can_activate_permissions
  permissions-Keeps none user = λ s h. h
  permissions-Keeps (some []) user = λ s h. h
  permissions-Keeps (some (p ∷ ps)) none = λ s h. h
  permissions-Keeps (some (p ∷ ps)) (some user) =
      if-Keeps In (not (truthy user.user_id)) (raise forbidden) (check_all out user (p ∷ ps))
        (λ s h. h) (check_all-Keeps user (p ∷ ps))

  -- Neither guard changes anything in NocoDB, whether it admits the request, refuses it or fails:
  -- what holds of the world and is kept by reads, the clock and timers holds behind both.
  pub guards-reads_only :
      (request : DataRequest) (needed : Option (List (Text × CrudAction)))
      (user : Option RequestUser) (s : App World)
      → P s.world
      → P (can_activate_table out request s).1.world
        × P (can_activate_permissions out needed user s).1.world
  unfolding can_activate_table
  guards-reads_only request needed user s h = (
    check_table-Keeps (table_or_empty request.table) request s h,
    permissions-Keeps needed user s h,
  )
