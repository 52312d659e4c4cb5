-- ===== src/Api/Authorized.antt =====
-- What requests that are not authorized do to NocoDB (src/data/data.controller.ts,
-- src/permissions/permissions-management.controller.ts).
use nocodb_middleware.Prelude.{
  ◌≡◌, refl, ◌⊎◌, inl, inr, Bool, true, Bool-cases, Option, none, some, [], ◌∷◌, Text, arith,
}
use nocodb_middleware.Js.{Num, truthy, to_number}
use nocodb_middleware.Result.{Result, ok, err}
use nocodb_middleware.Effects.{Exec, go_on}
use nocodb_middleware.Types.{CrudAction}
use nocodb_middleware.Outside.{Outside, App}
use nocodb_middleware.Nocodb.Reading.{KeptBy, Holds, only_reads}
use nocodb_middleware.Permissions.Scope.{has_scope_permission}
use nocodb_middleware.Permissions.Service.{can_user_perform_action}
use nocodb_middleware.Permissions.Guards.{
  RequestUser, is_allowed, check_all, can_activate_table, can_activate_permissions,
}
use nocodb_middleware.Permissions.Guards.Denial.{
  Admitted, activated-Admitted, after_require, allowed_by,
}
use nocodb_middleware.Permissions.Guards.Reading.{guards-reads_only, permissions-Keeps}
use nocodb_middleware.Api.{
  DataRoute, data_request, serve_data, AdminRoute, required_permission, serve_admin,
}

-- The first step is at fault for a failure, or what it lets through is known.
module _ {S A B : Type 0} (Q : S → Type 0) (E : S → Type 0) where
  guarded_by :
      (m : Result A × S) (f : A → Exec S B)
      → Q m.1
      → ((a : A) (t : S) → m ≡ (ok a, t) → E t)
      → Q (go_on m.0 f m.1).1 ⊎ ((t : S) × E t)
  guarded_by (ok a, t) f h known = inr (t, known a t refl)
  guarded_by (err e, t) f h known = inl h

-- The user is known, has an id, and a scope or the user's roles allow the action on the table.
pub record IsAuthorized (out : Outside) (permission : Text × CrudAction) (user : Option RequestUser)
    (s s' : App (Outside.World out)) : Type 0 where
  pub who : RequestUser
  pub known : user ≡ some who
  pub has_id : truthy who.user_id ≡ true
  pub allowed :
      ((has_scope_permission who.scope permission.0 permission.1 ≡ true) × (s ≡ s'))
      ⊎ (can_user_perform_action out
            (to_number (Outside.parse_number out) who.user_id)
            permission.0
            permission.1
            s
          ≡ (ok true, s'))

module _ (out : Outside) where
  open out use {World}

  activated-IsAuthorized :
      (permission : Text × CrudAction) (user : Option RequestUser) (s s' : App World) (b : Bool)
      → can_activate_permissions out (some (permission ∷ [])) user s ≡ (ok b, s')
      → IsAuthorized out permission user s s'
  unfolding can_activate_permissions check_all
  activated-IsAuthorized permission none s s' b h = absurd (ground arith)
  activated-IsAuthorized (table, action) (some u) s s' b h = elim (Bool-cases (truthy u.user_id)) [
    | inr no_id ↦ absurd (ground (arith, rw no_id at h))
    | inl has_id ↦
        let (answer, state) =
          after_require out (is_allowed out u table action s).0 (is_allowed out u table action s).1
            s' b (rw has_id at h) in
        record {
          who = u;
          known = refl;
          has_id = has_id;
          allowed = allowed_by out u table action s s' (λ i. (answer i, state i));
        }
  ]

module _ (out : Outside) (P : Outside.World out → Type 0) (kept : KeptBy out only_reads P)
    (parse : Text → Result Num) where
  open out use {World}

  serve_data-guarded :
      (r : DataRoute) (table : Text) (user : Option RequestUser) (s : App World)
      → P s.world
      → P (serve_data out parse r table user s).1.world
        ⊎ ((s' : App World) × Admitted out (data_request r table user) s s')
  unfolding serve_data
  serve_data-guarded r table user s h =
      let q = data_request r table user in
      guarded_by (Holds out P) (Admitted out q s) (can_activate_table out q s) _
        (guards-reads_only out P kept q none user s h).0
        (λ b s' e. activated-Admitted out q s s' b e)

  serve_admin-guarded :
      (r : AdminRoute) (user : Option RequestUser) (s : App World)
      → P s.world
      → P (serve_admin out parse r user s).1.world
        ⊎ ((s' : App World) × IsAuthorized out (required_permission r) user s s')
  unfolding serve_admin
  serve_admin-guarded r user s h =
      let needed = some (required_permission r ∷ []) in
      guarded_by (Holds out P) (IsAuthorized out (required_permission r) user s)
        (can_activate_permissions out needed user s) _
        (permissions-Keeps out P kept needed user s h)
        (λ b s' e. activated-IsAuthorized out (required_permission r) user s s' b e)

  -- A request of the data API or of the administration of permissions leaves NocoDB only read, or
  -- TablePermissionsGuard admitted it for the table and the method that it has, respectively its
  -- user is known, has an id, and a scope or the user's roles allow the action that the handler
  -- requires on the table that it requires.
  pub served-IsAuthorized :
      (d : DataRoute) (table : Text) (a : AdminRoute) (user : Option RequestUser) (s : App World)
      → P s.world
      → (P (serve_data out parse d table user s).1.world
          ⊎ ((s' : App World) × Admitted out (data_request d table user) s s'))
        × (P (serve_admin out parse a user s).1.world
            ⊎ ((s' : App World) × IsAuthorized out (required_permission a) user s s'))
  served-IsAuthorized d table a user s h =
      (serve_data-guarded d table user s h, serve_admin-guarded a user s h)
