-- ===== src/Permissions/Guards/Denial.antt =====
-- What the guard of the data API refuses and admits (src/data/table-permissions.guard.ts).
use nocodb_middleware.Prelude.{
  ◌≡◌, refl, ◌⊎◌, inl, inr, Bool, true, false, not, ◌||◌, Option, none, some, Text, Bool-cases,
  arith,
}
use nocodb_middleware.Js.{truthy, to_number}
use nocodb_middleware.Result.{Result, ok, err}
use nocodb_middleware.Effects.{pure, go_on, ◌>>◌}
use nocodb_middleware.Types.{CrudAction}
use nocodb_middleware.Outside.{Outside, App}
use nocodb_middleware.TableName.{code_points, is_valid_table_name}
use nocodb_middleware.Permissions.Scope.{has_scope_permission}
use nocodb_middleware.Permissions.Service.{can_user_perform_action}
use nocodb_middleware.Permissions.Guards.{
  RequestUser, DataRequest, to_upper_case, method_action, is_system_table, table_or_empty,
  is_allowed, require, check_user, check_table, can_activate_table,
}

module _ (out : Outside) where
  open out use {World, is_letter_or_number}

  -- What a request that the guard lets through has shown.
  pub record Admitted (request : DataRequest) (s : App World) (s' : App World) : Type 0 where
    pub table : Text
    pub user : RequestUser
    pub action : CrudAction
    pub named : request.table ≡ some table
    pub valid : is_valid_table_name is_letter_or_number table ≡ true
    pub not_system : is_system_table table ≡ false
    pub mapped : method_action (to_upper_case request.method) ≡ some action
    pub known : request.user ≡ some user
    pub has_id : truthy user.user_id ≡ true
    pub allowed :
        ((has_scope_permission user.scope table action ≡ true) × (s ≡ s'))
        ⊎ (can_user_perform_action out (to_number out.parse_number user.user_id) table action s
            ≡ (ok true, s'))

  pub after_require :
      (r : Result Bool) (t s' : App World) (b : Bool)
      → go_on r (λ allowed. require out allowed >> pure true) t ≡ (ok b, s')
      → (r ≡ ok true) × (t ≡ s')
  unfolding require
  after_require (ok true) t s' b h = (refl, ground arith)
  after_require (ok false) t s' b h = ground arith
  after_require (err e) t s' b h = ground arith

  checked_user :
      (table : Text) (a : Option CrudAction) (u : Option RequestUser) (s s' : App World) (b : Bool)
      → check_user out table a u s ≡ (ok b, s')
      → (action : CrudAction) × (user : RequestUser) × (a ≡ some action)
        × (u ≡ some user)
        × (truthy user.user_id ≡ true)
        × (is_allowed out user table action s ≡ (ok true, s'))
  unfolding check_user
  checked_user table (some action) (some user) s s' b h = elim (Bool-cases (truthy user.user_id)) [
    | inr no_id ↦ absurd (ground (arith, rw no_id at h))
    | inl has_id ↦
        let (answer, state) =
          after_require (is_allowed out user table action s).0
            (is_allowed out user table action s).1 s' b (rw has_id at h) in
        (action, user, refl, refl, has_id, λ i. (answer i, state i))
  ]
  checked_user table none u s s' b h = ground arith
  checked_user table (some action) none s s' b h = ground arith

  pub allowed_by :
      (user : RequestUser) (table : Text) (action : CrudAction) (s s' : App World)
      → is_allowed out user table action s ≡ (ok true, s')
      → ((has_scope_permission user.scope table action ≡ true) × (s ≡ s'))
        ⊎ (can_user_perform_action out (to_number out.parse_number user.user_id) table action s
            ≡ (ok true, s'))
  unfolding is_allowed
  allowed_by user table action s s' h =
      elim (Bool-cases (has_scope_permission user.scope table action)) [
        | inl scoped ↦ inl (scoped, ground (arith, rw scoped at h))
        | inr no_scope ↦ inr (rw no_scope at h)
      ]

  checked_table :
      (table : Text) (request : DataRequest) (s s' : App World) (b : Bool)
      → check_table out table request s ≡ (ok b, s')
      → (is_valid_table_name is_letter_or_number table ≡ true)
        × (is_system_table table ≡ false)
        × (check_user out table (method_action (to_upper_case request.method)) request.user s
            ≡ (ok b, s'))
  unfolding check_table
  checked_table table request s s' b h =
      elim (Bool-cases
        (not (is_valid_table_name is_letter_or_number table) || is_system_table table)) [
          | inl refused ↦ absurd (ground (arith, rw refused at h))
          | inr fine ↦ (ground arith, ground arith, rw fine at h)
        ]

  named_table :
      (o : Option Text)
      → is_valid_table_name is_letter_or_number (table_or_empty o) ≡ true
      → o ≡ some (table_or_empty o)
  unfolding table_or_empty is_valid_table_name code_points
  named_table none h = ground arith
  named_table (some t) h = refl

  -- A request that the guard lets through names a valid table that is no system table, has a method
  -- that stands for an action, comes from a user with an id, and a scope or the user's roles allow
  -- the action on that table.
  pub activated-Admitted :
      (request : DataRequest) (s s' : App World) (b : Bool)
      → can_activate_table out request s ≡ (ok b, s')
      → Admitted request s s'
  unfolding can_activate_table
  activated-Admitted request s s' b h =
      let table = table_or_empty request.table in
      let (valid, not_system, checked) = checked_table table request s s' b h in
      let (action, user, mapped, known, has_id, allowed) =
        checked_user table (method_action (to_upper_case request.method)) request.user s s' b
          checked in
      record {
        table = table;
        user = user;
        action = action;
        named = named_table request.table valid;
        valid = valid;
        not_system = not_system;
        mapped = mapped;
        known = known;
        has_id = has_id;
        allowed = allowed_by user table action s s' allowed;
      }
